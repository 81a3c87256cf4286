-- ===== src/Exec/Argv0/Scan.antt =====
-- The search of a loader that is read in pieces.
use vhdp.Base.{
  ℕ, zero, suc, ◌+◌, ◌-◌, ◌≤◌, ◌<◌, true, false, ◌&&◌, ◌||◌, List, [], ◌∷◌, ◌++◌, Bytes, length,
  leb, ◌==◌, drop, is_empty, ◌≡◌, refl, ap, ◌∙◌, sym, append_assoc, append-nil, arith, starts_with,
  Bool-cases, inl, inr, length-append, le→leb, leb→le, if-elim,
}
use vhdp.Resolver.Links.{has_infix}
use vhdp.Exec.Calls.{Chunk, interrupted, bytes}
use vhdp.Exec.Argv0.{needle, carried, scan_loader, loader_scan_max}

starts_with-append :
    (p s r : Bytes) → length p ≤ length s → starts_with p (s ++ r) ≡ starts_with p s
unfolding starts_with
starts_with-append [] s r h = refl
starts_with-append (x ∷ p) [] r h = absurd (omega arith)
starts_with-append (x ∷ p) (y ∷ s) r h =
    ap (λ b. x == y && b) (starts_with-append p s r (omega arith))

starts_with_mono : (p s r : Bytes) → starts_with p s ≡ true → starts_with p (s ++ r) ≡ true
unfolding starts_with
starts_with_mono [] s r h = refl
starts_with_mono (x ∷ p) [] r h = absurd (cc h)
starts_with_mono (x ∷ p) (y ∷ s) r h = ground (arith, starts_with_mono p s r)

has_infix_mono : (p s r : Bytes) → has_infix p s ≡ true → has_infix p (s ++ r) ≡ true
unfolding has_infix
has_infix_mono [] [] [] h = refl
has_infix_mono [] [] (c ∷ r) h = ground arith
has_infix_mono (x ∷ p) [] r h = absurd (cc h)
has_infix_mono p (c ∷ s) r h = ground (arith, has_infix_mono p s r, starts_with_mono p (c ∷ s) r)

has_infix-drop :
    (p : Bytes) (n : ℕ) (s : Bytes) → has_infix p s ≡ false → has_infix p (drop n s) ≡ false
unfolding has_infix
has_infix-drop p zero s h = h
has_infix-drop p (suc n) [] h = h
has_infix-drop p (suc n) (c ∷ s) h = has_infix-drop p n s (ground arith)

carried-cons : (c : ℕ) (s : Bytes) → 6 ≤ length s → carried (c ∷ s) ≡ carried s
unfolding carried
carried-cons c s h =
    let less : suc (length s) - 6 ≡ suc (length s - 6) = omega arith in
    rw (le→leb 6 (suc (length s)) (omega arith), le→leb 6 (length s) h)
      (ap (λ k. drop k (c ∷ s)) less)

carried-short : (s : Bytes) → length s ≤ 6 → carried s ≡ s
unfolding carried
carried-short s h = elim (Bool-cases (leb 6 (length s))) [
  | inr l ↦ rw l refl
  | inl l ↦
      let none_dropped : length s - 6 ≡ 0 = omega arith in rw l (ap (λ k. drop k s) none_dropped)
]

-- A needle of seven bytes that is not in a buffer is in the text that the buffer starts if it is in
-- the part that is carried over and what follows.
has_infix-carried :
    (p s r : Bytes)
    → length p ≡ 7
    → has_infix p s ≡ false
    → has_infix p (s ++ r) ≡ has_infix p (carried s ++ r)
unfolding has_infix
has_infix-carried p [] r n h = ap (λ k. has_infix p (k ++ r)) (sym (carried-short [] (omega arith)))
has_infix-carried p (c ∷ s) r n h = elim (Bool-cases (leb 6 (length s))) [
  | inr l ↦ ap (λ k. has_infix p (k ++ r)) (sym (carried-short (c ∷ s) (ground arith)))
  | inl l ↦
      let enough : 6 ≤ length s = leb→le 6 (length s) l in
      let start : starts_with p (c ∷ (s ++ r)) ≡ false =
        starts_with-append p (c ∷ s) r (omega arith) ∙ ground arith in
      ap (λ b. b || has_infix p (s ++ r)) start
      ∙ has_infix-carried p s r n (ground arith)
      ∙ ap (λ k. has_infix p (k ++ r)) (sym (carried-cons c s enough))
]

carried-no_infix : (p s : Bytes) → has_infix p s ≡ false → has_infix p (carried s) ≡ false
unfolding carried
carried-no_infix p s h =
    if-elim (λ k. has_infix p k ≡ false) (leb 6 (length s)) (λ _. has_infix-drop p _ s h) (λ _. h)

-- The calls of read(2) that give a file's bytes, in pieces of one or more, some calls interrupted.
pub data Feed : List Chunk → Bytes → Type 0 where
  end_of_file : Feed [] []
  again : {chunks : List Chunk} {s : Bytes} → Feed chunks s → Feed (interrupted ∷ chunks) s
  piece :
      {chunks : List Chunk} {s : Bytes} (b : Bytes)
      → is_empty b ≡ false
      → Feed chunks s
      → Feed (bytes b ∷ chunks) (b ++ s)

nothing_more :
    (s carry : Bytes)
    → length s ≤ 0
    → has_infix needle carry ≡ false
    → has_infix needle (carry ++ s) ≡ false
nothing_more [] carry l h = ap (has_infix needle) (append-nil carry) ∙ h
nothing_more (c ∷ s) carry l h = absurd (omega arith)

length-pos : (b : Bytes) → is_empty b ≡ false → 1 ≤ length b
length-pos [] e = absurd (cc e)
length-pos (c ∷ b) e = omega arith

scan_loader-carry :
    {chunks : List Chunk} (s carry : Bytes) (total : ℕ)
    → Feed chunks s
    → total + length s ≤ loader_scan_max
    → has_infix needle carry ≡ false
    → scan_loader carry total chunks ≡ has_infix needle (carry ++ s)
unfolding scan_loader
scan_loader-carry _ carry total end_of_file l h = sym (ap (has_infix needle) (append-nil carry) ∙ h)
scan_loader-carry s carry total (again f) l h = elim (Bool-cases (leb loader_scan_max total)) [
  | inl m ↦ rw m (sym (nothing_more s carry (omega (arith, leb→le _ _ m)) h))
  | inr m ↦ rw m (scan_loader-carry s carry total f l h)
]
scan_loader-carry _ carry total (piece {s} b e f) l h =
    let size = length-append b s in
    let short : total < loader_scan_max = omega (arith, size, length-pos b e) in
    let go : leb loader_scan_max total ≡ false = ground (arith, short) in
    rw (go, e)
      (elim (Bool-cases (has_infix needle (carry ++ b))) [
        | inl m ↦ rw m (
            sym (
              ap (has_infix needle) (sym (append_assoc carry b s))
              ∙ has_infix_mono needle (carry ++ b) s m))
        | inr m ↦ rw m (
            scan_loader-carry s (carried (carry ++ b)) (total + length b) f (omega (arith, size))
              (carried-no_infix needle (carry ++ b) m)
            ∙ sym (has_infix-carried needle (carry ++ b) s refl m)
            ∙ ap (has_infix needle) (append_assoc carry b s))
      ])

-- The search of a loader that is read in pieces, however they are cut and however often a call is
-- interrupted, finds "--argv0" exactly if the file contains it. The file is at most 16 MiB long and
-- is read to its end.
pub scan_loader-has_infix :
    {chunks : List Chunk} (s : Bytes)
    → Feed chunks s
    → length s ≤ loader_scan_max
    → scan_loader [] 0 chunks ≡ has_infix needle s
unfolding has_infix
scan_loader-has_infix s f l = scan_loader-carry s [] 0 f (omega arith) refl
