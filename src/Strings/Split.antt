-- ===== src/Strings/Split.antt =====
-- `split` cuts a text at every separator and loses nothing.
use vhdp.Base.{
  ℕ, ◌+◌, false, ◌||◌, List, [], ◌∷◌, ◌++◌, Bytes, if◌then◌else◌, length, ◌==◌, ◌≡◌, refl, ◌∙◌,
  arith, Bool-cases, inl, inr, All, append_assoc, append-nil, has_byte, ap, sym,
}
use vhdp.Strings.{split, split_from}

-- The pieces with the separator between them.
unfoldable pub join_by : ℕ → List Bytes → Bytes
join_by sep [] = []
join_by sep (p ∷ []) = p
join_by sep (p ∷ q ∷ ps) = p ++ sep ∷ join_by sep (q ∷ ps)

unfoldable pub count : ℕ → Bytes → ℕ
count sep [] = 0
count sep (c ∷ s) = (if c == sep then 1 else 0) + count sep s

abbrev pub HasNo : ℕ → Bytes → Type 0
HasNo sep p = has_byte sep p ≡ false

-- There is always a last piece.
split_from_cons :
    (sep : ℕ) (read s : Bytes) → (p : Bytes) × (ps : List Bytes) × (split_from sep read s ≡ p ∷ ps)
unfolding split_from
split_from_cons sep read [] = (read, [], refl)
split_from_cons sep read (c ∷ s) = elim (Bool-cases (c == sep)) [
  | inl e ↦ rw e (read, split_from sep [] s, refl)
  | inr e ↦ rw e (split_from_cons sep (read ++ c ∷ []) s)
]

join_by-cons :
    (sep : ℕ) (p read s : Bytes)
    → join_by sep (p ∷ split_from sep read s) ≡ p ++ sep ∷ join_by sep (split_from sep read s)
unfolding join_by
join_by-cons sep p read s = let (q, qs, e) = split_from_cons sep read s in rw e

join_by-split_from : (sep : ℕ) (read s : Bytes) → join_by sep (split_from sep read s) ≡ read ++ s
unfolding split_from join_by
join_by-split_from sep read [] = sym (append-nil read)
join_by-split_from sep read (c ∷ s) = elim (Bool-cases (c == sep)) [
  | inl e ↦ rw e (
      join_by-cons sep read [] s
      ∙ ap (λ r. read ++ sep ∷ r) (join_by-split_from sep [] s)
      ∙ ap (λ x. read ++ x ∷ s) (ground arith))
  | inr e ↦ rw e (join_by-split_from sep (read ++ c ∷ []) s ∙ append_assoc read (c ∷ []) s)
]

has_byte-concat :
    (sep c : ℕ) (p : Bytes) → has_byte sep (p ++ c ∷ []) ≡ (has_byte sep p || c == sep)
unfolding has_byte
has_byte-concat sep c [] = ground arith
has_byte-concat sep c (x ∷ p) = ground (arith, has_byte-concat sep c p)

split_from-HasNo :
    (sep : ℕ) (read s : Bytes) → HasNo sep read → All (HasNo sep) (split_from sep read s)
unfolding split_from
split_from-HasNo sep read [] h = (h, tt)
split_from-HasNo sep read (c ∷ s) h = elim (Bool-cases (c == sep)) [
  | inl e ↦ rw e (h, split_from-HasNo sep [] s (unfold has_byte in refl))
  | inr e ↦ rw e (split_from-HasNo sep (read ++ c ∷ []) s (rw (has_byte-concat, h, e)))
]

length-split_from : (sep : ℕ) (read s : Bytes) → length (split_from sep read s) ≡ count sep s + 1
unfolding split_from count
length-split_from sep read [] = omega arith
length-split_from sep read (c ∷ s) = elim (Bool-cases (c == sep)) [
  | inl e ↦ rw e (omega (arith, length-split_from sep [] s))
  | inr e ↦ rw e (omega (arith, length-split_from sep (read ++ c ∷ []) s))
]

-- The pieces that `split` returns, joined by the separator, are the text; no piece holds the
-- separator, and there is one piece more than there are separators.
pub split-join_by :
    (s : Bytes) (sep : ℕ)
    → (join_by sep (split s sep) ≡ s)
      × All (HasNo sep) (split s sep)
      × (length (split s sep) ≡ count sep s + 1)
unfolding split
split-join_by s sep = (
  join_by-split_from sep [] s,
  split_from-HasNo sep [] s (unfold has_byte in refl),
  length-split_from sep [] s,
)
