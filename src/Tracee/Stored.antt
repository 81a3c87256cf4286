-- ===== src/Tracee/Stored.antt =====
-- Bytes in the memory of a process, and texts in front of a NUL.
use vhdp.Base.{
  length-drop, ap, subst, take, drop, ℕ, zero, suc, ◌+◌, ◌-◌, ◌≤◌, true, false, [], ◌∷◌, ◌++◌,
  Option, some, none, Bytes, length, ◌≡◌, refl, arith, inl, inr, Option-cases, has_byte,
}
use native.Mathlib.Numerals.{unary_clauses}
use vhdp.Tracee.{until_nul}

-- The bytes from an address on, where all of them are mapped.
unfoldable pub stored : (ℕ → Option ℕ) → ℕ → ℕ → Option Bytes
stored mem addr zero = some []
stored mem addr (suc n) = elim (mem addr) [
  | none ↦ none
  | some c ↦ elim (stored mem (suc addr) n) [ none ↦ none | some s ↦ some (c ∷ s) ]
]

pub stored-take :
    (mem : ℕ → Option ℕ) (addr n m : ℕ) {s : Bytes}
    → stored mem addr (n + m) ≡ some s
    → (stored mem addr n ≡ some (take n s)) × (stored mem (addr + n) m ≡ some (drop n s))
unfolding stored
stored-take mem addr zero m {s = s} h =
    let e1 : 0 + m ≡ m = omega arith in
    let e2 : addr ≡ addr + 0 = omega arith in
    (refl, subst (λ a. stored mem a m ≡ some s) e2 (subst (λ n. stored mem addr n ≡ some s) e1 h))
stored-take mem addr (suc n) m {s = []} h =
    let h' : stored mem addr (suc (n + m)) ≡ some [] =
      subst (λ j. stored mem addr j ≡ some []) {x = suc n + m} {y = suc (n + m)} (omega arith) h in
    absurd (ground arith)
stored-take mem addr (suc n) m {s = c ∷ s} h =
    let h' : stored mem addr (suc (n + m)) ≡ some (c ∷ s) =
      subst (λ j. stored mem addr j ≡ some (c ∷ s)) {x = suc n + m} {y = suc (n + m)} (omega arith)
        h in
    let e : suc addr + n ≡ addr + suc n = omega arith in
    ground (arith, stored-take mem (suc addr) n m {s = s}, e)

pub until_nul-absent : (s : Bytes) → has_byte 0 s ≡ false → until_nul s ≡ (s, false)
unfolding until_nul has_byte
until_nul-absent [] h = refl
until_nul-absent (c ∷ s) h = ground (arith, until_nul-absent s)

pub until_nul-here : (s rest : Bytes) → has_byte 0 s ≡ false → until_nul (s ++ 0 ∷ rest) ≡ (s, true)
unfolding until_nul has_byte
until_nul-here [] rest h = refl
until_nul-here (c ∷ s) rest h = ground (arith, until_nul-here s rest)

-- Some of the bytes of a text have no NUL either.
pub has_byte-take : (n : ℕ) (s : Bytes) → has_byte 0 s ≡ false → has_byte 0 (take n s) ≡ false
unfolding has_byte
has_byte-take zero s h = refl
has_byte-take (suc n) [] h = refl
has_byte-take (suc n) (c ∷ s) h = ground (arith, has_byte-take n s)

pub has_byte-drop : (n : ℕ) (s : Bytes) → has_byte 0 s ≡ false → has_byte 0 (drop n s) ≡ false
unfolding has_byte
has_byte-drop zero s h = h
has_byte-drop (suc n) [] h = refl
has_byte-drop (suc n) (c ∷ s) h = ground (arith, has_byte-drop n s)

pub stored-last :
    (mem : ℕ → Option ℕ) (addr n : ℕ) {s : Bytes}
    → stored mem addr (suc n) ≡ some s
    → (c : ℕ) × (mem (addr + n) ≡ some c)
unfolding stored
stored-last mem addr zero h = elim (Option-cases (mem addr)) [
  | inl e ↦ absurd (cc (rw (e, stored) at h))
  | inr (c, e) ↦ (c, simp unary_clauses e)
]
stored-last mem addr (suc n) {s = []} h = ground arith
stored-last mem addr (suc n) {s = c ∷ s} h =
    let e : suc addr + n ≡ addr + suc n = omega arith in
    let rest : stored mem (suc addr) (suc n) ≡ some s = ground arith in
    let (d, m) = stored-last mem (suc addr) n rest in (d, rw (← e) m)

pub length-stored :
    (mem : ℕ → Option ℕ) (addr n : ℕ) {b : Bytes} → stored mem addr n ≡ some b → length b ≡ n
unfolding stored
length-stored mem addr zero {b = b} h = ground arith
length-stored mem addr (suc n) {b = []} h = absurd (ground arith)
length-stored mem addr (suc n) {b = c ∷ b} h =
    ground (arith, length-stored mem (suc addr) n {b = b})

pub stored-head :
    (mem : ℕ → Option ℕ) (addr len : ℕ) {b : Bytes}
    → 1 ≤ len
    → stored mem addr len ≡ some b
    → (c : ℕ) × (mem addr ≡ some c)
unfolding stored
stored-head mem addr zero le h = absurd (omega arith)
stored-head mem addr (suc n) le h = elim (Option-cases (mem addr)) [
  | inl e ↦ absurd (ground arith)
  | inr p ↦ p
]

pub take_front : (n : ℕ) (s t : Bytes) → n ≤ length s → take n (s ++ t) ≡ take n s
take_front zero s t le = refl
take_front (suc n) [] t le = absurd (omega arith)
take_front (suc n) (c ∷ s) t le = ap (◌∷◌ c) (take_front n s t (omega (arith, le)))

pub drop_front : (n : ℕ) (s t : Bytes) → n ≤ length s → drop n (s ++ t) ≡ drop n s ++ t
drop_front zero s t le = refl
drop_front (suc n) [] t le = absurd (omega arith)
drop_front (suc n) (c ∷ s) t le = drop_front n s t (omega (arith, le))

-- Two texts that stand at one address.
pub stored_agree :
    (mem : ℕ → Option ℕ) (addr n m : ℕ) {s t : Bytes}
    → n ≤ m
    → stored mem addr n ≡ some s
    → stored mem addr m ≡ some t
    → s ≡ take n t
stored_agree mem addr n m {t = t} le e f =
    let g : stored mem addr (n + (m - n)) ≡ some t =
      subst (λ j. stored mem addr j ≡ some t) {x = m} {y = n + (m - n)} (omega arith) f in
    cc (stored-take mem addr n (m - n) g).0

-- The front and the rest of a text that is stored.
pub stored_parts :
    (mem : ℕ → Option ℕ) (addr n : ℕ) (body tail : Bytes)
    → n ≤ length body
    → stored mem addr (length body + length tail) ≡ some (body ++ tail)
    → (stored mem addr n ≡ some (take n body))
      × (stored mem (addr + n) (length (drop n body) + length tail) ≡ some (drop n body ++ tail))
stored_parts mem addr n body tail le e =
    let left = length body + length tail - n in
    let g : stored mem addr (n + left) ≡ some (body ++ tail) =
      subst (λ j. stored mem addr j ≡ some (body ++ tail)) {x = length body + length tail}
        {y = n + left} (omega (arith, le)) e in
    let (front, rest) = stored-take mem addr n left g in
    let size : left ≡ length (drop n body) + length tail = omega (arith, le, length-drop n body) in
    (cc (front, take_front n body tail le), cc (rest, drop_front n body tail le, size))
