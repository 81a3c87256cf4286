-- ===== src/Seccomp/Ranges.antt =====
-- The ranges that the allowed numbers are compressed into hold exactly the allowed numbers.
use vhdp.Base.{
  ℕ, ◌+◌, ◌≤◌, ◌<◌, ◌^◌, Bool, false, ◌&&◌, ◌||◌, List, [], ◌∷◌, Option, some, none, ◌≡◌, refl,
  arith, leb, ◌==◌, All, Bool-cases, inl, inr,
}
use vhdp.Base.Int.{ℤ, pos, negsuc, leb_ℤ, eq_ℤ}
use vhdp.Seccomp.{insert_sorted, sort, unique, runs}

abbrev pub is_number : ℕ → ℤ → Bool
is_number n (pos m) = m == n
is_number n (negsuc _) = false

-- `n` is one of the numbers.
unfoldable pub contains : ℕ → List ℤ → Bool
contains n [] = false
contains n (x ∷ xs) = is_number n x || contains n xs

-- `n` lies in one of the ranges.
unfoldable pub in_ranges : ℕ → List (ℕ × ℕ) → Bool
in_ranges n [] = false
in_ranges n ((lo, hi) ∷ rs) = (leb lo n && leb n hi) || in_ranges n rs

contains-insert_sorted :
    (n : ℕ) (x : ℤ) (ys : List ℤ)
    → contains n (insert_sorted x ys) ≡ (is_number n x || contains n ys)
unfolding contains insert_sorted
contains-insert_sorted n x [] = refl
contains-insert_sorted n x (y ∷ ys) = ground (arith, contains-insert_sorted n x ys)

contains-sort : (n : ℕ) (xs : List ℤ) → contains n (sort xs) ≡ contains n xs
unfolding contains sort
contains-sort n [] = refl
contains-sort n (x ∷ xs) = rw (contains-insert_sorted n x (sort xs), contains-sort n xs)

contains-unique : (n : ℕ) (xs : List ℤ) → contains n (unique xs) ≡ contains n xs
unfolding contains unique
contains-unique n [] = refl
contains-unique n (x ∷ []) = refl
contains-unique n (x ∷ y ∷ ys) = ground (arith, contains-unique n (y ∷ ys))

abbrev in_range : ℕ → Option (ℕ × ℕ) → Bool
in_range n none = false
in_range n (some (lo, hi)) = leb lo n && leb n hi

abbrev IsRange : Option (ℕ × ℕ) → Type 0
IsRange none = Unit
IsRange (some (lo, hi)) = lo ≤ hi

in_ranges-runs :
    (n : ℕ) (range : Option (ℕ × ℕ)) (xs : List ℤ)
    → IsRange range
    → in_ranges n (runs range xs) ≡ (in_range n range || contains n xs)
unfolding in_ranges runs contains
in_ranges-runs n none [] h = refl
in_ranges-runs n (some (lo, hi)) [] h = ground arith
in_ranges-runs n none (negsuc x ∷ xs) h = in_ranges-runs n none xs h
in_ranges-runs n (some (lo, hi)) (negsuc x ∷ xs) h = ground (arith, in_ranges-runs n none xs tt)
in_ranges-runs n none (pos x ∷ xs) h =
    ground (arith, in_ranges-runs n (some (x, x)) xs (omega arith))
in_ranges-runs n (some (lo, hi)) (pos x ∷ xs) h = elim (Bool-cases (x == hi + 1)) [
  | inl e ↦ rw e (ground (arith, in_ranges-runs n (some (lo, x)) xs (ground arith)))
  | inr e ↦ rw e (ground (arith, in_ranges-runs n (some (x, x)) xs (omega arith)))
]

pub in_ranges-compressed :
    (n : ℕ) (xs : List ℤ) → in_ranges n (runs none (unique (sort xs))) ≡ contains n xs
in_ranges-compressed n xs =
    rw
      (in_ranges-runs n none (unique (sort xs)) tt, contains-unique n (sort xs), contains-sort n xs)

-- The bounds of the ranges are numbers of the list, so they fit where those do.
abbrev pub Fits : ℤ → Type 0
Fits (pos n) = n < 2 ^ 32
Fits (negsuc _) = Unit

abbrev pub FitsRange : ℕ × ℕ → Type 0
FitsRange (lo, hi) = (lo < 2 ^ 32) × (hi < 2 ^ 32)

abbrev FitsOpen : Option (ℕ × ℕ) → Type 0
FitsOpen none = Unit
FitsOpen (some r) = FitsRange r

insert_sorted-Fits : (x : ℤ) (ys : List ℤ) → Fits x → All Fits ys → All Fits (insert_sorted x ys)
unfolding insert_sorted
insert_sorted-Fits x [] h k = (h, tt)
insert_sorted-Fits x (y ∷ ys) h k = elim (Bool-cases (leb_ℤ x y)) [
  | inl e ↦ rw e (h, k)
  | inr e ↦ rw e (k.0, insert_sorted-Fits x ys h k.1)
]

sort-Fits : (xs : List ℤ) → All Fits xs → All Fits (sort xs)
unfolding sort
sort-Fits [] h = tt
sort-Fits (x ∷ xs) h = insert_sorted-Fits x (sort xs) h.0 (sort-Fits xs h.1)

unique-Fits : (xs : List ℤ) → All Fits xs → All Fits (unique xs)
unfolding unique
unique-Fits [] h = tt
unique-Fits (x ∷ []) h = h
unique-Fits (x ∷ y ∷ ys) h = elim (Bool-cases (eq_ℤ x y)) [
  | inl e ↦ rw e (unique-Fits (y ∷ ys) h.1)
  | inr e ↦ rw e (h.0, unique-Fits (y ∷ ys) h.1)
]

runs-FitsRange :
    (range : Option (ℕ × ℕ)) (xs : List ℤ)
    → FitsOpen range
    → All Fits xs
    → All FitsRange (runs range xs)
unfolding runs
runs-FitsRange none [] h k = tt
runs-FitsRange (some r) [] h k = (h, tt)
runs-FitsRange none (negsuc x ∷ xs) h k = runs-FitsRange none xs tt k.1
runs-FitsRange (some r) (negsuc x ∷ xs) h k = (h, runs-FitsRange none xs tt k.1)
runs-FitsRange none (pos x ∷ xs) h k = runs-FitsRange (some (x, x)) xs (k.0, k.0) k.1
runs-FitsRange (some (lo, hi)) (pos x ∷ xs) h k = elim (Bool-cases (x == hi + 1)) [
  | inl e ↦ rw e (runs-FitsRange (some (lo, x)) xs (h.0, k.0) k.1)
  | inr e ↦ rw e (h, runs-FitsRange (some (x, x)) xs (k.0, k.0) k.1)
]

pub compressed-FitsRange :
    (xs : List ℤ) → All Fits xs → All FitsRange (runs none (unique (sort xs)))
compressed-FitsRange xs h =
    runs-FitsRange none (unique (sort xs)) tt (unique-Fits (sort xs) (sort-Fits xs h))
