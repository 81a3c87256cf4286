-- ===== src/Syscalls/Index.antt =====
-- What is looked up by number.
use vhdp.Base.{
  ℕ, zero, suc, ◌<◌, true, false, List, [], ◌∷◌, ◌++◌, Option, some, none, if◌then◌else◌, get_elem?,
  length, ltb, leb, ◌==◌, ◌≡◌, refl, ap, ◌∙◌, arith, append_assoc, Option-cases, Bool-cases, inl,
  inr, length-append, if-elim, subst, ltb→lt, ◌+◌,
}
use vhdp.Base.Int.{ℤ, pos, negsuc}
use vhdp.Syscalls.{SyscallInfo, max_nr, filled, set_at, index_from, lookup_syscall}

get_elem?-filled : {A : Type 0} (n i : ℕ) (a : A) → i < n → get_elem? (filled n a) i ≡ some a
unfolding filled
get_elem?-filled zero i a h = absurd (omega arith)
get_elem?-filled (suc n) zero a h = refl
get_elem?-filled (suc n) (suc i) a h = get_elem?-filled n i a (omega arith)

get_elem?-set_at :
    {A : Type 0} (xs : List A) (i j : ℕ) (a x : A)
    → get_elem? xs j ≡ some x
    → get_elem? (set_at xs i a) j ≡ some (if i == j then a else x)
unfolding set_at
get_elem?-set_at [] i j a x h = absurd (cc h)
get_elem?-set_at (y ∷ xs) zero zero a x h = refl
get_elem?-set_at (y ∷ xs) zero (suc j) a x h =
    let apart : (zero == suc j) ≡ false = ground arith in rw apart h
get_elem?-set_at (y ∷ xs) (suc i) zero a x h =
    let apart : (suc i == zero) ≡ false = ground arith in rw apart h
get_elem?-set_at (y ∷ xs) (suc i) (suc j) a x h =
    let same : (suc i == suc j) ≡ (i == j) = ground arith in rw same (get_elem?-set_at xs i j a x h)

get_elem?-append :
    {A : Type 0} (xs : List A) (x : A) (ys : List A) → get_elem? (xs ++ x ∷ ys) (length xs) ≡ some x
get_elem?-append [] x ys = refl
get_elem?-append (y ∷ xs) x ys = get_elem?-append xs x ys

-- An index, or what was there before.
unfoldable or_else : Option ℕ → Option ℕ → Option ℕ
or_else none o = o
or_else (some j) o = some j

one_more : (m : ℕ) → m + 1 ≡ suc m
one_more m = omega arith

module _ {H : Type 0} (n : ℕ) where
  -- The last entry with the number `n`.
  unfoldable pub last_with : List (SyscallInfo H) → Option (SyscallInfo H)
  last_with [] = none
  last_with (e ∷ table) = elim (last_with table) [
    | some x ↦ some x
    | none ↦ if e.nr == n then some e else none
  ]

  -- Its index, where the first entry has the index `i`.
  unfoldable last_index : ℕ → List (SyscallInfo H) → Option ℕ
  last_index i [] = none
  last_index i (e ∷ table) = elim (last_index (suc i) table) [
    | some j ↦ some j
    | none ↦ if e.nr == n then some i else none
  ]

  index_from-last_index :
      (i : ℕ) (table : List (SyscallInfo H)) (idx : List (Option ℕ)) (o : Option ℕ)
      → n < max_nr
      → get_elem? idx n ≡ some o
      → get_elem? (index_from i table idx) n ≡ some (or_else (last_index i table) o)
  unfolding index_from last_index or_else
  index_from-last_index i [] idx o l h = h
  index_from-last_index i (e ∷ table) idx o l h =
      let here : get_elem? (if ltb e.nr max_nr then set_at idx e.nr (some i) else idx) n
          ≡ some (if e.nr == n then some i else o) =
        if-elim (λ xs. get_elem? xs n ≡ some (if e.nr == n then some i else o)) (ltb e.nr max_nr)
          (λ _. get_elem?-set_at idx e.nr n (some i) o h)
          (λ f. let apart : (e.nr == n) ≡ false = ground arith in rw apart h) in
      index_from-last_index (suc i) table _ (if e.nr == n then some i else o) l here
      ∙ elim (Option-cases (last_index (suc i) table)) [
        | inr (j, q) ↦ rw q refl
        | inl q ↦ rw q (elim (Bool-cases (e.nr == n)) [ inl d ↦ rw d refl | inr d ↦ rw d refl ])
      ]

  -- An index and the entry at it, or neither.
  data Found (whole : List (SyscallInfo H)) : Option ℕ → Option (SyscallInfo H) → Type 0 where
    nowhere : Found whole none none
    somewhere :
        (j : ℕ) (x : SyscallInfo H) → get_elem? whole j ≡ some x → Found whole (some j) (some x)

  Found-cons :
      (whole : List (SyscallInfo H)) (i : ℕ) (e : SyscallInfo H) {a : Option ℕ}
      {b : Option (SyscallInfo H)}
      → get_elem? whole i ≡ some e
      → Found whole a b
      → Found whole
          (elim a as (λ _. Option ℕ) [
            | some j ↦ some j
            | none ↦ if e.nr == n then some i else none
          ])
          (elim b as (λ _. Option (SyscallInfo H)) [
            | some x ↦ some x
            | none ↦ if e.nr == n then some e else none
          ])
  Found-cons whole i e h (somewhere j x q) = somewhere j x q
  Found-cons whole i e h nowhere = elim (Bool-cases (e.nr == n)) [
    | inl d ↦ rw d (somewhere i e h)
    | inr d ↦ rw d nowhere
  ]

  last-Found :
      (front table : List (SyscallInfo H))
      → Found (front ++ table) (last_index (length front) table) (last_with table)
  unfolding last_index last_with
  last-Found front [] = nowhere
  last-Found front (e ∷ table) =
      Found-cons (front ++ e ∷ table) (length front) e (get_elem?-append front e table) (
        subst (λ k. Found (front ++ e ∷ table) k (last_with table))
          (ap (λ k. last_index k table) (length-append front (e ∷ []) ∙ one_more (length front)))
          (subst (λ w. Found w (last_index (length (front ++ e ∷ [])) table) (last_with table))
            (append_assoc front (e ∷ []) table) (last-Found (front ++ e ∷ []) table)))

  looked_up :
      {whole : List (SyscallInfo H)} {a : Option ℕ} {b : Option (SyscallInfo H)}
      → Found whole a b
      → elim (some (or_else a none)) as (λ _. Option (SyscallInfo H)) [
        | none ↦ none
        | some none ↦ none
        | some (some i) ↦ get_elem? whole i
      ]
        ≡ b
  unfolding or_else
  looked_up nowhere = refl
  looked_up (somewhere j x q) = q

-- Looking up a number finds the last entry of the table with that number, and nothing if there is none
-- or if the number is negative or 1024 or larger. This is so of every table.
pub lookup_syscall-last_with :
    {H : Type 0} (table : List (SyscallInfo H)) (nr : ℤ)
    → lookup_syscall table nr ≡ (elim nr as (λ _. Option (SyscallInfo H)) [
      | negsuc _ ↦ none
      | pos n ↦ if ltb n max_nr then last_with n table else none
    ])
unfolding lookup_syscall
lookup_syscall-last_with table (negsuc _) = refl
lookup_syscall-last_with table (pos n) = elim (Bool-cases (leb max_nr n)) [
  | inl l ↦ let over : ltb n max_nr ≡ false = ground arith in rw (l, over) refl
  | inr l ↦
      let under : ltb n max_nr ≡ true = ground arith in
      rw
        (
          l,
          under,
          index_from-last_index n 0 table (filled max_nr none) none (ltb→lt n max_nr under)
              (get_elem?-filled max_nr n none (ltb→lt n max_nr under)),
        )
        (looked_up n (last-Found n [] table))
]
