-- ===== src/Seccomp/Exec.antt =====
-- The interpreter's loop on the rest of the program instead of a counter: every jump goes forward,
-- so the step counter of `evaluate_seccomp_filter` never runs out.
use vhdp.Base.{
  ℕ, zero, suc, ◌+◌, ◌-◌, ◌<◌, List, [], ◌∷◌, some, none, ◌≡◌, ◌⊎◌, inl, inr, refl, ap, ◌∙◌, sym,
  arith, length, get_elem?, drop, Bytes,
}
use vhdp.Seccomp.{Insn, Outcome, returns, goes, step, run}

-- Skip some instructions, then execute.
unfoldable pub exec : Bytes → ℕ → List Insn → ℕ → ℕ
exec mem n [] acc = 0
exec mem (suc n) (ins ∷ rest) acc = exec mem n rest acc
exec mem zero (ins ∷ rest) acc = elim (step mem ins acc) [
  | returns r ↦ r
  | goes n acc' ↦ exec mem n rest acc'
]

exec-drop :
    (mem : Bytes) (n : ℕ) (prog : List Insn) (acc : ℕ)
    → exec mem n prog acc ≡ exec mem 0 (drop n prog) acc
unfolding exec
exec-drop mem zero prog acc = refl
exec-drop mem (suc n) [] acc = refl
exec-drop mem (suc n) (ins ∷ rest) acc = exec-drop mem n rest acc

drop-nil : {A : Type 0} (n : ℕ) → drop {A = A} n [] ≡ []
drop-nil zero = refl
drop-nil (suc n) = refl

drop-drop : {A : Type 0} (n m : ℕ) (xs : List A) → drop n (drop m xs) ≡ drop (m + n) xs
drop-drop n zero xs = ap (λ k. drop k xs) {x = n} (omega arith)
drop-drop n (suc m) [] = rw drop-nil (sym (drop-nil (suc m + n)))
drop-drop n (suc m) (x ∷ xs) =
    drop-drop n m xs ∙ ap (λ k. drop k (x ∷ xs)) {x = suc (m + n)} (omega arith)

at_counter :
    {A : Type 0} (pc : ℕ) (xs : List A)
    → ((get_elem? xs pc ≡ none) × (drop pc xs ≡ []))
      ⊎ ((x : A) × (get_elem? xs pc ≡ some x)
          × (drop pc xs ≡ x ∷ drop (suc pc) xs)
          × (pc < length xs))
at_counter pc [] = inl (refl, drop-nil pc)
at_counter zero (x ∷ xs) = inr (x, refl, refl, omega arith)
at_counter (suc pc) (x ∷ xs) = elim (at_counter pc xs) [
  | inl h ↦ inl h
  | inr (y, e, d, l) ↦ inr (y, e, d, omega arith)
]

module _ (mem : Bytes) (prog : List Insn) where
  after :
      (left pc : ℕ)
      → pc < length prog
      → length prog - pc < suc left
      → (o : Outcome)
      → ((pc' acc : ℕ)
          → length prog - pc' < left
          → run mem prog left pc' acc ≡ exec mem 0 (drop pc' prog) acc)
      → elim o [ returns r ↦ r | goes n acc' ↦ run mem prog left (pc + (1 + n)) acc' ]
        ≡ elim o [ returns r ↦ r | goes n acc' ↦ exec mem n (drop (suc pc) prog) acc' ]
  after left pc l h (returns r) ih = refl
  after left pc l h (goes n acc) ih =
      ih (pc + (1 + n)) acc (omega arith)
      ∙ ap (λ k. exec mem 0 (drop k prog) acc) {x = pc + (1 + n)} (omega arith)
      ∙ ap (λ p. exec mem 0 p acc) (sym (drop-drop n (suc pc) prog))
      ∙ sym (exec-drop mem n (drop (suc pc) prog) acc)

  pub run-exec :
      (left pc acc : ℕ)
      → length prog - pc < left
      → run mem prog left pc acc ≡ exec mem 0 (drop pc prog) acc
  unfolding run exec
  run-exec zero pc acc h = absurd (omega arith)
  run-exec (suc left) pc acc h = elim (at_counter pc prog) [
    | inl (e, d) ↦ rw (run, e, d)
    | inr (ins, e, d, l) ↦ rw (run, e, d) (after left pc l h (step mem ins acc) (run-exec left))
  ]
