-- ===== src/Lifecycle/Runs.antt =====
-- What any sequence of transition requests can do.
use vhdp.Base.{
  subst, suc, ℕ, ◌+◌, ◌≤◌, true, false, List, [], ◌∷◌, ◌≡◌, ◌↔◌, ◌≢◌, ◌⊎◌, inl, inr, refl, arith,
  Bool-cases, if◌then◌else◌,
}
use vhdp.Status.{ok, invalid_state}
use vhdp.Lifecycle.{
  State, created, starting, running, exited, failed, cancelled, is_terminal, can_transition,
  transition,
}

-- The arrows of the diagram that heads core/lifecycle.hpp.
pub data Arrow : State → State → Type 0 where
  start : Arrow created starting
  cancel_before_start : Arrow created cancelled
  exec_ok : Arrow starting running
  exec_failed : Arrow starting failed
  cancel_starting : Arrow starting cancelled
  guest_exit : Arrow running exited
  cancel_running : Arrow running cancelled
  supervisor_failure : Arrow running failed

Arrow-of : (s to : State) → can_transition s to ≡ true → Arrow s to
unfolding can_transition
Arrow-of created starting h = start
Arrow-of created cancelled h = cancel_before_start
Arrow-of starting running h = exec_ok
Arrow-of starting failed h = exec_failed
Arrow-of starting cancelled h = cancel_starting
Arrow-of running exited h = guest_exit
Arrow-of running cancelled h = cancel_running
Arrow-of running failed h = supervisor_failure
Arrow-of _ _ h = cc

Arrow-can_transition : {s to : State} → Arrow s to → can_transition s to ≡ true
unfolding can_transition
Arrow-can_transition start = refl
Arrow-can_transition cancel_before_start = refl
Arrow-can_transition exec_ok = refl
Arrow-can_transition exec_failed = refl
Arrow-can_transition cancel_starting = refl
Arrow-can_transition guest_exit = refl
Arrow-can_transition cancel_running = refl
Arrow-can_transition supervisor_failure = refl

-- A request is accepted exactly when the diagram has its arrow; then the state is the requested
-- one. A refused request is answered by invalid_state and changes nothing.
pub transition-Arrow :
    (s to : State)
    → (((transition s to).0.code ≡ ok) ↔ Arrow s to)
      × (((transition s to).0.code ≡ ok) → (transition s to).1 ≡ to)
      × ((transition s to).0.code ≢ ok
          → ((transition s to).0.code ≡ invalid_state) × ((transition s to).1 ≡ s))
unfolding transition
transition-Arrow s to = elim (Bool-cases (can_transition s to)) [
  | inl e ↦ rw e ((λ _. Arrow-of s to e, λ _. refl), λ _. refl, λ n. absurd (n refl))
  | inr e ↦ rw e ((λ p. cc, λ a. cc (Arrow-can_transition a)), λ p. cc, λ _. (refl, refl))
]

-- The requests of all threads, in the order in which the mutex admits them.
unfoldable pub run : State → List State → State
run s [] = s
run s (to ∷ requests) = run (transition s to).1 requests

-- How many of the requests changed the state.
unfoldable pub changes : State → List State → ℕ
changes s [] = 0
changes s (to ∷ requests) =
    (if can_transition s to then 1 else 0) + changes (transition s to).1 requests

-- How many changes are left at most.
abbrev rank : State → ℕ
rank created = 3
rank starting = 2
rank running = 1
rank _ = 0

-- Where a request leads, with the rank of the new state.
request-cases :
    (s to : State)
    → ((can_transition s to ≡ true) × ((transition s to).1 ≡ to) × (suc (rank to) ≤ rank s))
      ⊎ ((can_transition s to ≡ false) × ((transition s to).1 ≡ s))
unfolding transition
request-cases s to = elim (Bool-cases (can_transition s to)) [
  | inl e ↦ inl (e, rw e, falls (Arrow-of s to e))
  | inr e ↦ inr (e, rw e)
]
  where
    falls : {a b : State} → Arrow a b → suc (rank b) ≤ rank a
    falls start = omega arith
    falls cancel_before_start = omega arith
    falls exec_ok = omega arith
    falls exec_failed = omega arith
    falls cancel_starting = omega arith
    falls guest_exit = omega arith
    falls cancel_running = omega arith
    falls supervisor_failure = omega arith

changes-le : (s : State) (requests : List State) → changes s requests ≤ rank s
unfolding changes
changes-le s [] = omega arith
changes-le s (to ∷ requests) = elim (request-cases s to) [
  | inl (e, t, f) ↦ rw (e, t) (omega (arith, f, changes-le to requests))
  | inr (e, t) ↦ rw (e, t) (omega (arith, changes-le s requests))
]

terminal_stuck : (s to : State) → is_terminal s ≡ true → (transition s to).1 ≡ s
unfolding transition is_terminal
terminal_stuck created to h = cc
terminal_stuck starting to h = cc
terminal_stuck running to h = cc
terminal_stuck exited to h = refl
terminal_stuck failed to h = refl
terminal_stuck cancelled to h = refl

-- No requests, from however many threads, leave a terminal state, and the state of a session
-- changes three times at most.
pub run_terminal :
    (s : State) (requests : List State)
    → (is_terminal s ≡ true → run s requests ≡ s) × (changes created requests ≤ 3)
unfolding run
run_terminal s [] = (λ _. refl, changes-le created [])
run_terminal s (to ∷ requests) = (
  λ h. rw (terminal_stuck s to h) ((run_terminal s requests).0 h),
  changes-le created (to ∷ requests),
)

-- How many changes lead from a state to `exited`, if any do.
abbrev ToExited : State → ℕ → Type 0
ToExited failed n = ⊥
ToExited cancelled n = ⊥
ToExited s n = n ≡ rank s

ToExited-back : {s to : State} (n : ℕ) → Arrow s to → ToExited to n → ToExited s (1 + n)
ToExited-back n start h = omega arith
ToExited-back n cancel_before_start h = absurd h
ToExited-back n exec_ok h = omega arith
ToExited-back n exec_failed h = absurd h
ToExited-back n cancel_starting h = absurd h
ToExited-back n guest_exit h = omega arith
ToExited-back n cancel_running h = absurd h
ToExited-back n supervisor_failure h = absurd h

run-ToExited :
    (s : State) (requests : List State) → run s requests ≡ exited → ToExited s (changes s requests)
unfolding run changes
run-ToExited created [] e = cc
run-ToExited starting [] e = cc
run-ToExited running [] e = cc
run-ToExited exited [] e = refl
run-ToExited failed [] e = cc
run-ToExited cancelled [] e = cc
run-ToExited s (to ∷ requests) e = elim (request-cases s to) [
  | inl (c, t, f) ↦
      rw (c, t)
        (ToExited-back (changes to requests) (Arrow-of s to c)
          (run-ToExited to requests (rw (← t) e)))
  | inr (c, t) ↦
      rw (c, t)
        (subst (ToExited s) {x = changes s requests} (omega arith)
          (run-ToExited s requests (rw (← t) e)))
]

-- A new session that has exited went through both `starting` and `running`: its state has changed
-- exactly three times.
pub exited_after_running :
    (requests : List State) → run created requests ≡ exited → changes created requests ≡ 3
exited_after_running requests e = run-ToExited created requests e
