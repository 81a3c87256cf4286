-- ===== src/Session/Outcome.antt =====
-- How the state of a finished session and the result that core/session.cpp tells of it agree.
use vhdp.Base.{
  ℕ, Bool, true, false, ◌||◌, not, some, ◌≡◌, refl, arith, inl, inr, Bool-cases, Option-cases,
  subst,
}
use vhdp.Lifecycle.{
  State, created, starting, running, exited, failed, cancelled, is_terminal, can_transition,
  transition,
}
use vhdp.Engine.{ExitReason, ExitResult}
use vhdp.Session.{
  Given, Starter, idle, choosing, creating, checking, launching, launched, rechecking, spawning,
  failing, failed_with, inlining, inlined, thrown, returned, Waiter, absent, waiting, storing,
  ending, stopping, finished, Watchdog, off, sleeping, expired, over, Session, shown, wait,
  is_cancelled,
}
use vhdp.Session.Threads.{
  begin, launch, spawn, with_instance, start_at, wait_at, watch_at, see_created, cancel_created,
  mark_cancelled, cancel_instance, terminal_of, Own, starts_on, waits_on, Other, begins, watches,
  asks, sees_created, cancels_created, marks, cancels_instance, Reach, new, on, by,
}
use vhdp.Session.Coherence.{IsCoherent, Reach-IsCoherent, some-injective}

-- The reasons that go with a terminal state.
abbrev pub told : State → ExitReason → Bool
told exited ExitReason.normal = true
told exited ExitReason.signaled = true
told exited _ = false
told cancelled ExitReason.no_reason = false
told _ _ = true

-- As `told`, where a cancelled session may have no reason yet, and one that is not started has none.
abbrev stored : State → ExitReason → Bool
stored created ExitReason.no_reason = true
stored created _ = false
stored cancelled ExitReason.no_reason = true
stored state r = told state r

abbrev start_stored : Starter → ExitReason → Bool
start_stored (failed_with st) ExitReason.start_failed = true
start_stored (failed_with st) _ = false
start_stored _ _ = true

abbrev WaitStored : Waiter → ExitResult → Type 0
WaitStored (ending r) result = result ≡ r
WaitStored _ result = Unit

abbrev IsSound : {I : Type 0} → Session I → Type 0
IsSound s =
    (stored s.state s.result.reason ≡ true)
    × ((not s.marking || is_cancelled s.state) ≡ true)
    × (is_cancelled s.state ≡ false → start_stored s.starter s.result.reason ≡ true)
    × (is_cancelled s.state ≡ false → WaitStored s.waiter s.result)

module _ {I : Type 0} (g : Given I) where
  start_at-IsSound :
      (pc : Starter) (s t : Session I)
      → s.starter ≡ pc
      → IsCoherent s
      → IsSound s
      → start_at g pc s ≡ some t
      → IsSound t
  unfolding start_at with_instance transition can_transition is_terminal launch spawn
  start_at-IsSound idle s t p c d h = ground arith
  start_at-IsSound choosing s t p c d h = ground arith
  start_at-IsSound creating s t p c d h = ground arith
  start_at-IsSound checking s t p c d h = ground arith
  start_at-IsSound launching s t p c d h = ground arith
  start_at-IsSound launched s t p c d h = ground arith
  start_at-IsSound rechecking s t p c d h = ground arith
  start_at-IsSound spawning s t p c d h = ground arith
  start_at-IsSound (failing st r) s t p c d h = ground arith
  start_at-IsSound (failed_with st) s t p c d h = ground arith
  start_at-IsSound (inlining r) s t p c d h = ground arith
  start_at-IsSound inlined s t p c d h = ground arith
  start_at-IsSound thrown s t p c d h = ground arith
  start_at-IsSound (returned st) s t p c d h = ground arith

  wait_at-IsSound :
      (pc : Waiter) (s t : Session I)
      → s.waiter ≡ pc
      → IsCoherent s
      → IsSound s
      → wait_at g pc s ≡ some t
      → IsSound t
  unfolding wait_at transition can_transition is_terminal terminal_of
  wait_at-IsSound absent s t p c d h = ground arith
  wait_at-IsSound waiting s t p c d h = ground arith
  wait_at-IsSound (storing r) s t p c d h = ground arith
  wait_at-IsSound (ending r) s t p c d h = ground arith
  wait_at-IsSound stopping s t p c d h = ground arith
  wait_at-IsSound finished s t p c d h = ground arith

  begin-IsSound : (s t : Session I) → IsCoherent s → IsSound s → begin g s ≡ some t → IsSound t
  unfolding begin transition can_transition is_terminal
  begin-IsSound s t c d h = ground arith

  watch_at-IsSound :
      (b : Bool) (pc : Watchdog) (s t : Session I)
      → IsSound s
      → watch_at g b pc s ≡ some t
      → IsSound t
  unfolding watch_at
  watch_at-IsSound b off s t d h = ground arith
  watch_at-IsSound b sleeping s t d h = ground arith
  watch_at-IsSound b expired s t d h = ground arith
  watch_at-IsSound b over s t d h = ground arith

  cancel_instance-IsSound : (s t : Session I) → IsSound s → cancel_instance g s ≡ some t → IsSound t
  unfolding cancel_instance
  cancel_instance-IsSound s t d h = elim (Option-cases s.inst) [
    | inl e ↦ absurd (cc (rw (e, cancel_instance) at h))
    | inr (i, e) ↦ elim (Bool-cases s.cancel_requested) [
      | inl f ↦ subst IsSound (some-injective (rw (e, f, cancel_instance) at h)) d
      | inr f ↦ absurd (cc (rw (e, f, cancel_instance) at h))
    ]
  ]

  Own-IsSound : {s t : Session I} → Own g s t → IsCoherent s → IsSound s → IsSound t
  Own-IsSound {s} {t} (starts_on h) c d = start_at-IsSound s.starter s t refl c d h
  Own-IsSound {s} {t} (waits_on h) c d = wait_at-IsSound s.waiter s t refl c d h

  Other-IsSound : {s t : Session I} → Other g s t → IsCoherent s → IsSound s → IsSound t
  unfolding see_created cancel_created mark_cancelled cancel_instance transition can_transition
      is_terminal
  Other-IsSound {s} {t} (begins h) c d = begin-IsSound s t c d h
  Other-IsSound {s} {t} (watches b h) c d = watch_at-IsSound b s.watchdog s t d h
  Other-IsSound {s} {t} (asks h) c d = subst IsSound h d
  Other-IsSound {s} {t} (sees_created h) c d = ground arith
  Other-IsSound {s} {t} (cancels_created h) c d = ground arith
  Other-IsSound {s} {t} (marks h) c d = ground arith
  Other-IsSound {s} {t} (cancels_instance h) c d = cancel_instance-IsSound s t d h

  Reach-IsSound : {n : ℕ} {s : Session I} → Reach g n s → IsSound s
  Reach-IsSound new = (refl, refl, λ _. refl, λ _. tt)
  Reach-IsSound (on r o) = Own-IsSound o (Reach-IsCoherent g r) (Reach-IsSound r)
  Reach-IsSound (by r o) = Other-IsSound o (Reach-IsCoherent g r) (Reach-IsSound r)

shown-told :
    (state : State) (r : ExitResult)
    → stored state r.reason ≡ true
    → told state (shown state r).reason ≡ true
unfolding shown
shown-told created r h = ground arith
shown-told starting r h = ground arith
shown-told running r h = ground arith
shown-told exited r h = ground arith
shown-told failed r h = ground arith
shown-told cancelled r h = ground arith

-- Whatever the threads of a session do, the result that wait gives of a terminal session agrees with
-- its state: a session that has exited ended by itself or by a signal, and one that is cancelled is
-- never without a reason.
pub wait-told :
    {I : Type 0} (g : Given I) {n : ℕ} {s : Session I} {r : ExitResult}
    → Reach g n s
    → (wait s).0 ≡ some r
    → told s.state r.reason ≡ true
unfolding wait
wait-told g {s} {r} reach h =
    let sound = Reach-IsSound g reach in
    let told_now = shown-told s.state s.result sound.0 in ground arith
