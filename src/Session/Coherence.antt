-- ===== src/Session/Coherence.antt =====
-- How the state of a session of core/session.cpp and the places of its threads fit together.
use vhdp.Base.{
  ◌||◌, subst, ℕ, Bool, true, false, ◌&&◌, Option, some, none, ◌≡◌, refl, arith, inl, inr,
  Option-cases,
}
use vhdp.Lifecycle.{
  State, created, starting, running, cancelled, is_terminal, can_transition, transition,
}
use vhdp.Session.{
  Watchdog, off, sleeping, expired, over, Given, Starter, idle, choosing, creating, checking,
  launching, launched, rechecking, spawning, failing, failed_with, inlining, inlined, thrown,
  returned, Waiter, absent, waiting, storing, ending, stopping, finished, Session,
}
use vhdp.Session.Threads.{
  begin, launch, spawn, with_instance, start_at, wait_at, watch_at, see_created, cancel_created,
  mark_cancelled, cancel_instance, terminal_of, Own, starts_on, waits_on, Other, begins, watches,
  asks, sees_created, cancels_created, marks, cancels_instance, Reach, new, on, by,
}

abbrev is_absent : Waiter → Bool
is_absent absent = true
is_absent _ = false

-- A session that starts may be cancelled.
abbrev is_starting : State → Bool
is_starting starting = true
is_starting cancelled = true
is_starting _ = false

-- As `is_running`, where the session may be cancelled.
abbrev is_going : State → Bool
is_going running = true
is_going cancelled = true
is_going _ = false

abbrev is_unstarted : State → Bool
is_unstarted created = true
is_unstarted cancelled = true
is_unstarted _ = false

abbrev has_inst : {I : Type 0} → Option I → Bool
has_inst none = false
has_inst (some _) = true

-- What the state is while the waiter is at a place, behind `start`.
abbrev waiter_fits : Waiter → State → Bool → Bool
waiter_fits absent state inst = is_terminal state
waiter_fits waiting state inst = is_going state && inst
waiter_fits (storing r) state inst = is_going state
waiter_fits (ending r) state inst = is_going state
waiter_fits stopping state inst = is_terminal state
waiter_fits finished state inst = is_terminal state

abbrev fits : Starter → Waiter → State → Bool → Bool
fits idle w state inst = is_absent w && is_unstarted state
fits choosing w state inst = is_absent w && is_starting state
fits creating w state inst = is_absent w && is_starting state
fits (failing st r) w state inst = is_absent w && is_starting state
fits (failed_with st) w state inst = is_absent w && is_starting state
fits checking w state inst = is_absent w && is_starting state && inst
fits launching w state inst = is_absent w && is_starting state && inst
fits launched w state inst = is_absent w && is_starting state && inst
fits rechecking w state inst = is_absent w && is_going state && inst
fits spawning w state inst = is_absent w && is_going state && inst
fits (inlining r) w state inst = is_absent w && is_going state
fits inlined w state inst = is_absent w && is_going state
fits thrown w state inst = is_absent w && (is_starting state || is_going state)
fits (returned st) w state inst = waiter_fits w state inst

abbrev pub IsCoherent : {I : Type 0} → Session I → Type 0
IsCoherent s = fits s.starter s.waiter s.state (has_inst s.inst) ≡ true

pub some-injective : {A : Type 0} {a b : A} → some a ≡ some b → a ≡ b
some-injective h = cc

module _ {I : Type 0} (g : Given I) where
  spawn-IsCoherent :
      (s : Session I) (i : I)
      → s.waiter ≡ absent
      → is_going s.state ≡ true
      → s.inst ≡ some i
      → IsCoherent (spawn g s i)
  unfolding spawn is_terminal
  spawn-IsCoherent s i w e f = ground arith

  -- A place of `start` that needs an instance has one.
  start_at-instance :
      (P : Session I → Type 0) (pc : Starter) (s t : Session I)
      → (start_at g pc s ≡ elim s.inst [ none ↦ none | some i ↦ with_instance g pc s i ])
      → start_at g pc s ≡ some t
      → ((i : I) → s.inst ≡ some i → with_instance g pc s i ≡ some t → P t)
      → P t
  start_at-instance P pc s t same h go = elim (Option-cases s.inst) [
    | inl e ↦ absurd (ground arith)
    | inr (i, e) ↦ go i e (ground arith)
  ]

  launch-IsCoherent :
      (s : Session I) (i : I)
      → s.waiter ≡ absent
      → is_starting s.state ≡ true
      → IsCoherent (launch g s i)
  unfolding launch
  launch-IsCoherent s i w e = ground arith

  start_at-IsCoherent :
      (pc : Starter) (s t : Session I)
      → s.starter ≡ pc
      → IsCoherent s
      → start_at g pc s ≡ some t
      → IsCoherent t
  unfolding start_at with_instance transition can_transition is_terminal
  start_at-IsCoherent idle s t p c h = ground arith
  start_at-IsCoherent choosing s t p c h = ground arith
  start_at-IsCoherent creating s t p c h = ground arith
  start_at-IsCoherent checking s t p c h = ground arith
  start_at-IsCoherent launching s t p c h =
      start_at-instance IsCoherent launching s t refl h (λ i e f.
        subst IsCoherent (some-injective f) (launch-IsCoherent s i (ground arith) (ground arith)))
  start_at-IsCoherent launched s t p c h = ground arith
  start_at-IsCoherent rechecking s t p c h = ground arith
  start_at-IsCoherent spawning s t p c h =
      start_at-instance IsCoherent spawning s t refl h (λ i e f.
        subst IsCoherent (some-injective f) (spawn-IsCoherent s i (ground arith) (ground arith) e))
  start_at-IsCoherent (failing st r) s t p c h = ground arith
  start_at-IsCoherent (failed_with st) s t p c h = ground arith
  start_at-IsCoherent (inlining r) s t p c h = ground arith
  start_at-IsCoherent inlined s t p c h = ground arith
  start_at-IsCoherent thrown s t p c h = ground arith
  start_at-IsCoherent (returned st) s t p c h = ground arith

  wait_at-IsCoherent :
      (pc : Waiter) (s t : Session I)
      → s.waiter ≡ pc
      → IsCoherent s
      → wait_at g pc s ≡ some t
      → IsCoherent t
  unfolding wait_at transition can_transition is_terminal terminal_of
  wait_at-IsCoherent absent s t p c h = ground arith
  wait_at-IsCoherent waiting s t p c h = ground arith
  wait_at-IsCoherent (storing r) s t p c h = ground arith
  wait_at-IsCoherent (ending r) s t p c h = ground arith
  wait_at-IsCoherent stopping s t p c h = ground arith
  wait_at-IsCoherent finished s t p c h = ground arith

  Own-IsCoherent : {s t : Session I} → Own g s t → IsCoherent s → IsCoherent t
  Own-IsCoherent {s} {t} (starts_on h) c = start_at-IsCoherent s.starter s t refl c h
  Own-IsCoherent {s} {t} (waits_on h) c = wait_at-IsCoherent s.waiter s t refl c h

  begin-IsCoherent : (s t : Session I) → IsCoherent s → begin g s ≡ some t → IsCoherent t
  unfolding begin transition can_transition is_terminal
  begin-IsCoherent s t c h = ground arith

  watch_at-IsCoherent :
      (b : Bool) (pc : Watchdog) (s t : Session I)
      → IsCoherent s
      → watch_at g b pc s ≡ some t
      → IsCoherent t
  unfolding watch_at
  watch_at-IsCoherent b off s t c h = ground arith
  watch_at-IsCoherent b sleeping s t c h = ground arith
  watch_at-IsCoherent b expired s t c h = ground arith
  watch_at-IsCoherent b over s t c h = ground arith

  Other-IsCoherent : {s t : Session I} → Other g s t → IsCoherent s → IsCoherent t
  unfolding see_created cancel_created mark_cancelled cancel_instance transition can_transition
      is_terminal
  Other-IsCoherent {s} {t} (begins h) c = begin-IsCoherent s t c h
  Other-IsCoherent {s} {t} (watches b h) c = watch_at-IsCoherent b s.watchdog s t c h
  Other-IsCoherent {s} {t} (asks h) c = subst IsCoherent h c
  Other-IsCoherent {s} {t} (sees_created h) c = ground arith
  Other-IsCoherent {s} {t} (cancels_created h) c = ground arith
  Other-IsCoherent {s} {t} (marks h) c = ground arith
  Other-IsCoherent {s} {t} (cancels_instance h) c = ground arith

  pub Reach-IsCoherent : {n : ℕ} {s : Session I} → Reach g n s → IsCoherent s
  Reach-IsCoherent new = refl
  Reach-IsCoherent (on r o) = Own-IsCoherent o (Reach-IsCoherent r)
  Reach-IsCoherent (by r o) = Other-IsCoherent o (Reach-IsCoherent r)
