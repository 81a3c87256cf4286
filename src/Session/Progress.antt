-- ===== src/Session/Progress.antt =====
-- The threads of core/session.cpp always bring a session that has been started to its end.
use vhdp.Base.{
  ℕ, suc, ◌+◌, ◌≤◌, Bool, true, false, some, none, ◌≡◌, ◌≢◌, refl, arith, inl, inr, Bool-cases,
  Option-cases, subst,
}
use vhdp.Status.{Status}
use vhdp.Lifecycle.{created, is_terminal, can_transition, transition}
use vhdp.Session.{
  Given, Starter, idle, choosing, creating, checking, launching, launched, rechecking, spawning,
  failing, failed_with, inlining, inlined, thrown, returned, Waiter, absent, waiting, storing,
  ending, stopping, finished, Watchdog, off, sleeping, expired, over, Session,
}
use vhdp.Session.Threads.{
  begin, launch, spawn, with_instance, start_at, wait_at, watch_at, see_created, cancel_created,
  mark_cancelled, cancel_instance, Own, starts_on, waits_on, Other, begins, watches, asks,
  sees_created, cancels_created, marks, cancels_instance, Reach, new, on, by,
}
use vhdp.Session.Coherence.{some-injective, IsCoherent, Reach-IsCoherent}

-- How many steps a thread has left at most.
abbrev start_rank : Starter → ℕ
start_rank idle = 11
start_rank choosing = 11
start_rank creating = 10
start_rank checking = 9
start_rank launching = 8
start_rank launched = 7
start_rank rechecking = 6
start_rank spawning = 5
start_rank (failing st r) = 2
start_rank (failed_with st) = 1
start_rank (inlining r) = 2
start_rank inlined = 1
start_rank thrown = 0
start_rank (returned st) = 0

abbrev wait_rank : Waiter → ℕ
wait_rank absent = 0
wait_rank waiting = 4
wait_rank (storing r) = 3
wait_rank (ending r) = 2
wait_rank stopping = 1
wait_rank finished = 0

abbrev rank : {I : Type 0} → Session I → ℕ
rank s = start_rank s.starter + wait_rank s.waiter

module _ {I : Type 0} (g : Given I) where
  waits :
      (pc : Waiter) (s : Session I) (st : Status)
      → s.waiter ≡ pc
      → s.starter ≡ returned st
      → IsCoherent s
      → is_terminal s.state ≡ false
      → wait_at g pc s ≢ none
  unfolding is_terminal wait_at
  waits absent s st p q c open_ e = ground arith
  waits waiting s st p q c open_ e = ground arith
  waits (storing r) s st p q c open_ e = ground arith
  waits (ending r) s st p q c open_ e = ground arith
  waits stopping s st p q c open_ e = ground arith
  waits finished s st p q c open_ e = ground arith

  -- Where the threads of a started session stand still, it is at its end.
  stands :
      (pc : Starter) (s : Session I)
      → s.starter ≡ pc
      → IsCoherent s
      → is_terminal s.state ≡ false
      → s.state ≢ created
      → s.starter ≢ thrown
      → start_at g pc s ≡ none
      → wait_at g s.waiter s ≢ none
  unfolding is_terminal start_at with_instance
  stands idle s p c open_ started no_throw e f = ground arith
  stands choosing s p c open_ started no_throw e f = ground arith
  stands creating s p c open_ started no_throw e f = ground arith
  stands checking s p c open_ started no_throw e f = ground arith
  stands launching s p c open_ started no_throw e f = ground arith
  stands launched s p c open_ started no_throw e f = ground arith
  stands rechecking s p c open_ started no_throw e f = ground arith
  stands spawning s p c open_ started no_throw e f = ground arith
  stands (failing st r) s p c open_ started no_throw e f = ground arith
  stands (failed_with st) s p c open_ started no_throw e f = ground arith
  stands (inlining r) s p c open_ started no_throw e f = ground arith
  stands inlined s p c open_ started no_throw e f = ground arith
  stands thrown s p c open_ started no_throw e f = absurd (no_throw p)
  stands (returned st) s p c open_ started no_throw e f = waits s.waiter s st refl p c open_ f

  start_at-rank :
      (pc : Starter) (s t : Session I)
      → s.starter ≡ pc
      → IsCoherent s
      → start_at g pc s ≡ some t
      → suc (rank t) ≤ rank s
  unfolding start_at with_instance is_terminal spawn launch
  start_at-rank idle s t p c h = ground arith
  start_at-rank choosing s t p c h = ground arith
  start_at-rank creating s t p c h = ground arith
  start_at-rank checking s t p c h = ground arith
  start_at-rank launching s t p c h = ground arith
  start_at-rank launched s t p c h = ground arith
  start_at-rank rechecking s t p c h = ground arith
  start_at-rank spawning s t p c h = ground arith
  start_at-rank (failing st r) s t p c h = ground arith
  start_at-rank (failed_with st) s t p c h = ground arith
  start_at-rank (inlining r) s t p c h = ground arith
  start_at-rank inlined s t p c h = ground arith
  start_at-rank thrown s t p c h = ground arith
  start_at-rank (returned st) s t p c h = ground arith

  wait_at-rank :
      (pc : Waiter) (s t : Session I)
      → s.waiter ≡ pc
      → wait_at g pc s ≡ some t
      → suc (rank t) ≤ rank s
  unfolding wait_at
  wait_at-rank absent s t p h = ground arith
  wait_at-rank waiting s t p h = ground arith
  wait_at-rank (storing r) s t p h = ground arith
  wait_at-rank (ending r) s t p h = ground arith
  wait_at-rank stopping s t p h = ground arith
  wait_at-rank finished s t p h = ground arith

  Own-rank : {s t : Session I} → Own g s t → IsCoherent s → suc (rank t) ≤ rank s
  Own-rank {s} {t} (starts_on h) c = start_at-rank s.starter s t refl c h
  Own-rank {s} {t} (waits_on h) c = wait_at-rank s.waiter s t refl h

  begin-rank : (s t : Session I) → IsCoherent s → begin g s ≡ some t → rank t ≤ rank s
  unfolding begin transition can_transition is_terminal
  begin-rank s t c h = ground arith

  watch_at-same :
      (b : Bool) (pc : Watchdog) (s t : Session I)
      → watch_at g b pc s ≡ some t
      → (t.starter ≡ s.starter) × (t.waiter ≡ s.waiter)
  unfolding watch_at
  watch_at-same b off s t h = cc
  watch_at-same b sleeping s t h = elim (Bool-cases s.wd_stop) [
    | inl e ↦ ends _ (refl, refl) (rw (e, watch_at) at h)
    | inr e ↦ elim (Bool-cases b) [
      | inl f ↦ ends _ (refl, refl) (rw (e, f, watch_at) at h)
      | inr f ↦ absurd (cc (rw (e, f, watch_at) at h))
    ]
  ]
    where
      ends :
          (u : Session I)
          → (u.starter ≡ s.starter) × (u.waiter ≡ s.waiter)
          → some u ≡ some t
          → (t.starter ≡ s.starter) × (t.waiter ≡ s.waiter)
      ends u p e =
          subst (λ (v : Session I). (v.starter ≡ s.starter) × (v.waiter ≡ s.waiter))
            (some-injective e) p
  watch_at-same b expired s t h =
      subst (λ (u : Session I). (u.starter ≡ s.starter) × (u.waiter ≡ s.waiter)) (some-injective h)
        (refl, refl)
  watch_at-same b over s t h = cc

  Other-rank : {s t : Session I} → Other g s t → IsCoherent s → rank t ≤ rank s
  unfolding see_created cancel_created mark_cancelled cancel_instance
  Other-rank {s} {t} (begins h) c = begin-rank s t c h
  Other-rank {s} {t} (watches b h) c =
      let (p, q) = watch_at-same b s.watchdog s t h in rw (p, q) (omega arith)
  Other-rank {s} {t} (asks h) c = ground arith
  Other-rank {s} {t} (sees_created h) c = ground arith
  Other-rank {s} {t} (cancels_created h) c = ground arith
  Other-rank {s} {t} (marks h) c = ground arith
  Other-rank {s} {t} (cancels_instance h) c = ground arith

  Reach-rank : {n : ℕ} {s : Session I} → Reach g n s → n + rank s ≤ 11
  Reach-rank new = omega arith
  Reach-rank (on r o) = omega (arith, Reach-rank r, Own-rank o (Reach-IsCoherent g r))
  Reach-rank (by r o) = omega (arith, Reach-rank r, Other-rank o (Reach-IsCoherent g r))

-- However the threads of a session, its watchdog and the callers of start and cancel take turns:
-- start and the waiter take 11 steps at most, and where neither of them can go on with a session
-- that has left the state created, its state is terminal, so that everyone who waits is woken. This
-- holds where no exception of the instance's wait has left start; the waiter catches them.
pub started_ends :
    {I : Type 0} (g : Given I) {n : ℕ} {s : Session I}
    → Reach g n s
    → s.state ≢ created
    → s.starter ≢ thrown
    → ((t : Session I) → ¬ Own g s t)
    → (is_terminal s.state ≡ true) × (n ≤ 11)
started_ends g {s} r started no_throw stuck = elim (Bool-cases (is_terminal s.state)) [
  | inl e ↦ (e, omega (arith, Reach-rank g r))
  | inr e ↦ elim (Option-cases (start_at g s.starter s)) [
    | inr (t, h) ↦ absurd (stuck t (starts_on h))
    | inl h ↦ elim (Option-cases (wait_at g s.waiter s)) [
      | inr (t, f) ↦ absurd (stuck t (waits_on f))
      | inl f ↦ absurd (stands g s.starter s refl (Reach-IsCoherent g r) e started no_throw h f)
    ]
  ]
]
