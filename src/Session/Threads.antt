-- ===== src/Session/Threads.antt =====
-- The steps of the threads of core/session.cpp: `fail_start`, `start`, `waiter_main`, `watchdog_main` and
-- `cancel`.
use vhdp.Base.{
  ◌&&◌, suc, ℕ, Bool, true, false, not, Option, some, none, codes, if◌then◌else◌, ltb, ◌≡◌,
}
use vhdp.Status.{Status, ok_status, fail_with, no_memory, value, failure}
use vhdp.Lifecycle.{State, created, starting, running, exited, failed, cancelled, transition}
use vhdp.Engine.{ExitReason, ExitResult, select_engine}
use vhdp.Session.{
  new_session, Given, Starter, idle, choosing, creating, checking, launching, launched, rechecking,
  spawning, failing, failed_with, inlining, inlined, thrown, returned, Waiter, absent, waiting,
  storing, ending, stopping, finished, Watchdog, sleeping, expired, over, Session, no_result, is_ok,
}

abbrev thread_error : Status
thread_error = fail_with no_memory (codes "cannot create session threads")

-- `terminal` of `waiter_main`.
unfoldable pub terminal_of : ExitReason → State
terminal_of ExitReason.timeout = cancelled
terminal_of ExitReason.cancelled = cancelled
terminal_of ExitReason.start_failed = failed
terminal_of ExitReason.no_reason = failed
terminal_of _ = exited

-- What `waiter_main` makes of a wait that throws.
unfoldable pub caught : Option ExitResult → ExitResult
caught none = record no_result { reason = ExitReason.cancelled }
caught (some r) = r

abbrev pub request : {I : Type 0} → Session I → State → Session I
request s to = record s { state = (transition s.state to).1 }

module _ {I : Type 0} (g : Given I) where
  -- The beginning of `start`, which holds `start_mu_` up to its end.
  unfoldable pub begin : Session I → Option (Session I)
  begin s =
      let (st, state) = transition s.state starting in
      if not (is_ok st) then none else elim s.starter [
        | idle ↦ some (record s { state = state; starter = choosing })
        | returned _ ↦ some (record s { state = state; starter = choosing })
        | _ ↦ none
      ]

  abbrev cancelled_inst : I → ExitReason → I
  cancelled_inst i reason = (g.instance_ops.cancel i reason).1

  unfoldable pub launch : Session I → I → Session I
  launch s i =
      let (st, i1) = g.instance_ops.start i in
      if is_ok st
      then record s { inst = some i1; starter = launched }
      else let (result, i2) = g.instance_ops.wait i1 in
        record s { inst = some i2; starter = elim result [ none ↦ thrown | some r ↦ failing st r ] }

  unfoldable pub spawn : Session I → I → Session I
  spawn s i =
      let i1 = cancelled_inst i ExitReason.cancelled in
      if not g.waiter_made
      then (let (r, i2) = g.instance_ops.wait i1 in
          record s { inst = some i2; starter = elim r [ none ↦ thrown | some r ↦ inlining r ] })
      else if not (ltb 0 g.timeout_ms)
      then record s { waiter = waiting; starter = returned ok_status }
      else if g.watchdog_made
      then record s { waiter = waiting; watchdog = sleeping; starter = returned ok_status }
      else record s { inst = some i1; waiter = waiting; starter = returned thread_error }

  -- Where `start` has an instance.
  unfoldable pub with_instance : Starter → Session I → I → Option (Session I)
  with_instance checking s i = some (record s {
    inst = some (if s.cancel_requested then cancelled_inst i ExitReason.cancelled else i);
    starter = launching;
  })
  with_instance launching s i = some (launch s i)
  with_instance launched s i =
      let (st, state) = transition s.state running in
      some (record s {
        state = state;
        inst = some (if is_ok st then i else cancelled_inst i ExitReason.cancelled);
        starter = rechecking;
      })
  with_instance rechecking s i = some (record s {
    inst = some (if s.cancel_requested then cancelled_inst i ExitReason.cancelled else i);
    starter = spawning;
  })
  with_instance spawning s i = some (spawn s i)
  with_instance _ s i = none

  -- The rest of `start`, with `fail_start` in `failing` and `failed_with`.
  unfoldable pub start_at : Starter → Session I → Option (Session I)
  start_at idle s = none
  start_at (returned st) s = none
  start_at thrown s = none
  start_at choosing s = elim (select_engine g.probe g.requested g.engines) [
    | failure st ↦ some (record s { starter = failing st no_result })
    | value c ↦ some (record s { kind = c.engine; starter = creating })
  ]
  start_at creating s = elim g.create [
    | failure st ↦ some (record s { starter = failing st no_result })
    | value i ↦ some (record s { inst = some i; starter = checking })
  ]
  start_at (failing st r) s = some (record s {
    result = record r { reason = ExitReason.start_failed };
    starter = failed_with st;
  })
  start_at (failed_with st) s =
      some (record (request s (if s.cancel_requested then cancelled else failed)) {
        starter = returned st;
      })
  start_at (inlining r) s = some (record s { result = r; starter = inlined })
  start_at inlined s = some (record (request s failed) { starter = returned thread_error })
  start_at pc s = elim s.inst [ none ↦ none | some i ↦ with_instance pc s i ]

  unfoldable pub wait_at : Waiter → Session I → Option (Session I)
  wait_at absent s = none
  wait_at waiting s = elim s.inst [
    | none ↦ none
    | some i ↦
        let (r, i') = g.instance_ops.wait i in
        some (record s { inst = some i'; waiter = storing (caught r) })
  ]
  wait_at (storing r) s = some (record s { result = r; waiter = ending r })
  wait_at (ending r) s = some (record (request s (terminal_of r.reason)) { waiter = stopping })
  wait_at stopping s = some (record s { wd_stop = true; waiter = finished })
  wait_at finished s = none

  -- Whether the time is over is told.
  unfoldable pub watch_at : Bool → Watchdog → Session I → Option (Session I)
  watch_at timed_out sleeping s =
      if s.wd_stop
      then some (record s { watchdog = over })
      else if timed_out
      then some (record s { watchdog = expired })
      else none
  watch_at timed_out expired s = some (record s {
    inst = elim s.inst [ none ↦ none | some i ↦ some (cancelled_inst i ExitReason.timeout) ];
    watchdog = over;
  })
  watch_at timed_out _ s = none

  -- The parts of `cancel`: the request, the look at the state, the cancellation of a session that was
  -- not started then, in two steps, and that of the instance.
  abbrev pub ask_cancel : Session I → Session I
  ask_cancel s = record s { cancel_requested = true }

  unfoldable pub see_created : Session I → Option (Session I)
  see_created s = elim s.state [
    | created ↦ if s.cancel_requested then some (record s { saw_created = true }) else none
    | _ ↦ none
  ]

  unfoldable pub cancel_created : Session I → Option (Session I)
  cancel_created s =
      let (st, state) = transition s.state cancelled in
      if s.saw_created && is_ok st then some (record s { state = state; marking = true }) else none

  unfoldable pub mark_cancelled : Session I → Option (Session I)
  mark_cancelled s =
      if s.marking
      then some
          (record s { result = record s.result { reason = ExitReason.cancelled }; marking = false })
      else none

  unfoldable pub cancel_instance : Session I → Option (Session I)
  cancel_instance s = elim s.inst [
    | none ↦ none
    | some i ↦
        if s.cancel_requested
        then some (record s { inst = some (cancelled_inst i ExitReason.cancelled) })
        else none
  ]

  -- A step of the session's own threads that `start` and `waiter_main` are made of.
  pub data Own : Session I → Session I → Type 0 where
    starts_on : {s t : Session I} → start_at s.starter s ≡ some t → Own s t
    waits_on : {s t : Session I} → wait_at s.waiter s ≡ some t → Own s t

  -- A step of the watchdog, or of a caller of `start` or `cancel`.
  pub data Other : Session I → Session I → Type 0 where
    begins : {s t : Session I} → begin s ≡ some t → Other s t
    watches :
        {s t : Session I} (timed_out : Bool) → watch_at timed_out s.watchdog s ≡ some t → Other s t
    asks : {s t : Session I} → ask_cancel s ≡ t → Other s t
    sees_created : {s t : Session I} → see_created s ≡ some t → Other s t
    cancels_created : {s t : Session I} → cancel_created s ≡ some t → Other s t
    marks : {s t : Session I} → mark_cancelled s ≡ some t → Other s t
    cancels_instance : {s t : Session I} → cancel_instance s ≡ some t → Other s t

  -- The steps of all threads in some order, from a new session on; the number counts those of the
  -- session's own threads.
  pub data Reach : ℕ → Session I → Type 0 where
    new : Reach 0 new_session
    on : {n : ℕ} {s t : Session I} → Reach n s → Own s t → Reach (suc n) t
    by : {n : ℕ} {s t : Session I} → Reach n s → Other s t → Reach n t
