-- ===== src/Session.antt =====
-- core/session.hpp and .cpp: a session, whose state machine, engine instance and result are shared by
-- the thread that calls `start`, the waiter, the watchdog and the callers of the other operations. A
-- step of a thread is what it does between two points at which another one can come in. The engine's
-- instance is the interface `Instance`; events are left out.
pub mod Threads
pub mod Coherence
pub mod Progress
pub mod Outcome
use vhdp.Base.{
  ℕ, Bool, true, false, ◌&&◌, not, List, Option, some, none, Bytes, codes, if◌then◌else◌, ltb,
}
use vhdp.Base.Int.{ℤ, pos, negsuc}
use vhdp.Config.{EngineKind}
use vhdp.Status.{Status, Code, ok, ok_status, fail_with, invalid_state, Result}
use vhdp.Lifecycle.{State, created, starting, running, cancelled, is_terminal, transition}
use vhdp.Engine.{ExitReason, ExitResult, ProbeReport, no_reason}

-- `EngineInstance`, with `I` for its state. `wait` gives nothing where it throws.
pub record Instance (I : Type 0) : Type 0 where
  pub start : I → Status × I
  pub wait : I → Option ExitResult × I
  pub signal : I → ℤ → Status × I
  pub resize : I → ℕ → ℕ → Status × I
  pub cancel : I → ExitReason → Status × I
  pub pty_master : I → ℤ
  pub write_input : I → Bytes → Status × ℕ × I

-- What a session is given: the operations of an instance, the engines with their probes, the engine
-- that is asked for, what `create_instance` returns, the timeout, and whether the threads of the
-- waiter and of the watchdog can be created.
pub record Given (I : Type 0) : Type 0 where
  pub instance_ops : Instance I
  pub probe : EngineKind → ProbeReport
  pub engines : List EngineKind
  pub requested : EngineKind
  pub create : Result I
  pub timeout_ms : ℕ
  pub waiter_made : Bool
  pub watchdog_made : Bool

-- Where the thread that calls `start` is. It is at `thrown` when an exception of the instance's `wait`
-- has left `start`.
pub data Starter : Type 0 where
  idle choosing creating checking launching launched rechecking spawning : Starter
  failing : Status → ExitResult → Starter
  failed_with : Status → Starter
  inlining : ExitResult → Starter
  inlined thrown : Starter
  returned : Status → Starter

-- Where `waiter_main` is.
pub data Waiter : Type 0 where
  absent waiting : Waiter
  storing ending : ExitResult → Waiter
  stopping finished : Waiter

-- Where `watchdog_main` is.
pub data Watchdog : Type 0 where
  off sleeping expired over : Watchdog

-- The members, and where the threads are. `saw_created` tells that a `cancel` has read the state
-- `created` and goes on from there, and `marking` that it has moved the state to `cancelled` and has
-- not written the reason yet.
pub record Session (I : Type 0) : Type 0 where
  pub state : State
  pub kind : EngineKind
  pub cancel_requested : Bool
  pub inst : Option I
  pub result : ExitResult
  pub wd_stop : Bool
  pub starter : Starter
  pub waiter : Waiter
  pub watchdog : Watchdog
  pub saw_created : Bool
  pub marking : Bool

-- `ExitResult{}`
abbrev pub no_result : ExitResult
no_result = record { reason = no_reason; exit_code = pos 0; term_signal = 0; exec_errno = 0 }

-- The constructor.
abbrev pub new_session : {I : Type 0} → Session I
new_session = record {
  state = created;
  kind = EngineKind.auto_select;
  cancel_requested = false;
  inst = none;
  result = no_result;
  wd_stop = false;
  starter = idle;
  waiter = absent;
  watchdog = off;
  saw_created = false;
  marking = false;
}

abbrev pub is_ok : Status → Bool
is_ok s = elim s.code [ Code.ok ↦ true | _ ↦ false ]

abbrev pub is_running : State → Bool
is_running running = true
is_running _ = false

abbrev pub is_cancelled : State → Bool
is_cancelled cancelled = true
is_cancelled _ = false

-- The result that `wait` gives for a state and the stored result.
unfoldable pub shown : State → ExitResult → ExitResult
shown state r = elim r.reason [
  | ExitReason.no_reason ↦
      if is_cancelled state then record r { reason = ExitReason.cancelled } else r
  | _ ↦ r
]

-- `wait`, once it is woken or its time is over: the result, if the state is terminal, and the state.
unfoldable pub wait : {I : Type 0} → Session I → Option ExitResult × State
unfolding is_terminal shown
wait s = (if is_terminal s.state then some (shown s.state s.result) else none, s.state)

abbrev not_started : Status
not_started = fail_with invalid_state (codes "session has not been started")

module _ {I : Type 0} (g : Given I) where
  unfoldable pub signal : ℤ → Session I → Status × Session I
  signal signo s = elim s.inst [
    | none ↦ (fail_with invalid_state (codes "session is not running"), s)
    | some i ↦
        if not (is_running s.state)
        then (fail_with invalid_state (codes "session is not running"), s)
        else let (st, i') = g.instance_ops.signal i signo in (st, record s { inst = some i' })
  ]

  unfoldable pub resize : ℕ → ℕ → Session I → Status × Session I
  resize rows cols s = elim s.inst [
    | none ↦ (not_started, s)
    | some i ↦ let (st, i') = g.instance_ops.resize i rows cols in (st, record s { inst = some i' })
  ]

  unfoldable pub write_input : Bytes → Session I → Status × ℕ × Session I
  write_input buf s = elim s.inst [
    | none ↦ (not_started, 0, s)
    | some i ↦
        let (st, n, i') = g.instance_ops.write_input i buf in (st, n, record s { inst = some i' })
  ]

  unfoldable pub pty_master : Session I → ℤ
  pty_master s = elim s.inst [ none ↦ negsuc 0 | some i ↦ g.instance_ops.pty_master i ]
