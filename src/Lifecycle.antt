-- ===== src/Lifecycle.antt =====
-- core/lifecycle.hpp and .cpp: the session's state machine. The mutex makes each `transition` one
-- step on the state; `wait_terminal` only waits for `is_terminal` and is not modelled.
pub mod Runs
use vhdp.Base.{Bool, true, false, not, ◌||◌, if◌then◌else◌, Bytes, codes, ◌++◌}
use vhdp.Status.{Status, ok_status, fail_with, invalid_state}

pub data State : Type 0 where
  created starting running exited failed cancelled : State

unfoldable pub state_name : State → Bytes
state_name created = codes "created"
state_name starting = codes "starting"
state_name running = codes "running"
state_name exited = codes "exited"
state_name failed = codes "failed"
state_name cancelled = codes "cancelled"

unfoldable pub is_terminal : State → Bool
is_terminal exited = true
is_terminal failed = true
is_terminal cancelled = true
is_terminal _ = false

unfoldable pub can_transition : State → State → Bool
can_transition created starting = true
can_transition created cancelled = true
can_transition starting running = true
can_transition starting failed = true
can_transition starting cancelled = true
can_transition running exited = true
can_transition running cancelled = true
can_transition running failed = true
can_transition _ _ = false

-- `StateMachine::transition` on `state_`.
unfoldable pub transition : State → State → Status × State
unfolding can_transition state_name
transition state to =
    if not (can_transition state to)
    then (
      fail_with invalid_state (
          codes "invalid session state transition "
          ++ state_name state
          ++ codes " -> "
          ++ state_name to),
      state,
    )
    else (ok_status, to)
