-- ===== src/Tests/Threads.antt =====
-- A session whose program ends with the exit code 7.
use vhdp.Base.{true, [], ◌∷◌, some, codes, ◌≡◌, ◌≤◌, refl}
use vhdp.Base.Int.{pos, negsuc}
use vhdp.Config.{auto_select, rootless}
use vhdp.Status.{ok_status, value}
use vhdp.Lifecycle.{exited, is_terminal, transition, can_transition}
use vhdp.Engine.{ExitResult, normal, select_engine, find}
use vhdp.Session.{Given, Instance, Session, new_session, returned, finished, wait, shown}
use vhdp.Session.Threads.{
  Reach, new, on, by, Own, starts_on, waits_on, begins, begin, start_at, with_instance, launch,
  spawn, wait_at, terminal_of, caught,
}
use vhdp.Session.Progress.{started_ends}
use vhdp.Session.Outcome.{told, wait-told}

abbrev seven : ExitResult
seven = record { reason = normal; exit_code = pos 7; term_signal = 0; exec_errno = 0 }

-- An engine's instance without a state of its own.
abbrev instance_ops : Instance Unit
instance_ops = record {
  start = λ i. (ok_status, i);
  wait = λ i. (some seven, i);
  signal = λ i _. (ok_status, i);
  resize = λ i _ _. (ok_status, i);
  cancel = λ i _. (ok_status, i);
  pty_master = λ _. negsuc 0;
  write_input = λ i _. (ok_status, 0, i);
}

abbrev given : Given Unit
given = record {
  instance_ops = instance_ops;
  probe = λ _. record { available = true; reason = codes "ptrace works" };
  engines = rootless ∷ [];
  requested = auto_select;
  create = value tt;
  timeout_ms = 0;
  waiter_made = true;
  watchdog_made = true;
}

-- What the session is like in the end.
abbrev ended : Session Unit
ended = record new_session {
  state = exited;
  kind = rootless;
  inst = some tt;
  result = seven;
  wd_stop = true;
  starter = returned ok_status;
  waiter = finished;
}

ended-Reach : Reach given 11 ended
unfolding begin start_at wait_at transition select_engine find with_instance launch spawn
    can_transition caught terminal_of
ended-Reach =
    on
      (on
        (on
          (on
            (on
              (on
                (on
                  (on
                    (on (on (on (by new (begins refl)) (starts_on refl)) (starts_on refl))
                      (starts_on refl))
                    (starts_on refl))
                  (starts_on refl))
                (starts_on refl))
              (starts_on refl))
            (waits_on refl))
          (waits_on refl))
        (waits_on refl))
      (waits_on refl)

ended-stands : (t : Session Unit) → ¬ Own given ended t
unfolding start_at wait_at
ended-stands t (starts_on h) = cc
ended-stands t (waits_on h) = cc

started_ends_example : (is_terminal ended.state ≡ true) × (11 ≤ 11)
started_ends_example = started_ends given ended-Reach (λ e. cc) (λ e. cc) ended-stands

told_seven : (wait ended).0 ≡ some seven
unfolding wait shown is_terminal
told_seven = refl

wait-told_example : told exited normal ≡ true
wait-told_example = wait-told given ended-Reach told_seven
