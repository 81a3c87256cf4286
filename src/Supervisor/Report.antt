-- ===== src/Supervisor/Report.antt =====
-- Events and refusals: `emit` and `first_report` of supervisor.cpp, `deny` of syscall_handlers.cpp.
use vhdp.Base.{
  ℕ, ◌+◌, Bool, true, false, ◌&&◌, not, List, [], ◌∷◌, ◌++◌, Option, some, none, Bytes, codes,
  eq_bytes, if◌then◌else◌, length, leb, ◌==◌,
}
use vhdp.Base.Int.{ℤ, pos, eq_ℤ}
use vhdp.Errno.{errno_name}
use vhdp.Events.{EventKind, diagnostic, Severity, warning, new_writer, no_detail}
use vhdp.Json.Writer.{begin_object, end_object, key, value_text, value_signed}
use vhdp.Syscalls.{SyscallInfo, class_name}
use vhdp.Syscalls.Handlers.{Handler}
use vhdp.Identity.{Action, minus}
use vhdp.Supervisor.State.{Kernel, Setup, State, world}

-- `kMaxReported`
abbrev pub max_reported : ℕ
max_reported = 512

unfoldable pub has_report : List Bytes → Bytes → Bool
unfolding eq_bytes
has_report [] r = false
has_report (x ∷ xs) r = let rest = has_report xs r in if eq_bytes x r then true else rest

-- What `++denials_[...]` makes of the map, and the count that it had.
unfoldable pub count_denial : ℤ → ℕ → List ((ℤ × ℕ) × ℕ) → ℕ × List ((ℤ × ℕ) × ℕ)
count_denial nr e [] = (0, ((nr, e), 1) ∷ [])
count_denial nr e ((k, n) ∷ rest) =
    let (found, counted) = count_denial nr e rest in
    if eq_ℤ k.0 nr && k.1 == e then (n, (k, n + 1) ∷ rest) else (found, (k, n) ∷ counted)

module _ {W : Type 0} (k : Kernel W) (c : Setup) where
  -- `emit`, with the pid and the code.
  unfoldable pub emit : EventKind → Severity → Bytes → Bytes → ℤ → ℤ → Bytes → State W → State W
  emit kind sev name message pid code detail s = if not (c.wants sev) then s else record s {
    events =
        s.events
        ++ record {
          kind = kind;
          severity = sev;
          session_id = c.session_id;
          pid = pid;
          timestamp_ns = k.clock (world s);
          code = code;
          name = name;
          message = message;
          detail_json = detail;
        }
          ∷ [];
  }

  -- A diagnostic about the task.
  unfoldable pub warn : Bytes → Bytes → ℕ → State W → State W
  unfolding emit
  warn name message code s =
      emit diagnostic warning name message (pos s.task.tid) (pos code) no_detail s

  unfoldable pub first_report : Bytes → Bytes → State W → Bool × State W
  unfolding has_report
  first_report name subject s =
      let r = name ++ 0 ∷ subject in
      if leb max_reported (length s.reported)
      then (false, s)
      else if has_report s.reported r
      then (false, s)
      else (true, record s { reported = r ∷ s.reported })

  -- A diagnostic that is reported once for its subject.
  unfoldable pub warn_once : Bytes → Bytes → Bytes → ℕ → State W → State W
  unfolding first_report warn
  warn_once name subject message code s =
      let (first, s') = first_report name subject s in
      if first then warn name message code s' else s'

  unfoldable pub deny :
      Option (SyscallInfo Handler) → ℤ → ℕ → Bytes → Bytes → Severity → State W → Action × State W
  unfolding emit count_denial errno_name class_name begin_object end_object key value_text
      value_signed
  deny info nr e name why sev s =
      let (count, denials) = count_denial nr e s.denials in
      let s1 : State W = record s { denials = denials } in
      let call : Bytes = elim info [ none ↦ codes "unknown" | some i ↦ i.name ] in
      let group : Bytes = elim info [ none ↦ codes "unknown" | some i ↦ class_name i.class ] in
      let shown : Bytes = elim info [ none ↦ codes "syscall" | some i ↦ i.name ] in
      let w1 = value_text (key (begin_object new_writer) (codes "syscall")) call in
      let w2 = value_signed (key w1 (codes "nr")) nr in
      let w3 = value_text (key w2 (codes "errno")) (errno_name e) in
      let w4 = end_object (value_text (key w3 (codes "class")) group) in
      let message = shown ++ (codes " -> " ++ (errno_name e ++ (codes ": " ++ why))) in
      (
        minus e,
        if count == 0
            then emit diagnostic sev name message (pos s1.task.tid) (pos e) w4.out s1
            else s1,
      )
