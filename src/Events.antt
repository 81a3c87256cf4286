-- ===== src/Events.antt =====
-- core/events.hpp and .cpp: events and their JSON. The clock and the sink belong to the callers.
use vhdp.Base.{ℕ, false, [], Bytes, codes, if◌then◌else◌}
use vhdp.Base.Int.{ℤ}
use vhdp.Json.Validator.{json_validate}
use vhdp.Json.Writer.{
  JsonWriter, begin_object, end_object, key, value_text, value_signed, value_unsigned, raw,
}

pub data EventKind : Type 0 where
  lifecycle diagnostic log trace : EventKind

pub data Severity : Type 0 where
  debug info warning error : Severity

-- An enumerator has no other value here.
unfoldable pub event_kind_name : EventKind → Bytes
event_kind_name lifecycle = codes "lifecycle"
event_kind_name diagnostic = codes "diagnostic"
event_kind_name log = codes "log"
event_kind_name trace = codes "trace"

unfoldable pub severity_name : Severity → Bytes
severity_name debug = codes "debug"
severity_name info = codes "info"
severity_name warning = codes "warning"
severity_name error = codes "error"

pub record Event : Type 0 where
  pub kind : EventKind
  pub severity : Severity
  pub session_id : ℕ
  pub pid : ℤ
  pub timestamp_ns : ℕ
  pub code : ℤ
  pub name : Bytes
  pub message : Bytes
  pub detail_json : Bytes

-- A writer that has written nothing.
abbrev pub new_writer : JsonWriter
new_writer = record { out = []; first = []; after_key = false }

abbrev pub no_detail : Bytes
no_detail = codes "{}"

unfoldable pub event_to_json : Event → Bytes
unfolding event_kind_name severity_name begin_object end_object key value_text value_signed
    value_unsigned raw json_validate
event_to_json ev =
    let w1 = value_text (key (begin_object new_writer) (codes "type")) (event_kind_name ev.kind) in
    let w2 = value_text (key w1 (codes "severity")) (severity_name ev.severity) in
    let w3 = value_text (key w2 (codes "name")) ev.name in
    let w4 = value_unsigned (key w3 (codes "ts_ns")) ev.timestamp_ns in
    let w5 = value_unsigned (key w4 (codes "session")) ev.session_id in
    let w6 = value_signed (key w5 (codes "pid")) ev.pid in
    let w7 = value_signed (key w6 (codes "code")) ev.code in
    let w8 = value_text (key w7 (codes "message")) ev.message in
    let w9 = key w8 (codes "detail") in
    (end_object (
      if json_validate ev.detail_json
      then raw w9 ev.detail_json
      else end_object (begin_object w9))).out
