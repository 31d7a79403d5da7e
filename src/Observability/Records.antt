-- ===== src/Observability/Records.antt =====
-- `StructuredFormatter`, `log_phase_event` and `PhaseTimer` of execqueue/observability/logging.py. The
-- search for secrets in a message, which is a regular expression, and the text of the time are
-- arguments; times are microseconds. A record is formatted as the dictionary that is written as JSON.
pub mod Bounded
use exec_queue.Common.{
  ℕ, ◌-◌, String, Bool, true, false, Option, none, some, List, [], ◌∷◌, ◌==◌, ◌||◌, truthy, append,
  if◌then◌else◌,
}
use exec_queue.Json.{
  Value, null, text, integer, object, Fields, end, field, get_field, get, set_field,
}
use exec_queue.Json.Int.{ℤ, pos, sub_ℕ}
use exec_queue.Observability.Redaction.{truncated}

-- What `logging` gives the formatter: the attributes are those that the caller has added.
pub record LogRecord : Type 0 where
  pub level : String
  pub logger : String
  pub message : String
  pub attributes : Fields
  pub exc_info : Option (Option String × Option String)

abbrev text_or_null : Option String → Value
text_or_null none = null
text_or_null (some t) = text t

abbrev pub truncate_payload : ℕ → Value → Value
truncate_payload n (text t) = text (truncated n t)
truncate_payload n v = v

abbrev pub truncate_entry : Fields → Fields
truncate_entry end = end
truncate_entry (field key v fields) = field key (truncate_payload 1000 v) (truncate_entry fields)

-- The fields to include that the record has, set on an entry.
abbrev add_extra : List String → Fields → Fields → Fields
add_extra [] attributes entry = entry
add_extra (key ∷ keys) attributes entry = elim (get_field key attributes) [
  | none ↦ add_extra keys attributes entry
  | some v ↦ add_extra keys attributes (set_field key v entry)
]

abbrev add_exception : Option (Option String × Option String) → Fields → Fields
add_exception none entry = entry
add_exception (some (name, message)) entry =
    set_field "exception"
      (object (field "type" (text_or_null name) (field "message" (text_or_null message) end))) entry

-- The entry of a record before its long texts are cut.
pub log_entry : (String → String) → String → List String → LogRecord → Fields
log_entry redact_sensitive timestamp include_fields r =
    let entry = field "timestamp" (text timestamp) (
      field "level" (text r.level) (
        field "logger" (text r.logger) (
          field "message" (text (redact_sensitive r.message)) (
            field "correlation_id" (get "correlation_id" r.attributes) (
              field "execution_id" (get "execution_id" r.attributes) (
                field "task_id" (get "task_id" r.attributes) (
                  field "runner_id" (get "runner_id" r.attributes) (
                    field "phase" (get "phase" r.attributes)
                      (field "session_id" (get "session_id" r.attributes) end))))))))) in
    add_exception r.exc_info (add_extra include_fields r.attributes entry)

pub format : (String → String) → String → List String → LogRecord → Fields
unfolding log_entry
format redact_sensitive timestamp include_fields r =
    truncate_entry (log_entry redact_sensitive timestamp include_fields r)

-- The identifiers of `log_phase_event`.
pub record PhaseEvent : Type 0 where
  pub correlation_id : String
  pub execution_id : Option String
  pub task_id : Option String
  pub runner_id : Option String
  pub phase : Option String
  pub session_id : Option String

abbrev set_all : Fields → Fields → Fields
set_all end fields = fields
set_all (field key v more) fields = set_all more (set_field key v fields)

pub log_phase_event : String → String → String → PhaseEvent → Fields → LogRecord
log_phase_event logger level event e extra =
    let attributes = field "correlation_id" (text e.correlation_id) (
      field "execution_id" (text_or_null e.execution_id) (
        field "task_id" (text_or_null e.task_id) (
          field "runner_id" (text_or_null e.runner_id) (
            field "phase" (text_or_null e.phase)
              (field "session_id" (text_or_null e.session_id) end))))) in
    record {
      level = level;
      logger = logger;
      message = event;
      attributes = set_all extra attributes;
      exc_info = none;
    }

pub record PhaseMetrics : Type 0 where
  pub phase : String
  pub start_time : ℕ
  pub end_time : ℕ
  pub success : Bool
  pub error_type : Option String
  pub correlation_id : Option String

-- 0 where one of the times is not set; the clock may have been set back.
unfoldable pub duration : PhaseMetrics → ℤ
duration m =
    if m.end_time == 0
    then pos 0
    else if m.start_time == 0
    then pos 0
    else sub_ℕ m.end_time m.start_time

-- `PhaseTimer`, with the block that it measures: the clock is read before and after it, and an exception
-- of the block, known by its class, is not caught.
unfoldable pub measure_phase : String → Option String → ℕ → ℕ → Option String → PhaseMetrics
measure_phase phase correlation_id started ended exception = record {
  phase = phase;
  start_time = started;
  end_time = ended;
  success = elim exception [ none ↦ true | some _ ↦ false ];
  error_type = exception;
  correlation_id = correlation_id;
}

-- `extract_correlation_id`, on a dictionary whose two keys are texts.
pub extract_correlation_id : Option String → Option String → Option String
extract_correlation_id correlation_id header =
    if truthy correlation_id then correlation_id else header
