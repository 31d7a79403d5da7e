-- ===== src/Observability/Examples.antt =====
-- Metrics, payloads and log records of small size (execqueue/observability/logging.py).
use exec_queue.Common.{◌≡◌, refl, true, none, some, [], ◌∷◌}
use exec_queue.Json.{Value, text, array, object, nil, cons, end, field}
use exec_queue.Json.Int.{negsuc}
use exec_queue.Observability.{no_metrics, get_average_phase_duration}
use exec_queue.Observability.Phases.{recorded, get_average_phase_duration_lem}
use exec_queue.Observability.Records.{LogRecord, measure_phase, duration}
use exec_queue.Observability.Redaction.{redact}
use exec_queue.Observability.Redaction.Hidden.{is_hidden, outline, redact_lem}

-- A clock that is set back during a phase gives a negative duration.
set_back : duration (measure_phase "dispatch" none 10 8 none) ≡ negsuc 1
unfolding duration measure_phase
set_back = refl

abbrev payload : Value
payload = object (
    field "user" (text "me")
      (field "keys" (array (cons (object (field "api_key" (text "k1") end)) nil)) end))

redact_lem_example :
    (is_hidden (λ t. t) (redact (λ t. t) (λ p t. t) 10000 payload) ≡ true)
    × (outline (λ t. t) (redact (λ t. t) (λ p t. t) 10000 payload) ≡ outline (λ t. t) payload)
redact_lem_example = redact_lem (λ t. t) (λ p t. t) 10000 payload

get_average_phase_duration_lem_example :
    get_average_phase_duration "dispatch"
      (recorded (("dispatch", 10) ∷ ("stream", 7) ∷ ("dispatch", 20) ∷ []) no_metrics)
    ≡ some (30, 2)
get_average_phase_duration_lem_example =
    get_average_phase_duration_lem "dispatch"
      (("dispatch", 10) ∷ ("stream", 7) ∷ ("dispatch", 20) ∷ [])

abbrev log_record : LogRecord
log_record = record {
  level = "INFO";
  logger = "execqueue";
  message = "Intake started";
  attributes = field "phase" (text "claim") end;
  exc_info = none;
}
