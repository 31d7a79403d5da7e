-- ===== src/Runner/Errors/Examples.antt =====
-- Errors and retries at concrete values (execqueue/runner/error_classification.py).
use exec_queue.Common.{◌≡◌, refl}
use exec_queue.Model.{validation_failed}
use exec_queue.Runner.Errors.{PyException, classify_error, other}

-- A message on which the test for "schema" and "invalid" was meant to decide.
abbrev schema_message : PyException
schema_message = record { exception_class = other; message = "invalid schema" }

schema_message_class : classify_error (λ s. s) schema_message ≡ validation_failed
unfolding classify_error
schema_message_class = refl
