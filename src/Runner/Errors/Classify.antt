-- ===== src/Runner/Errors/Classify.antt =====
-- What `classify_error` promises (execqueue/runner/error_classification.py).
use exec_queue.Common.{String, ◌≡◌, false, arith, contains}
use exec_queue.Model.{contract_violation}
use exec_queue.Runner.Errors.{
  ExceptionClass, PyException, contract_violation_error, classify_error, classify_conflict,
  classify_contract,
}

classify_contract_origin :
    (c : ExceptionClass) (msg : String)
    → contains "invalid" msg ≡ false
    → classify_contract c msg ≡ contract_violation
    → c ≡ contract_violation_error
unfolding classify_contract
classify_contract_origin c msg clean h = ground arith

classify_conflict_origin :
    (c : ExceptionClass) (msg : String)
    → classify_conflict c msg ≡ contract_violation
    → c ≡ contract_violation_error
unfolding classify_conflict
classify_conflict_origin c msg h = ground (arith, classify_contract_origin c msg)

-- An exception is classified as a contract violation only if its class is `ContractViolationError`.
pub classify_error-eq-contract_violation :
    (lower : String → String) (e : PyException)
    → classify_error lower e ≡ contract_violation
    → e.exception_class ≡ contract_violation_error
unfolding classify_error
classify_error-eq-contract_violation lower e h =
    ground (arith, classify_conflict_origin e.exception_class (lower e.message))
