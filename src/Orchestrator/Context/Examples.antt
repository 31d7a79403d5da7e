-- ===== src/Orchestrator/Context/Examples.antt =====
-- The context of a concrete task (execqueue/orchestrator/context_contract.py).
use exec_queue.Common.{ℕ, ◌≡◌, refl, String, none, List, [], ◌∷◌}
use exec_queue.Model.{Details}
use exec_queue.Orchestrator.Context.{
  ContextTask, validate_context, build_read_only_context, task_number_required,
}

abbrev no_details : Details
no_details = record {
  requires_write_access = none;
  parallelization_mode = none;
  branch_name = none;
}

abbrev some_task : ContextTask
some_task = record {
  task_id = 7;
  task_number = 3;
  task_type = "execution";
  batch_id = none;
  correlation_id = none;
  details = no_details;
}

-- A task with the number 0 has no valid context.
number_zero :
    validate_context (build_read_only_context "." 0 (record some_task { task_number = 0 }))
    ≡ task_number_required ∷ []
unfolding validate_context build_read_only_context
number_zero = refl

-- A function for `str.lower` on texts in lower case.
abbrev same : String → String
same k = k

abbrev items : List (String × ℕ)
items = ("branch", 1) ∷ ("api_key_id", 2) ∷ []
