-- ===== src/Runner/Dispatch/Examples.antt =====
-- The dispatch of an execution to a small client (execqueue/runner/dispatch.py).
use exec_queue.Common.{◌≡◌, refl, String, true, none, some, [], ◌∷◌, arith}
use exec_queue.Database.{plain_table}
use exec_queue.Model.{TaskExecution, TaskExecutionEvent, execution_claimed}
use exec_queue.Observability.{no_metrics}
use exec_queue.Orchestrator.Classification.{write}
use exec_queue.Orchestrator.Context.{PreparedExecutionContext}
use exec_queue.Runner.Claim.{new_execution}
use exec_queue.Runner.Prompts.{build_prompt}
use exec_queue.Runner.Dispatch.{
  returned, threw, Client, Tables, Stored, not_queued, send_prompt, dispatch_prompt,
}
use exec_queue.Runner.Dispatch.Numbers.{IsNumbered, dispatch_prompt-IsNumbered}
use exec_queue.Runner.Dispatch.Outcomes.{IsKeyed, execution_of, dispatch_prompt_again}
use exec_queue.Runner.Dispatch.Sent.{IsSent, dispatch_prompt-IsSent}

-- A service that notes the last message that was sent.
abbrev client : Client String
client = record {
  create_session = λ name s. (returned "session", s);
  dispatch_message = λ session text s. (returned "message", text);
  prompt_hash = λ text. "hash";
  decimal = λ n. "7";
  title = λ text. text;
}

-- A service that is not there.
abbrev silent : Client String
silent = record client { create_session = λ name s. (threw "OpenCodeConnectionError" "refused", s) }

abbrev tables : Tables
tables = record {
  execution_table = plain_table TaskExecution;
  event_table = plain_table TaskExecutionEvent;
}

abbrev claim_event : TaskExecutionEvent
claim_event = record { execution_id = 1; sequence = 1; event_type = execution_claimed }

abbrev stored : Stored
stored = record { executions = new_execution 1 5 7 "runner" ∷ []; events = claim_event ∷ [] }

abbrev context : PreparedExecutionContext
context = record {
  version = "1.0";
  task_id = some 7;
  task_number = some 7;
  task_type = some "execution";
  requires_write_access = true;
  parallelization_mode = "sequential";
  runner_mode = write;
  base_repo_path = some "/repo";
  branch_name = some "b";
  worktree_path = some "/work/t";
  commit_sha_before = some "abc";
  correlation_id = none;
  batch_id = none;
  prepared_at = 5;
}

-- What is sent for a task does not depend on what the task asks for.
same_message :
    (dispatch_prompt client tables 9 1 context "add a test" stored no_metrics "").1
    ≡ (dispatch_prompt client tables 9 1 context "remove a test" stored no_metrics "").1
unfolding dispatch_prompt send_prompt build_prompt plain_table
same_message = refl

stored-IsNumbered : IsNumbered stored.events
stored-IsNumbered id n = ground arith

stored-IsKeyed : IsKeyed stored.executions
stored-IsKeyed id = ground arith

dispatch_prompt-IsNumbered_example :
    IsNumbered
      (dispatch_prompt silent tables 9 1 context "add a test" stored no_metrics "").0.1.events
dispatch_prompt-IsNumbered_example =
    dispatch_prompt-IsNumbered silent tables 9 1 context "add a test" stored no_metrics ""
      stored-IsNumbered

dispatch_prompt-IsSent_example :
    let ((r, w, m), s) =
      dispatch_prompt client tables 9 1 context "add a test" stored no_metrics "" in
    (e' : TaskExecution) × (execution_of 1 w.executions ≡ some e')
    × IsSent client context "add a test" "" s r e'
dispatch_prompt-IsSent_example =
    dispatch_prompt-IsSent client tables 9 1 context "add a test" stored no_metrics ""
      (new_execution 1 5 7 "runner") stored-IsKeyed refl refl

dispatch_prompt_again_example :
    let ((r, w, m), s) =
      dispatch_prompt silent tables 9 1 context "add a test" stored no_metrics "" in
    dispatch_prompt silent tables 11 1 context "add a test" w m s ≡ ((not_queued, w, m), s)
dispatch_prompt_again_example =
    dispatch_prompt_again silent tables 9 1 context "add a test" stored no_metrics ""
      (new_execution 1 5 7 "runner") stored-IsKeyed refl refl 11 context "add a test"
