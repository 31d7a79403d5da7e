-- ===== src/Runner/Dispatch.antt =====
-- execqueue/runner/dispatch.py, the class `PromptDispatcher`. The OpenCode client, the hash and the
-- texts of numbers are not modelled here: they are the record `Client`. No statement of the database
-- fails; log lines, the correlation identifier, the payload of an event and the durations of phases are
-- left out.
mod Examples
pub mod Numbers
pub mod Outcomes
pub mod Sent
use Prim.Native.String.{◌++◌ as ◌+++◌}
use exec_queue.Common.{
  ℕ, ◌+◌, String, Bool, true, false, not, Option, none, some, List, [], ◌∷◌, ◌++◌, map, ◌==◌,
  if◌then◌else◌,
}
use exec_queue.Database.{Table}
use exec_queue.Model.{
  ExecutionStatus, queued, dispatching, in_progress, TaskExecution, TaskExecutionEvent, EventType,
  error, execution_dispatched, StoredError, class_name, ResultSummary,
}
use exec_queue.Observability.{ExecutionMetrics, record_execution_failed}
use exec_queue.Orchestrator.Classification.{RunnerMode, read_only, write}
use exec_queue.Orchestrator.Context.{PreparedExecutionContext}
use exec_queue.Runner.Prompts.{build_prompt, number_text}

-- What a call of the client gives, or the class and the text of its exception.
pub data Call (A : Type 0) : Type 0 where
  returned : A → Call A
  threw : String → String → Call A

-- The client works on a state of the service; a session and a message are known by their identifiers.
pub record Client (S : Type 0) : Type 0 where
  pub create_session : String → S → Call String × S
  pub dispatch_message : String → String → S → Call String × S
  -- the first digits of the hash of a text, the text of a number, and `str.title`
  pub prompt_hash : String → String
  pub decimal : ℕ → String
  pub title : String → String

-- The tables that a dispatch reads and writes.
pub record Tables : Type 0 where
  pub execution_table : Table TaskExecution
  pub event_table : Table TaskExecutionEvent

pub record Stored : Type 0 where
  pub executions : List TaskExecution
  pub events : List TaskExecutionEvent

-- `DispatchError` by its three causes, or the execution and the identifier of the message.
pub data Dispatched : Type 0 where
  dispatched : TaskExecution → String → Dispatched
  not_found not_queued : Dispatched
  dispatch_failed : String → String → Dispatched

abbrev pub is_queued : ExecutionStatus → Bool
is_queued ExecutionStatus.queued = true
is_queued _ = false

-- The row of an object of the session is written back.
abbrev pub store_execution : TaskExecution → List TaskExecution → List TaskExecution
store_execution e = map (λ r. if r.id == e.id then e else r)

-- `_get_next_sequence`: `(max or 0) + 1`.
unfoldable pub get_next_sequence : Table TaskExecutionEvent → ℕ → List TaskExecutionEvent → ℕ
get_next_sequence db id events =
    elim (db.select_max (λ v. v.execution_id == id) (λ v. v.sequence) events) [
      | none ↦ 1
      | some n ↦ n + 1
    ]

unfoldable pub add_event : Tables → ℕ → EventType → Stored → Stored
unfolding get_next_sequence
add_event db id kind w =
    let event : TaskExecutionEvent = record {
      execution_id = id;
      sequence = get_next_sequence db.event_table id w.events;
      event_type = kind;
    } in
    record w { events = w.events ++ event ∷ [] }

abbrev mode_text : RunnerMode → String
mode_text read_only = "read_only"
mode_text write = "write"

-- Step 1.
abbrev pub start_dispatch : ℕ → TaskExecution → TaskExecution
start_dispatch now e = record e { status = dispatching; started_at = some now }

module _ {S : Type 0} (cl : Client S) where
  -- Steps 2 and 3: the prompt, the session and the message.
  unfoldable pub send_prompt :
      PreparedExecutionContext → String → S → Call (String × String × String) × S
  send_prompt c task_prompt s = elim (build_prompt cl.decimal cl.title c task_prompt) [
    | none ↦ (threw "AttributeError" "'NoneType' object has no attribute 'title'", s)
    | some prompt ↦
        let (session, s₁) =
          cl.create_session
            ("execqueue-task-" +++ number_text cl.decimal cl.title c +++ "-v" +++ c.version) s in
        elim session [
          | threw name text ↦ (threw name text, s₁)
          | returned session_id ↦
              let (message, s₂) = cl.dispatch_message session_id prompt s₁ in
              elim message [
                | threw name text ↦ (threw name text, s₂)
                | returned message_id ↦
                    (returned (cl.prompt_hash prompt, session_id, message_id), s₂)
              ]
        ]
  ]

  -- Step 4.
  abbrev pub started_session :
      ℕ → PreparedExecutionContext → String → String → String → TaskExecution → TaskExecution
  started_session now c hash session_id message_id e = record e {
    status = in_progress;
    dispatched_at = some now;
    opencode_session_id = some session_id;
    opencode_message_id = some message_id;
    result_summary = some (record {
      prompt_hash = hash;
      context_version = c.version;
      runner_mode = mode_text c.runner_mode;
      dispatched_at = now;
    });
  }

  -- Steps 4 and 5: what is written, and what is returned or raised.
  unfoldable pub record_outcome :
      Tables
      → ℕ
      → PreparedExecutionContext
      → Call (String × String × String)
      → TaskExecution
      → Stored
      → ExecutionMetrics
      → Dispatched × Stored × ExecutionMetrics
  unfolding add_event
  record_outcome db now c (returned (hash, session_id, message_id)) e w m =
      let e' = started_session now c hash session_id message_id e in
      (
        dispatched e' message_id,
        add_event db e.id execution_dispatched
            (record w { executions = store_execution e' w.executions }),
        m,
      )
  record_outcome db now c (threw name text) e w m =
      let e' = record e { error_type = some (class_name name); error_message = some text } in
      (
        dispatch_failed name text,
        add_event db e.id error (record w { executions = store_execution e' w.executions }),
        record_execution_failed m,
      )

  pub dispatch_prompt :
      Tables
      → ℕ
      → ℕ
      → PreparedExecutionContext
      → String
      → Stored
      → ExecutionMetrics
      → S
      → (Dispatched × Stored × ExecutionMetrics) × S
  unfolding send_prompt record_outcome
  dispatch_prompt db now execution_id c task_prompt w m s =
      elim (db.execution_table.get (λ e. e.id == execution_id) w.executions) [
        | none ↦ ((not_found, w, m), s)
        | some e ↦
            let (answer, s') = send_prompt c task_prompt s in
            if is_queued e.status
            then (record_outcome db now c answer (start_dispatch now e) w m, s')
            else ((not_queued, w, m), s)
      ]
