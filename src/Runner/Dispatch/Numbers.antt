-- ===== src/Runner/Dispatch/Numbers.antt =====
-- The numbers of the events of an execution (execqueue/runner/dispatch.py).
use exec_queue.Common.{
  ℕ, ◌+◌, ◌≤◌, ◌<◌, ◌≡◌, refl, String, Bool, ◌&&◌, Option, some, List, [], ◌∷◌, map, keep, count,
  count-append, arith, ◌==◌, if◌then◌else◌, Option-cases, Bool-cases, inl, inr,
}
use exec_queue.Database.{Table, maximum, top}
use exec_queue.Model.{
  TaskExecution, TaskExecutionEvent, EventType, execution_dispatched, error, class_name,
}
use exec_queue.Observability.{ExecutionMetrics}
use exec_queue.Orchestrator.Context.{PreparedExecutionContext}
use exec_queue.Runner.Dispatch.{
  Call, returned, threw, Client, Tables, Stored, get_next_sequence, add_event, send_prompt,
  record_outcome, dispatch_prompt, is_queued, start_dispatch, started_session, store_execution,
}

abbrev has_number : ℕ → ℕ → TaskExecutionEvent → Bool
has_number id n v = v.execution_id == id && v.sequence == n

-- The unique index on the number of an event in its execution.
abbrev pub IsNumbered : List TaskExecutionEvent → Type 0
IsNumbered events = (id n : ℕ) → count (has_number id n) events ≤ 1

abbrev last_number : ℕ → List TaskExecutionEvent → Option ℕ
last_number id events = maximum (map (λ v. v.sequence) (keep (λ v. v.execution_id == id) events))

none_above :
    (id n : ℕ) (events : List TaskExecutionEvent)
    → top (last_number id events) < n
    → count (has_number id n) events ≡ 0
none_above id n [] h = refl
none_above id n (v ∷ vs) h = elim (Option-cases (last_number id vs)) [
  | inl empty ↦ ground (arith, empty, h, none_above id n vs)
  | inr (k, found) ↦ ground (arith, found, h, none_above id n vs)
]

get_next_sequence_lem :
    (db : Table TaskExecutionEvent) (id : ℕ) (events : List TaskExecutionEvent)
    → get_next_sequence db id events ≡ top (last_number id events) + 1
unfolding get_next_sequence
get_next_sequence_lem db id events =
    let e = db.select_max_lem (λ v. v.execution_id == id) (λ v. v.sequence) events in
    elim (Option-cases (last_number id events)) [
      | inl empty ↦ rw (e, empty, get_next_sequence) refl
      | inr (k, found) ↦ rw (e, found, get_next_sequence) refl
    ]

add_event-IsNumbered :
    (db : Tables) (id : ℕ) (kind : EventType) (w : Stored)
    → IsNumbered w.events
    → IsNumbered (add_event db id kind w).events
unfolding add_event
add_event-IsNumbered db id kind w h j n =
    let next = get_next_sequence db.event_table id w.events in
    let event : TaskExecutionEvent = record {
      execution_id = id;
      sequence = next;
      event_type = kind;
    } in
    ground (
      arith,
      h j n,
      count-append (has_number j n) w.events (event ∷ []),
      get_next_sequence_lem db.event_table id w.events,
      none_above id n w.events,
    )

module _ {S : Type 0} (cl : Client S) where
  record_outcome-IsNumbered :
      (db : Tables) (now : ℕ) (c : PreparedExecutionContext) (a : Call (String × String × String))
      (e : TaskExecution) (w : Stored) (m : ExecutionMetrics)
      → IsNumbered w.events
      → IsNumbered (record_outcome cl db now c a e w m).1.events
  unfolding record_outcome
  record_outcome-IsNumbered db now c (returned (hash, session_id, message_id)) e w m h =
      let e' = started_session cl now c hash session_id message_id e in
      add_event-IsNumbered db e.id execution_dispatched
        (record w { executions = store_execution e' w.executions }) h
  record_outcome-IsNumbered db now c (threw name text) e w m h =
      let e' = record e { error_type = some (class_name name); error_message = some text } in
      add_event-IsNumbered db e.id error (record w { executions = store_execution e' w.executions })
        h

  -- A dispatch, however it ends, keeps the numbers of the events of every execution unique, as the index
  -- of the table demands.
  pub dispatch_prompt-IsNumbered :
      (db : Tables) (now id : ℕ) (c : PreparedExecutionContext) (task_prompt : String) (w : Stored)
      (m : ExecutionMetrics) (s : S)
      → IsNumbered w.events
      → IsNumbered (dispatch_prompt cl db now id c task_prompt w m s).0.1.events
  unfolding dispatch_prompt
  dispatch_prompt-IsNumbered db now id c task_prompt w m s h =
      elim (Option-cases (db.execution_table.get (λ e. e.id == id) w.executions)) [
        | inl missing ↦ rw (missing, dispatch_prompt) h
        | inr (e, found) ↦ elim (Bool-cases (is_queued e.status)) [
          | inl waits ↦
              rw (found, waits, if◌then◌else◌, dispatch_prompt)
                (record_outcome-IsNumbered db now c (send_prompt cl c task_prompt s).0
                  (start_dispatch now e) w m h)
          | inr busy ↦ rw (found, busy, if◌then◌else◌, dispatch_prompt) h
        ]
      ]
