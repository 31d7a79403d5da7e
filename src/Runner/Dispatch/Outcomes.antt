-- ===== src/Runner/Dispatch/Outcomes.antt =====
-- What becomes of an execution that is dispatched (execqueue/runner/dispatch.py).
use exec_queue.Common.{
  ℕ, ◌≤◌, ◌≡◌, ◌⊎◌, refl, ◌∙◌, String, true, false, Option, some, List, [], ◌∷◌, find, count, arith,
  ◌==◌, if◌then◌else◌, Option-cases, Bool-cases, inl, inr,
}
use exec_queue.Database.{Table}
use exec_queue.Model.{dispatching, in_progress, TaskExecution, class_name}
use exec_queue.Observability.{ExecutionMetrics}
use exec_queue.Orchestrator.Context.{PreparedExecutionContext}
use exec_queue.Runner.Dispatch.{
  Call, returned, threw, Client, Tables, Stored, Dispatched, dispatched, not_queued,
  dispatch_failed, add_event, send_prompt, record_outcome, dispatch_prompt, is_queued,
  start_dispatch, started_session, store_execution,
}

abbrev pub execution_of : ℕ → List TaskExecution → Option TaskExecution
execution_of id rows = find (λ e. e.id == id) rows

-- The primary key of the executions.
abbrev pub IsKeyed : List TaskExecution → Type 0
IsKeyed rows = (id : ℕ) → count (λ e. e.id == id) rows ≤ 1

pub execution_of_id :
    (id : ℕ) (rows : List TaskExecution) (e : TaskExecution)
    → execution_of id rows ≡ some e
    → e.id ≡ id
execution_of_id id [] e h = cc
execution_of_id id (r ∷ rs) e h = ground (arith, execution_of_id id rs e, h)

pub execution_of-store_execution :
    (e' : TaskExecution) (id : ℕ) (rows : List TaskExecution) (e : TaskExecution)
    → execution_of id rows ≡ some e
    → e'.id ≡ id
    → execution_of id (store_execution e' rows) ≡ some e'
execution_of-store_execution e' id [] e h same = cc
execution_of-store_execution e' id (r ∷ rs) e h same =
    ground (arith, h, same, execution_of-store_execution e' id rs e)

count-store_execution :
    (e' : TaskExecution) (rows : List TaskExecution) (id : ℕ)
    → count (λ e. e.id == id) (store_execution e' rows) ≡ count (λ e. e.id == id) rows
count-store_execution e' [] id = refl
count-store_execution e' (r ∷ rs) id = ground (arith, count-store_execution e' rs id)

store_execution-IsKeyed :
    (e' : TaskExecution) (rows : List TaskExecution)
    → IsKeyed rows
    → IsKeyed (store_execution e' rows)
store_execution-IsKeyed e' rows k id = ground (arith, k id, count-store_execution e' rows id)

pub get-execution_of :
    (db : Table TaskExecution) (id : ℕ) (rows : List TaskExecution)
    → IsKeyed rows
    → db.get (λ e. e.id == id) rows ≡ execution_of id rows
get-execution_of db id rows k = db.get_lem (λ e. e.id == id) rows (k id)

-- How a dispatch of a queued execution ends: it is in progress, with the message that is reported; or
-- it stays in dispatching, with the error that is reported, and was not dispatched.
abbrev IsEnded : TaskExecution → Dispatched → TaskExecution → Type 0
IsEnded e r e' =
    ((message_id : String) × (r ≡ dispatched e' message_id)
      × (e'.status ≡ in_progress)
      × (e'.opencode_message_id ≡ some message_id))
    ⊎ ((name : String) × (text : String) × (r ≡ dispatch_failed name text)
        × (e'.status ≡ dispatching)
        × (e'.error_type ≡ some (class_name name))
        × (e'.dispatched_at ≡ e.dispatched_at))

busy_once_ended :
    (e : TaskExecution) (r : Dispatched) (e' : TaskExecution)
    → IsEnded e r e'
    → is_queued e'.status ≡ false
busy_once_ended e r e' (inl (_, _, running, _)) = rw running refl
busy_once_ended e r e' (inr (_, _, _, waiting, _, _)) = rw waiting refl

module _ {S : Type 0} (cl : Client S) (db : Tables) where
  record_outcome_lem :
      (now : ℕ) (c : PreparedExecutionContext) (a : Call (String × String × String))
      (e e₀ : TaskExecution) (id : ℕ) (w : Stored) (m : ExecutionMetrics)
      → e.id ≡ id
      → execution_of id w.executions ≡ some e₀
      → e.status ≡ dispatching
      → let (r, w', m') = record_outcome cl db now c a e w m in
        (e' : TaskExecution) × (execution_of id w'.executions ≡ some e') × IsEnded e r e'
  unfolding record_outcome add_event
  record_outcome_lem now c (returned (hash, session_id, message_id)) e e₀ id w m same h q =
      let e' = started_session cl now c hash session_id message_id e in
      (
        e',
        execution_of-store_execution e' id w.executions e₀ h same,
        inl (message_id, refl, refl, refl),
      )
  record_outcome_lem now c (threw name text) e e₀ id w m same h q =
      let e' = record e { error_type = some (class_name name); error_message = some text } in
      (
        e',
        execution_of-store_execution e' id w.executions e₀ h same,
        inr (name, text, refl, q, refl, refl),
      )

  record_outcome-IsKeyed :
      (now : ℕ) (c : PreparedExecutionContext) (a : Call (String × String × String))
      (e : TaskExecution) (w : Stored) (m : ExecutionMetrics)
      → IsKeyed w.executions
      → IsKeyed (record_outcome cl db now c a e w m).1.executions
  unfolding record_outcome add_event
  record_outcome-IsKeyed now c (returned (hash, session_id, message_id)) e w m k =
      store_execution-IsKeyed _ w.executions k
  record_outcome-IsKeyed now c (threw name text) e w m k = store_execution-IsKeyed _ w.executions k

  dispatch_prompt-IsKeyed :
      (now id : ℕ) (c : PreparedExecutionContext) (task_prompt : String) (w : Stored)
      (m : ExecutionMetrics) (s : S)
      → IsKeyed w.executions
      → IsKeyed (dispatch_prompt cl db now id c task_prompt w m s).0.1.executions
  unfolding dispatch_prompt
  dispatch_prompt-IsKeyed now id c task_prompt w m s k =
      elim (Option-cases (db.execution_table.get (λ e. e.id == id) w.executions)) [
        | inl missing ↦ rw (missing, dispatch_prompt) k
        | inr (e, found) ↦ elim (Bool-cases (is_queued e.status)) [
          | inl waits ↦
              rw (found, waits, if◌then◌else◌, dispatch_prompt)
                (record_outcome-IsKeyed now c (send_prompt cl c task_prompt s).0
                  (start_dispatch now e) w m k)
          | inr busy ↦ rw (found, busy, if◌then◌else◌, dispatch_prompt) k
        ]
      ]

  refused_when_busy :
      (now id : ℕ) (c : PreparedExecutionContext) (task_prompt : String) (w : Stored)
      (m : ExecutionMetrics) (s : S) (e : TaskExecution)
      → IsKeyed w.executions
      → execution_of id w.executions ≡ some e
      → is_queued e.status ≡ false
      → dispatch_prompt cl db now id c task_prompt w m s ≡ ((not_queued, w, m), s)
  unfolding dispatch_prompt
  refused_when_busy now id c task_prompt w m s e k h busy =
      let found = get-execution_of db.execution_table id w.executions k ∙ h in
      rw (found, busy, if◌then◌else◌, dispatch_prompt) refl

  -- If no two executions share an identifier, then the dispatch of a queued execution of the table leaves it in
  -- progress, with the message that it gives; or it raises an error, and the execution stays in
  -- dispatching, with that error.
  dispatch_prompt_lem :
      (now id : ℕ) (c : PreparedExecutionContext) (task_prompt : String) (w : Stored)
      (m : ExecutionMetrics) (s : S) (e : TaskExecution)
      → IsKeyed w.executions
      → execution_of id w.executions ≡ some e
      → is_queued e.status ≡ true
      → let (r, w', m') = (dispatch_prompt cl db now id c task_prompt w m s).0 in
        (e' : TaskExecution) × (execution_of id w'.executions ≡ some e') × IsEnded e r e'
  unfolding dispatch_prompt
  dispatch_prompt_lem now id c task_prompt w m s e k h q =
      let found = get-execution_of db.execution_table id w.executions k ∙ h in
      let same = execution_of_id id w.executions e h in
      rw (found, q, if◌then◌else◌, dispatch_prompt)
        (record_outcome_lem now c (send_prompt cl c task_prompt s).0 (start_dispatch now e) e id w m
          same h refl)

  -- If no two executions share an identifier, then of an execution of the table that is queued only one dispatch
  -- reaches the client: whatever became of it, the next is refused, and changes nothing.
  pub dispatch_prompt_again :
      (now id : ℕ) (c : PreparedExecutionContext) (task_prompt : String) (w : Stored)
      (m : ExecutionMetrics) (s : S) (e : TaskExecution)
      → IsKeyed w.executions
      → execution_of id w.executions ≡ some e
      → is_queued e.status ≡ true
      → let ((r, w', m'), s') = dispatch_prompt cl db now id c task_prompt w m s in
        (now' : ℕ) (c' : PreparedExecutionContext) (task_prompt' : String)
        → dispatch_prompt cl db now' id c' task_prompt' w' m' s' ≡ ((not_queued, w', m'), s')
  unfolding dispatch_prompt
  dispatch_prompt_again now id c task_prompt w m s e k h q now' c' task_prompt' =
      let ((r, w', m'), s') = dispatch_prompt cl db now id c task_prompt w m s in
      let (e', h', ended) = dispatch_prompt_lem now id c task_prompt w m s e k h q in
      refused_when_busy now' id c' task_prompt' w' m' s' e'
        (dispatch_prompt-IsKeyed now id c task_prompt w m s k) h' (busy_once_ended e r e' ended)
