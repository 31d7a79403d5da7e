-- ===== src/Runner/Dispatch/Sent.antt =====
-- What a dispatch asks of the client, and what it makes of the answers (execqueue/runner/dispatch.py).
use Prim.Native.String.{◌++◌ as ◌+++◌}
use exec_queue.Common.{
  ℕ, ◌≡◌, ◌⊎◌, refl, ◌∙◌, sym, ap, String, true, none, some, arith, if◌then◌else◌, Option-cases,
  inl, inr,
}
use mathlib.Core.Path.{subst}
use exec_queue.Model.{in_progress, dispatching, TaskExecution, class_name}
use exec_queue.Observability.{ExecutionMetrics}
use exec_queue.Orchestrator.Context.{PreparedExecutionContext}
use exec_queue.Runner.Prompts.{build_prompt, number_text}
use exec_queue.Runner.Dispatch.{
  Call, returned, threw, Client, Tables, Stored, Dispatched, dispatched, dispatch_failed,
  send_prompt, dispatch_prompt, is_queued, start_dispatch, started_session, record_outcome,
  add_event,
}
use exec_queue.Runner.Dispatch.Outcomes.{
  IsKeyed, execution_of, execution_of_id, get-execution_of, execution_of-store_execution,
}

-- The text of the exception for a context without a number and a type.
abbrev pub no_title : String
no_title = "'NoneType' object has no attribute 'title'"

-- The execution is in progress and names the session and the message, which the caller is given.
abbrev pub IsStarted : String → String → Dispatched → TaskExecution → Type 0
IsStarted session_id message_id r e =
    (r ≡ dispatched e message_id)
    × (e.status ≡ in_progress)
    × (e.opencode_session_id ≡ some session_id)
    × (e.opencode_message_id ≡ some message_id)

-- The execution stays in dispatching, with the class and the text of the exception that is reported.
abbrev pub IsFailed : String → String → Dispatched → TaskExecution → Type 0
IsFailed name message r e =
    (r ≡ dispatch_failed name message)
    × (e.status ≡ dispatching)
    × (e.error_type ≡ some (class_name name))
    × (e.error_message ≡ some message)

module _ {S : Type 0} (cl : Client S) where
  abbrev pub session_name : PreparedExecutionContext → String
  session_name c = "execqueue-task-" +++ number_text cl.decimal cl.title c +++ "-v" +++ c.version

  -- From the state `s` of the client to `s'`, by its calls: no prompt could be made and none was made;
  -- or a session was asked for and refused; or the prompt was sent in the new session, and refused; or
  -- it was sent and accepted.
  abbrev pub IsSent :
      PreparedExecutionContext → String → S → S → Dispatched → TaskExecution → Type 0
  IsSent c task_prompt s s' r e =
      ((build_prompt cl.decimal cl.title c task_prompt ≡ none)
        × (s' ≡ s)
        × IsFailed "AttributeError" no_title r e)
      ⊎ ((prompt : String) × (build_prompt cl.decimal cl.title c task_prompt ≡ some prompt)
          × (((name : String) × (message : String) × (cl.create_session (session_name c) s
                  ≡ (threw name message, s'))
                × IsFailed name message r e)
              ⊎ ((session_id : String) × (s₁ : S) × (cl.create_session (session_name c) s
                    ≡ (returned session_id, s₁))
                  × (((name : String) × (message : String) × (cl.dispatch_message session_id prompt
                            s₁
                          ≡ (threw name message, s'))
                        × IsFailed name message r e)
                      ⊎ ((message_id : String) × (cl.dispatch_message session_id prompt s₁
                            ≡ (returned message_id, s'))
                          × IsStarted session_id message_id r e)))))

  -- The same of the two calls alone.
  abbrev IsCalled :
      PreparedExecutionContext → String → S → Call (String × String × String) × S → Type 0
  IsCalled c task_prompt s m =
      ((build_prompt cl.decimal cl.title c task_prompt ≡ none)
        × (m ≡ (threw "AttributeError" no_title, s)))
      ⊎ ((prompt : String) × (build_prompt cl.decimal cl.title c task_prompt ≡ some prompt)
          × (((name : String) × (message : String) × (cl.create_session (session_name c) s
                  ≡ (threw name message, m.1))
                × (m.0 ≡ threw name message))
              ⊎ ((session_id : String) × (s₁ : S) × (cl.create_session (session_name c) s
                    ≡ (returned session_id, s₁))
                  × (((name : String) × (message : String) × (cl.dispatch_message session_id prompt
                            s₁
                          ≡ (threw name message, m.1))
                        × (m.0 ≡ threw name message))
                      ⊎ ((message_id : String) × (cl.dispatch_message session_id prompt s₁
                            ≡ (returned message_id, m.1))
                          × (m.0 ≡ returned (cl.prompt_hash prompt, session_id, message_id)))))))

  Call-cases :
      (m : Call String × S)
      → ((name : String) × (message : String) × (m ≡ (threw name message, m.1)))
        ⊎ ((x : String) × (m ≡ (returned x, m.1)))
  Call-cases (threw name message, s) = inl (name, message, refl)
  Call-cases (returned x, s) = inr (x, refl)

  send_prompt_lem :
      (c : PreparedExecutionContext) (task_prompt : String) (s : S)
      → IsCalled c task_prompt s (send_prompt cl c task_prompt s)
  unfolding send_prompt
  send_prompt_lem c task_prompt s =
      elim (Option-cases (build_prompt cl.decimal cl.title c task_prompt)) [
        | inl no_prompt ↦ inl (no_prompt, ground (arith, no_prompt))
        | inr (prompt, made) ↦ elim (Call-cases (cl.create_session (session_name c) s)) [
          | inl (name, message, refused) ↦ inr (
            prompt,
            made,
            inl (name, message, ground (arith, made, refused), ground (arith, made, refused)),
          )
          | inr (session_id, opened) ↦
              let s₁ = (cl.create_session (session_name c) s).1 in
              elim (Call-cases (cl.dispatch_message session_id prompt s₁)) [
                | inl (name, message, refused) ↦ inr (
                  prompt,
                  made,
                  inr (
                    session_id,
                    s₁,
                    opened,
                    inl (
                      name,
                      message,
                      ground (arith, made, opened, refused),
                      ground (arith, made, opened, refused),
                    ),
                  ),
                )
                | inr (message_id, sent) ↦ inr (
                  prompt,
                  made,
                  inr (
                    session_id,
                    s₁,
                    opened,
                    inr (
                      message_id,
                      ground (arith, made, opened, sent),
                      ground (arith, made, opened, sent),
                    ),
                  ),
                )
              ]
        ]
      ]

module _ {S : Type 0} (cl : Client S) (db : Tables) where
  -- Some row of the table is what a dispatch has made of the execution.
  abbrev Leaves :
      ℕ → (Dispatched → TaskExecution → Type 0) → Dispatched × Stored × ExecutionMetrics → Type 0
  Leaves id P (r, w, m) = (e : TaskExecution) × (execution_of id w.executions ≡ some e) × P r e

  record_outcome-IsFailed :
      (now id : ℕ) (c : PreparedExecutionContext) (name message : String) (e e₀ : TaskExecution)
      (w : Stored) (m : ExecutionMetrics)
      → e.id ≡ id
      → execution_of id w.executions ≡ some e₀
      → e.status ≡ dispatching
      → Leaves id (IsFailed name message) (record_outcome cl db now c (threw name message) e w m)
  unfolding record_outcome add_event
  record_outcome-IsFailed now id c name message e e₀ w m same h waits =
      let e' = record e { error_type = some (class_name name); error_message = some message } in
      (e', execution_of-store_execution e' id w.executions e₀ h same, (refl, waits, refl, refl))

  record_outcome-IsStarted :
      (now id : ℕ) (c : PreparedExecutionContext) (hash session_id message_id : String)
      (e e₀ : TaskExecution) (w : Stored) (m : ExecutionMetrics)
      → e.id ≡ id
      → execution_of id w.executions ≡ some e₀
      → Leaves id
          (IsStarted session_id message_id)
          (record_outcome cl db now c (returned (hash, session_id, message_id)) e w m)
  unfolding record_outcome add_event
  record_outcome-IsStarted now id c hash session_id message_id e e₀ w m same h =
      let e' = started_session cl now c hash session_id message_id e in
      (e', execution_of-store_execution e' id w.executions e₀ h same, (refl, refl, refl, refl))

  module _ (now id : ℕ) (c : PreparedExecutionContext) (task_prompt : String) (s : S)
      (e e₀ : TaskExecution) (w : Stored) (m : ExecutionMetrics) (same : e.id ≡ id)
      (h : execution_of id w.executions ≡ some e₀) (waits : e.status ≡ dispatching) where
    record_outcome-IsSent :
        (a : Call (String × String × String) × S)
        → IsCalled cl c task_prompt s a
        → Leaves id (IsSent cl c task_prompt s a.1) (record_outcome cl db now c a.0 e w m)
    record_outcome-IsSent a (inl (no_prompt, stays)) =
        let (e', found, fails) =
          subst
            (λ x.
              Leaves id (IsFailed "AttributeError" no_title) (record_outcome cl db now c x e w m))
            (sym (ap (λ x. x.0) stays))
            (record_outcome-IsFailed now id c "AttributeError" no_title e e₀ w m same h waits) in
        (e', found, inl (no_prompt, ap (λ x. x.1) stays, fails))
    record_outcome-IsSent a (inr (prompt, made, inl (name, message, refused, thrown))) =
        let (e', found, fails) =
          subst (λ x. Leaves id (IsFailed name message) (record_outcome cl db now c x e w m))
            (sym thrown) (record_outcome-IsFailed now id c name message e e₀ w m same h waits) in
        (e', found, inr (prompt, made, inl (name, message, refused, fails)))
    record_outcome-IsSent a
          (inr (prompt, made, inr (session_id, s₁, opened, inl (name, message, refused, thrown)))) =
        let (e', found, fails) =
          subst (λ x. Leaves id (IsFailed name message) (record_outcome cl db now c x e w m))
            (sym thrown) (record_outcome-IsFailed now id c name message e e₀ w m same h waits) in
        (
          e',
          found,
          inr (prompt, made, inr (session_id, s₁, opened, inl (name, message, refused, fails))),
        )
    record_outcome-IsSent a
          (inr (prompt, made, inr (session_id, s₁, opened, inr (message_id, sent, given)))) =
        let (e', found, starts) =
          subst
            (λ x. Leaves id (IsStarted session_id message_id) (record_outcome cl db now c x e w m))
            (sym given)
            (record_outcome-IsStarted now id c (cl.prompt_hash prompt) session_id message_id e e₀ w
              m same h) in
        (
          e',
          found,
          inr (prompt, made, inr (session_id, s₁, opened, inr (message_id, sent, starts))),
        )

  -- If no two executions share an identifier, then the dispatch of a queued execution of the table makes
  -- the prompt of the context, asks the client for a session under the name of the task, and sends the
  -- prompt in that session. If the message is accepted, the execution is in progress with the
  -- identifiers that the client gave, and is returned with that of the message. If no prompt can be
  -- made, nothing is asked; and there, as where a call throws, which is then the last one, that
  -- exception is reported, and the execution stays in dispatching with its class and text.
  pub dispatch_prompt-IsSent :
      (now id : ℕ) (c : PreparedExecutionContext) (task_prompt : String) (w : Stored)
      (m : ExecutionMetrics) (s : S) (e : TaskExecution)
      → IsKeyed w.executions
      → execution_of id w.executions ≡ some e
      → is_queued e.status ≡ true
      → let ((r, w', m'), s') = dispatch_prompt cl db now id c task_prompt w m s in
        (e' : TaskExecution) × (execution_of id w'.executions ≡ some e')
        × IsSent cl c task_prompt s s' r e'
  unfolding dispatch_prompt
  dispatch_prompt-IsSent now id c task_prompt w m s e k h q =
      let found = get-execution_of db.execution_table id w.executions k ∙ h in
      let same = execution_of_id id w.executions e h in
      rw (found, q, if◌then◌else◌, dispatch_prompt)
        (record_outcome-IsSent now id c task_prompt s (start_dispatch now e) e w m same h refl
          (send_prompt cl c task_prompt s) (send_prompt_lem cl c task_prompt s))
