-- ===== src/Telegram/Conversation/Requests.antt =====
-- What the conversation of /create sends to the API (execqueue/workers/telegram/commands.py and
-- execqueue/workers/telegram/api_client.py).
use exec_queue.Common.{
  ℕ, ◌≡◌, refl, sym, ◌∙◌, String, true, Option, none, some, List, [], ◌∷◌, any, str_eq, non_empty,
  strip, arith, if◌then◌else◌, Bool-cases, inl, inr,
}
use mathlib.Core.Path.{subst}
use exec_queue.Database.{Table}
use exec_queue.Telegram.{TelegramUser, has_required_role}
use exec_queue.Telegram.Restart.{Reply}
use exec_queue.Telegram.ApiClient.{TaskPayload, create_task, normalized_title}
use exec_queue.Telegram.Conversation.Steps.{
  creators, task_types, IsProper, IsTyped, IsReady, create_start-IsReady, create_task_type-IsReady,
  create_title-IsReady,
}
use exec_queue.Telegram.Conversation.{
  blank_prompt, creating, success_notice, failure_notice, no_data, Step, type_step, title_step,
  prompt_step, ended, UserData, Turn, turn, Input, create_command, cancel_command, message_text,
  create_prompt, converse, conversation,
}

module _ (db : Table TelegramUser) (decimal : ℕ → String) (rows : List TelegramUser)
    (user : ℕ) where
  module _ {κ} {S : Type 0} (post : TaskPayload → S → Reply × S) (P : S → Type κ)
      (posts : (r : TaskPayload) (s : S)
        → IsProper db decimal rows user r
        → P s
        → P (post r s).1) where
    create_task-keeps :
        (type prompt : String) (title : Option String) (s : S)
        → has_required_role db user creators rows ≡ true
        → any (str_eq type) task_types ≡ true
        → non_empty prompt ≡ true
        → P s
        → P (create_task post type prompt (decimal user) title s).1
    unfolding create_task
    create_task-keeps type prompt title s granted known given h =
        let payload : TaskPayload = record {
          type = type;
          prompt = prompt;
          created_by_type = "user";
          created_by_ref = decimal user;
          title = none;
        } in
        let titled = record payload { title = some (normalized_title title) } in
        elim (Bool-cases (str_eq type "requirement")) [
          | inr direct ↦
              subst P (ground (arith, direct))
                (posts payload s (granted, refl, refl, known, given, sym direct) h)
          | inl requirement ↦ elim (Bool-cases (non_empty (normalized_title title))) [
            | inl named ↦
                subst P (ground (arith, requirement, named))
                  (posts titled s (granted, refl, refl, known, given, named ∙ sym requirement) h)
            | inr blank ↦ subst P (ground (arith, requirement, blank)) h
          ]
        ]

    -- What a turn leaves.
    abbrev IsKept : Turn × S → Type κ
    IsKept (t, s) = IsReady db decimal rows user t.step t.user_data × P s

    IsKept-by : (o o' : Turn × S) → o ≡ o' → IsKept o' → IsKept o
    IsKept-by o o' e h = subst IsKept (sym e) h

    create_prompt-IsKept :
        (message : String) (d : UserData) (s : S)
        → IsTyped db decimal rows user d
        → P s
        → IsKept (create_prompt post message d s)
    unfolding create_prompt
    create_prompt-IsKept message d s ((granted, ref), (type, typed, known)) h =
        let made = create_task post type (strip message) (decimal user) d.title s in
        let notice = if made.0.0 then success_notice made.0.1 else failure_notice made.0.1 in
        elim (Bool-cases (non_empty (strip message))) [
          | inl given ↦
              IsKept-by (create_prompt post message d s)
                (turn ended no_data (creating ∷ notice ∷ []), made.1)
                (ground (arith, given, ref, typed))
                (tt, create_task-keeps type (strip message) d.title s granted known given h)
          | inr blank ↦
              IsKept-by (create_prompt post message d s) (turn prompt_step d (blank_prompt ∷ []), s)
                (ground (arith, blank)) (((granted, ref), (type, typed, known)), h)
        ]

    converse-IsKept :
        (i : Input) (step : Step) (d : UserData) (s : S)
        → IsReady db decimal rows user step d
        → P s
        → IsKept (converse post db decimal rows user i step d s)
    unfolding converse
    converse-IsKept create_command ended d s ready h =
        (create_start-IsReady db decimal rows user d, h)
    converse-IsKept create_command type_step d s ready h = (ready, h)
    converse-IsKept create_command title_step d s ready h = (ready, h)
    converse-IsKept create_command prompt_step d s ready h = (ready, h)
    converse-IsKept cancel_command ended d s ready h = (ready, h)
    converse-IsKept cancel_command type_step d s ready h = (tt, h)
    converse-IsKept cancel_command title_step d s ready h = (tt, h)
    converse-IsKept cancel_command prompt_step d s ready h = (tt, h)
    converse-IsKept (message_text t) ended d s ready h = (ready, h)
    converse-IsKept (message_text t) type_step d s ready h =
        (create_task_type-IsReady db decimal rows user t d ready, h)
    converse-IsKept (message_text t) title_step d s ready h =
        (create_title-IsReady db decimal rows user t d ready, h)
    converse-IsKept (message_text t) prompt_step d s ready h = create_prompt-IsKept t d s ready h

    conversation-keeps :
        (is : List Input) (step : Step) (d : UserData) (s : S)
        → IsReady db decimal rows user step d
        → P s
        → P (conversation post db decimal rows user is step d s).1
    unfolding conversation
    conversation-keeps [] step d s ready h = h
    conversation-keeps (i ∷ is) step d s ready h =
        let kept = converse-IsKept i step d s ready h in
        let (t, s') = converse post db decimal rows user i step d s in
        conversation-keeps is t.step t.user_data s' kept.0 kept.1

    -- Whatever a user sends, a conversation makes only proper requests of its user: what every proper
    -- request keeps of the state of the API is kept, if the rights do not change meanwhile. So nobody
    -- but an active admin or operator changes anything.
    pub conversation_requests :
        (is : List Input) (d : UserData) (s : S)
        → P s
        → P (conversation post db decimal rows user is ended d s).1
    conversation_requests is d s h = conversation-keeps is ended d s tt h
