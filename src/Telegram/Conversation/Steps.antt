-- ===== src/Telegram/Conversation/Steps.antt =====
-- What holds in the steps of the conversation of /create (execqueue/workers/telegram/commands.py).
use exec_queue.Common.{
  ℕ, ◌≡◌, refl, sym, String, Bool, true, false, Option, none, some, List, [], ◌∷◌, any, str_eq,
  non_empty, strip, arith, Bool-cases, inl, inr,
}
use mathlib.Core.Path.{subst}
use exec_queue.Database.{Table}
use exec_queue.Telegram.{TelegramUser, get_user_info, has_role, has_required_role}
use exec_queue.Telegram.ApiClient.{TaskPayload}
use exec_queue.Telegram.Conversation.{
  not_active, access_denied, which_type, which_prompt, which_title, invalid_choice, blank_title,
  Step, type_step, title_step, prompt_step, ended, UserData, Turn, turn, create_start,
  create_task_type, create_title,
}

abbrev pub creators : List String
creators = "admin" ∷ "operator" ∷ []

abbrev has_title : Option String → Bool
has_title none = false
has_title (some t) = non_empty t

abbrev pub task_types : List String
task_types = "planning" ∷ "execution" ∷ "analysis" ∷ "requirement" ∷ []

module _ (db : Table TelegramUser) (decimal : ℕ → String) (rows : List TelegramUser)
    (user : ℕ) where
  -- A request that an active admin or operator has made of its own: a known type, a prompt that is not
  -- blank, and a title that is not blank exactly for a requirement.
  abbrev pub IsProper : TaskPayload → Type 0
  IsProper r =
      (has_required_role db user creators rows ≡ true)
      × (r.created_by_type ≡ "user")
      × (r.created_by_ref ≡ decimal user)
      × (any (str_eq r.type) task_types ≡ true)
      × (non_empty r.prompt ≡ true)
      × (has_title r.title ≡ str_eq r.type "requirement")

  abbrev pub IsBegun : UserData → Type 0
  IsBegun d =
      (has_required_role db user creators rows ≡ true) × (d.created_by_ref ≡ some (decimal user))

  abbrev pub IsTyped : UserData → Type 0
  IsTyped d = IsBegun d × ((t : String) × (d.type ≡ some t) × (any (str_eq t) task_types ≡ true))

  -- What holds of the keys in each step.
  abbrev pub IsReady : Step → UserData → Type 0
  IsReady ended d = Unit
  IsReady type_step d = IsBegun d
  IsReady title_step d = IsTyped d
  IsReady prompt_step d = IsTyped d

  IsReady-by : (t t' : Turn) → t ≡ t' → IsReady t'.step t'.user_data → IsReady t.step t.user_data
  IsReady-by t t' e h = subst (λ u. IsReady u.step u.user_data) (sym e) h

  has_rights :
      (get_user_info db user rows).1 ≡ true
      → has_role (get_user_info db user rows).0 creators ≡ true
      → has_required_role db user creators rows ≡ true
  unfolding has_required_role
  has_rights active granted = ground (arith, active, granted)

  pub create_start-IsReady :
      (d : UserData) → let t = create_start db decimal rows user d in IsReady t.step t.user_data
  unfolding create_start
  create_start-IsReady d =
      let (role, is_active) = get_user_info db user rows in
      elim (Bool-cases is_active) [
        | inr inactive ↦
            IsReady-by (create_start db decimal rows user d) (turn ended d (not_active ∷ []))
              (ground (arith, inactive)) tt
        | inl active ↦ elim (Bool-cases (has_role role creators)) [
          | inr other ↦
              IsReady-by (create_start db decimal rows user d) (turn ended d (access_denied ∷ []))
                (ground (arith, active, other)) tt
          | inl granted ↦
              IsReady-by (create_start db decimal rows user d)
                (turn type_step (record d { created_by_ref = some (decimal user) })
                  (which_type ∷ []))
                (ground (arith, active, granted)) (has_rights active granted, refl)
        ]
      ]

  pub create_task_type-IsReady :
      (message : String) (d : UserData)
      → IsBegun d
      → let t = create_task_type message d in IsReady t.step t.user_data
  unfolding create_task_type
  create_task_type-IsReady message d begun =
      let choice = strip message in
      elim (Bool-cases (str_eq choice "1")) [
        | inl one ↦
            IsReady-by (create_task_type message d)
              (turn prompt_step (record d { type = some "planning" }) (which_prompt ∷ []))
              (ground (arith, one)) (begun, ("planning", refl, refl))
        | inr ne_one ↦ elim (Bool-cases (str_eq choice "2")) [
          | inl two ↦
              IsReady-by (create_task_type message d)
                (turn prompt_step (record d { type = some "execution" }) (which_prompt ∷ []))
                (ground (arith, ne_one, two)) (begun, ("execution", refl, refl))
          | inr ne_two ↦ elim (Bool-cases (str_eq choice "3")) [
            | inl three ↦
                IsReady-by (create_task_type message d)
                  (turn prompt_step (record d { type = some "analysis" }) (which_prompt ∷ []))
                  (ground (arith, ne_one, ne_two, three)) (begun, ("analysis", refl, refl))
            | inr ne_three ↦ elim (Bool-cases (str_eq choice "4")) [
              | inl four ↦
                  IsReady-by (create_task_type message d)
                    (turn title_step (record d { type = some "requirement" }) (which_title ∷ []))
                    (ground (arith, ne_one, ne_two, ne_three, four))
                    (begun, ("requirement", refl, refl))
              | inr ne_four ↦
                  IsReady-by (create_task_type message d) (turn type_step d (invalid_choice ∷ []))
                    (ground (arith, ne_one, ne_two, ne_three, ne_four)) begun
            ]
          ]
        ]
      ]

  pub create_title-IsReady :
      (message : String) (d : UserData)
      → IsTyped d
      → let t = create_title message d in IsReady t.step t.user_data
  unfolding create_title
  create_title-IsReady message d typed = elim (Bool-cases (non_empty (strip message))) [
    | inl given ↦
        IsReady-by (create_title message d)
          (turn prompt_step (record d { title = some (strip message) }) (which_prompt ∷ []))
          (ground (arith, given)) typed
    | inr blank ↦
        IsReady-by (create_title message d) (turn title_step d (blank_title ∷ []))
          (ground (arith, blank)) typed
  ]
