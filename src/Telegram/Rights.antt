-- ===== src/Telegram/Rights.antt =====
-- Messages and subscriptions give no rights (execqueue/workers/telegram/persistence.py and auth.py).
use exec_queue.Common.{
  ℕ, ◌≤◌, ◌≡◌, ◌⊎◌, inl, inr, refl, sym, ◌∙◌, ap, String, Bool, false, ◌&&◌, Option, none, some,
  List, [], ◌∷◌, ◌++◌, map, find, any, str_eq, count, count-append, arith, ◌==◌, if◌then◌else◌,
  Option-cases,
}
use exec_queue.Database.{Table}
use exec_queue.Telegram.{
  TelegramUser, first_name, last_name, last_active, commit_user, new_user, find_user,
  upsert_telegram_user, persist_message_user, set_subscription, has_required_role,
}

-- Every identifier is that of one user at most, as the index of the table demands.
abbrev pub IsUnique : List TelegramUser → Type 0
IsUnique rows = (id : ℕ) → count (λ u. u.telegram_id == id) rows ≤ 1

-- What `persist_message_user` writes for a user who is there.
abbrev renamed : ℕ → Option String → Option String → ℕ → TelegramUser → TelegramUser
renamed id first last now u =
    if u.telegram_id == id
    then record u { first_name = first; last_name = last; last_active = some now }
    else u

commit_user-renamed :
    (u : TelegramUser) (first last : Option String) (now : ℕ) (rows : List TelegramUser)
    → commit_user
        (first_name ∷ last_name ∷ last_active ∷ [])
        (record u { first_name = first; last_name = last; last_active = some now })
        rows
      ≡ map (renamed u.telegram_id first last now) rows
unfolding commit_user
commit_user-renamed u first last now [] = refl
commit_user-renamed u first last now (r ∷ rows) =
    ground (arith, commit_user-renamed u first last now rows)

commit_user-nil : (u : TelegramUser) (rows : List TelegramUser) → commit_user [] u rows ≡ rows
unfolding commit_user
commit_user-nil u [] = refl
commit_user-nil u (r ∷ rows) = ground (arith, commit_user-nil u rows)

count-renamed :
    (id i : ℕ) (first last : Option String) (now : ℕ) (rows : List TelegramUser)
    → count (λ u. u.telegram_id == i) (map (renamed id first last now) rows)
      ≡ count (λ u. u.telegram_id == i) rows
count-renamed id i first last now [] = refl
count-renamed id i first last now (r ∷ rows) =
    ground (arith, count-renamed id i first last now rows)

-- The rights of the first user with an identifier.
abbrev rights : Option TelegramUser → Option String × Bool
rights none = (none, false)
rights (some u) = (some u.role, u.is_active)

abbrev allowed : List String → Option String × Bool → Bool
allowed roles (none, is_active) = false
allowed roles (some role, is_active) = is_active && any (λ r. str_eq role r) roles

find-renamed :
    (id i : ℕ) (first last : Option String) (now : ℕ) (rows : List TelegramUser)
    → rights (find (λ u. u.telegram_id == i) (map (renamed id first last now) rows))
      ≡ rights (find (λ u. u.telegram_id == i) rows)
find-renamed id i first last now [] = refl
find-renamed id i first last now (r ∷ rows) = ground (arith, find-renamed id i first last now rows)

count_of_none :
    (id : ℕ) (rows : List TelegramUser)
    → find (λ u. u.telegram_id == id) rows ≡ none
    → count (λ u. u.telegram_id == id) rows ≡ 0
count_of_none id [] h = refl
count_of_none id (r ∷ rows) h = ground (arith, h, count_of_none id rows)

find_id :
    (id : ℕ) (rows : List TelegramUser) (u : TelegramUser)
    → find (λ v. v.telegram_id == id) rows ≡ some u
    → u.telegram_id ≡ id
find_id id [] u h = cc
find_id id (r ∷ rows) u h = ground (arith, h, find_id id rows u)

module _ (db : Table TelegramUser) where
  find_user-eq-find :
      (id : ℕ) (rows : List TelegramUser)
      → IsUnique rows
      → find_user db id rows ≡ find (λ u. u.telegram_id == id) rows
  find_user-eq-find id rows unique = db.get_lem (λ u. u.telegram_id == id) rows (unique id)

  upsert_telegram_user_cases :
      (id : ℕ) (first last : Option String) (now : ℕ) (rows : List TelegramUser)
      → IsUnique rows
      → ((find (λ u. u.telegram_id == id) rows ≡ none)
          × (upsert_telegram_user db id first last now rows
              ≡ rows ++ new_user id first last now ∷ []))
        ⊎ (upsert_telegram_user db id first last now rows ≡ map (renamed id first last now) rows)
  unfolding upsert_telegram_user
  upsert_telegram_user_cases id first last now rows unique =
      let e = find_user-eq-find id rows unique in
      elim (Option-cases (find (λ u. u.telegram_id == id) rows)) [
        | inl new ↦ inl (new, ground (arith, e, new))
        | inr (u, found) ↦ inr (
            ground
              (arith, e, found, find_id id rows u found, commit_user-renamed u first last now rows))
      ]

  -- The answer of the database, for the rows as they are.
  role_of :
      (id : ℕ) (roles : List String) (rows : List TelegramUser)
      → IsUnique rows
      → has_required_role db id roles rows
        ≡ allowed roles (rights (find (λ u. u.telegram_id == id) rows))
  unfolding has_required_role
  role_of id roles rows unique =
      let e = find_user-eq-find id rows unique in
      elim (Option-cases (find (λ u. u.telegram_id == id) rows)) [
        | inl new ↦ ground (arith, e, new)
        | inr (u, found) ↦ ground (arith, e, found)
      ]

  -- The user of a message is there afterwards as often as before, or once if not at all.
  persist_message_user-IsUnique :
      (who : Option (ℕ × Option String × Option String)) (now : ℕ) (rows : List TelegramUser)
      → IsUnique rows
      → IsUnique (persist_message_user db who now rows)
  unfolding persist_message_user
  persist_message_user-IsUnique none now rows unique = unique
  persist_message_user-IsUnique (some (id, first, last)) now rows unique =
      elim (upsert_telegram_user_cases id first last now rows unique) [
        | inl (new, e) ↦ λ i. ground (
          arith,
          e,
          unique i,
          count_of_none id rows new,
          count-append (λ u. u.telegram_id == i) rows (new_user id first last now ∷ []),
        )
        | inr e ↦ λ i. ground (arith, e, unique i, count-renamed id i first last now rows)
      ]

  allowed-new :
      (id i : ℕ) (first last : Option String) (now : ℕ) (roles : List String)
      (rows : List TelegramUser)
      → allowed roles
          (rights (find (λ u. u.telegram_id == i) (rows ++ new_user id first last now ∷ [])))
        ≡ allowed roles (rights (find (λ u. u.telegram_id == i) rows))
  allowed-new id i first last now roles [] = ground arith
  allowed-new id i first last now roles (r ∷ rows) =
      ground (arith, allowed-new id i first last now roles rows)

  allowed-persist_message_user :
      (who : Option (ℕ × Option String × Option String)) (now id : ℕ) (roles : List String)
      (rows : List TelegramUser)
      → IsUnique rows
      → allowed roles
          (rights (find (λ u. u.telegram_id == id) (persist_message_user db who now rows)))
        ≡ allowed roles (rights (find (λ u. u.telegram_id == id) rows))
  unfolding persist_message_user
  allowed-persist_message_user none now id roles rows unique = refl
  allowed-persist_message_user (some (i, first, last)) now id roles rows unique =
      let shown =
        λ (us : List TelegramUser). allowed roles (rights (find (λ u. u.telegram_id == id) us)) in
      elim (upsert_telegram_user_cases i first last now rows unique) [
        | inl (new, e) ↦ ap shown e ∙ allowed-new i id first last now roles rows
        | inr e ↦ ap shown e ∙ ap (allowed roles) (find-renamed i id first last now rows)
      ]

  -- The rows after messages, each with its user and its time.
  abbrev pub after_messages :
      List (Option (ℕ × Option String × Option String) × ℕ) → List TelegramUser → List TelegramUser
  after_messages [] rows = rows
  after_messages ((who, now) ∷ messages) rows =
      after_messages messages (persist_message_user db who now rows)

  -- If every identifier is that of one user at most, then it still is after any messages of any users,
  -- and whether anyone has one of some roles is as before: writing to the bot gives and takes no rights.
  pub has_required_role-after_messages :
      (messages : List (Option (ℕ × Option String × Option String) × ℕ)) (rows : List TelegramUser)
      → IsUnique rows
      → IsUnique (after_messages messages rows)
        × ((id : ℕ) (roles : List String)
            → has_required_role db id roles (after_messages messages rows)
              ≡ has_required_role db id roles rows)
  has_required_role-after_messages [] rows unique = (unique, λ id roles. refl)
  has_required_role-after_messages ((who, now) ∷ messages) rows unique =
      let rows' = persist_message_user db who now rows in
      let unique' = persist_message_user-IsUnique who now rows unique in
      let later = has_required_role-after_messages messages rows' unique' in
      (
        later.0,
        λ id roles.
            later.1 id roles
            ∙ role_of id roles rows' unique'
            ∙ allowed-persist_message_user who now id roles rows unique
            ∙ sym (role_of id roles rows unique),
      )

  -- Subscribing to the startup notification and unsubscribing change no row, whether or not the user is
  -- there and whatever is answered.
  pub set_subscription_lem :
      (subscribed : Bool) (id : ℕ) (rows : List TelegramUser)
      → (set_subscription db subscribed id rows).1 ≡ rows
  unfolding set_subscription
  set_subscription_lem subscribed id rows = elim (Option-cases (find_user db id rows)) [
    | inl missing ↦ ground (arith, missing)
    | inr (u, found) ↦ ground (arith, found, commit_user-nil u rows)
  ]
