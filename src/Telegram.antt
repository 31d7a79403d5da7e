-- ===== src/Telegram.antt =====
-- The users of the Telegram bot: execqueue/workers/telegram/persistence.py, auth.py and
-- notifications.py, with their table of execqueue/db/models.py. No statement of the database fails. A
-- commit writes the columns that were assigned, as SQLAlchemy documents it of a column of plain JSON: a
-- change inside of its value is no assignment. The subscriptions are a dictionary of truth values, as the
-- column is declared.
pub mod Rights
pub mod Subscribers
pub mod Authorised
pub mod ApiClient
pub mod Conversation
pub mod Help
pub mod Process
pub mod Restart
mod Examples
use exec_queue.Common.{
  ℕ, String, Bool, true, false, ◌&&◌, Option, none, some, List, [], ◌∷◌, ◌++◌, map, keep, any,
  non_empty, zero, ◌==◌, str_eq, if◌then◌else◌,
}
use exec_queue.Database.{Table}

pub record TelegramUser : Type 0 where
  pub telegram_id : ℕ
  pub first_name : Option String
  pub last_name : Option String
  pub role : String
  pub subscribed_events : List (String × Bool)
  pub is_active : Bool
  pub last_active : Option ℕ

pub data Column : Type 0 where
  first_name last_name subscribed_events last_active : Column

-- The row with one column of an object.
abbrev write_column : TelegramUser → Column → TelegramUser → TelegramUser
write_column u first_name row = record row { first_name = u.first_name }
write_column u last_name row = record row { last_name = u.last_name }
write_column u subscribed_events row = record row { subscribed_events = u.subscribed_events }
write_column u last_active row = record row { last_active = u.last_active }

abbrev write_columns : TelegramUser → List Column → TelegramUser → TelegramUser
write_columns u [] row = row
write_columns u (c ∷ cs) row = write_column u c (write_columns u cs row)

-- The commit of an object of which the columns were assigned.
unfoldable pub commit_user : List Column → TelegramUser → List TelegramUser → List TelegramUser
commit_user columns u =
    map (λ row. if row.telegram_id == u.telegram_id then write_columns u columns row else row)

-- A new row has the defaults of the table.
abbrev pub new_user : ℕ → Option String → Option String → ℕ → TelegramUser
new_user id first last now = record {
  telegram_id = id;
  first_name = first;
  last_name = last;
  role = "user";
  subscribed_events = [];
  is_active = false;
  last_active = some now;
}

abbrev pub subscription_startup : String
subscription_startup = "TELEGRAM_NOTIFICATION_STARTUP"

-- `events[key] = value`
abbrev set_event : String → Bool → List (String × Bool) → List (String × Bool)
set_event key v [] = (key, v) ∷ []
set_event key v ((k, w) ∷ events) =
    let rest = set_event key v events in if str_eq k key then (k, v) ∷ events else (k, w) ∷ rest

-- `events.get(key, False)`
abbrev get_event : String → List (String × Bool) → Bool
get_event key [] = false
get_event key ((k, v) ∷ events) =
    let rest = get_event key events in if str_eq k key then v else rest

abbrev pub is_subscribed : TelegramUser → Bool
is_subscribed u = get_event subscription_startup u.subscribed_events

-- `role in roles`
abbrev pub has_role : Option String → List String → Bool
has_role none roles = false
has_role (some role) roles = any (λ r. str_eq role r) roles

module _ (db : Table TelegramUser) where
  -- The user with an identifier, which is unique.
  abbrev pub find_user : ℕ → List TelegramUser → Option TelegramUser
  find_user id rows = db.get (λ u. u.telegram_id == id) rows

  -- `upsert_telegram_user`: the rows after it.
  unfoldable pub upsert_telegram_user :
      ℕ → Option String → Option String → ℕ → List TelegramUser → List TelegramUser
  unfolding commit_user
  upsert_telegram_user id first last now rows = elim (find_user id rows) [
    | none ↦ rows ++ new_user id first last now ∷ []
    | some u ↦
        commit_user (first_name ∷ last_name ∷ last_active ∷ [])
          (record u { first_name = first; last_name = last; last_active = some now }) rows
  ]

  -- `persist_message_user`: `none` stands for an update without a user.
  pub persist_message_user :
      Option (ℕ × Option String × Option String) → ℕ → List TelegramUser → List TelegramUser
  unfolding upsert_telegram_user
  persist_message_user none now rows = rows
  persist_message_user (some (id, first, last)) now rows =
      upsert_telegram_user id first last now rows

  -- `subscribe_user_to_startup` and `unsubscribe_user_from_startup`, by the value: the dictionary of the
  -- object is changed, and no column assigned.
  unfoldable pub set_subscription : Bool → ℕ → List TelegramUser → Bool × List TelegramUser
  unfolding commit_user
  set_subscription subscribed id rows = elim (find_user id rows) [
    | none ↦ (false, rows)
    | some u ↦
        let events = set_event subscription_startup subscribed u.subscribed_events in
        (true, commit_user [] (record u { subscribed_events = events }) rows)
  ]

  -- `get_user_info`
  unfoldable pub get_user_info : ℕ → List TelegramUser → Option String × Bool
  get_user_info id rows = elim (find_user id rows) [
    | none ↦ (none, false)
    | some u ↦ (some u.role, u.is_active)
  ]

  unfoldable pub has_required_role : ℕ → List String → List TelegramUser → Bool
  unfolding get_user_info
  has_required_role id required_roles rows =
      let (role, is_active) = get_user_info id rows in is_active && has_role role required_roles

  -- `get_startup_notification_recipients`, by the dialect: the test is in the query or behind it.
  unfoldable pub get_startup_notification_recipients : Bool → List TelegramUser → List ℕ
  get_startup_notification_recipients postgresql rows =
      if postgresql
      then map (λ u. u.telegram_id) (db.select_where (λ u. u.is_active && is_subscribed u) rows)
      else map (λ u. u.telegram_id) (keep is_subscribed (db.select_where (λ u. u.is_active) rows))

  -- `update_user_last_active`
  pub update_user_last_active : ℕ → ℕ → List TelegramUser → List TelegramUser
  unfolding commit_user
  update_user_last_active id now rows = elim (find_user id rows) [
    | none ↦ rows
    | some u ↦ commit_user (last_active ∷ []) (record u { last_active = some now }) rows
  ]

  pub is_user_subscribed_to_startup : ℕ → List TelegramUser → Bool
  is_user_subscribed_to_startup id rows = elim (find_user id rows) [
    | none ↦ false
    | some u ↦ u.is_active && is_subscribed u
  ]
