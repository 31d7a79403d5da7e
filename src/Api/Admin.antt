-- ===== src/Api/Admin.antt =====
-- The guard of execqueue/api/dependencies.py and the restarts of execqueue/api/routes/system.py behind
-- it. `to_int` stands for `int` of a text, without the negative numbers, which no user has. Log lines
-- are left out.
use Prim.Native.Char.{code}
use exec_queue.Common.{
  ℕ, String, Bool, true, not, ◌&&◌, Option, none, some, List, ltb, str_eq, non_empty, if◌then◌else◌,
}
use exec_queue.Database.{Table}
use exec_queue.Telegram.{TelegramUser, find_user}

-- What the guard does: it lets the request pass, answers 403 or 503, or raises an exception of Python.
pub data Admission : Type 0 where
  admitted forbidden not_configured type_error : Admission

abbrev is_ascii : String → Bool
is_ascii String.[] = true
is_ascii (String.◌∷◌ c t) = ltb (code c) 128 && is_ascii t

-- `secrets.compare_digest`, which takes texts of ASCII only.
abbrev compare_token : String → String → Admission
compare_token given configured =
    if not (is_ascii given && is_ascii configured)
    then type_error
    else if str_eq given configured
    then admitted
    else forbidden

abbrev check_token : Option String → Option String → Admission
check_token configured given = elim configured [
  | none ↦ not_configured
  | some token ↦ if not (non_empty token) then not_configured else elim given [
    | none ↦ forbidden
    | some t ↦ if non_empty t then compare_token t token else forbidden
  ]
]

abbrev check_user : Option TelegramUser → Admission
check_user none = forbidden
check_user (some u) =
    if not u.is_active
    then forbidden
    else if not (str_eq u.role "admin")
    then forbidden
    else admitted

module _ (db : Table TelegramUser) (to_int : String → Option ℕ) where
  unfoldable pub require_system_admin :
      Option String → Option String → Option String → List TelegramUser → Admission
  require_system_admin configured x_admin_token x_telegram_user_id rows = elim x_telegram_user_id [
    | none ↦ check_token configured x_admin_token
    | some header ↦
        if not (non_empty header)
        then check_token configured x_admin_token
        else elim (to_int header) [ none ↦ forbidden | some id ↦ check_user (find_user db id rows) ]
  ]

-- How a file operation or the start of a process fails.
pub data OsError : Type 0 where
  permission_error other_error : OsError

-- The host: a process has its number.
pub record Host (S : Type 0) : Type 0 where
  pub exists : String → S → Bool
  pub popen : String → S → (Option OsError × ℕ) × S
  pub append_log : String → ℕ → S → Option OsError × S
  pub make_directory : S → Bool × S

pub data Service : Type 0 where
  whole_system api telegram_bot opencode : Service

abbrev pub script_of : Service → String
script_of whole_system = "global_restart.sh"
script_of api = "api_restart.sh"
script_of telegram_bot = "telegram_restart.sh"
script_of opencode = "opencode_restart.sh"

-- The answers: the process was started, or 500 without a script, 403, 500, or what the guard answers;
-- without the directory of the logs an exception escapes.
pub data RestartAnswer : Type 0 where
  initiated : ℕ → RestartAnswer
  script_not_found script_not_executable initiation_failed crashed : RestartAnswer
  rejected : Admission → RestartAnswer

abbrev pub answer_error : OsError → RestartAnswer
answer_error permission_error = script_not_executable
answer_error other_error = initiation_failed

module _ {S : Type 0} (h : Host S) where
  -- An error after the start of the process is answered like one of the start.
  unfoldable pub execute_restart_script : Service → S → RestartAnswer × S
  execute_restart_script service s =
      let (made, s₁) = h.make_directory s in
      let ((failed, pid), s₂) = h.popen (script_of service) s₁ in
      let (unlogged, s₃) = h.append_log (script_of service) pid s₂ in
      if not (h.exists (script_of service) s)
      then (script_not_found, s)
      else if not made
      then (crashed, s₁)
      else elim failed [
        | some e ↦ (answer_error e, s₂)
        | none ↦ elim unlogged [ some e ↦ (answer_error e, s₃) | none ↦ (initiated pid, s₃) ]
      ]

  -- A route for a restart, behind its guard.
  unfoldable pub restart_route : Admission → Service → S → RestartAnswer × S
  restart_route admission service s = elim admission [
    | admitted ↦ execute_restart_script service s
    | forbidden ↦ (rejected forbidden, s)
    | not_configured ↦ (rejected not_configured, s)
    | type_error ↦ (rejected type_error, s)
  ]
