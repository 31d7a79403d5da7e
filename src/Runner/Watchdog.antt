-- ===== src/Runner/Watchdog.antt =====
-- execqueue/runner/watchdog.py, the class `Watchdog`, with its settings of execqueue/runner/config.py.
-- Times are seconds of the monotonic clock, whole ones. The loop is cut at its polls: a step is a poll, a
-- call of a method, or the end of the background task by an exception; a stop cancels the task in its
-- sleep. The callback for a ping that was sent is left out,
-- and of the answer of the server only its status is read.
mod Examples
pub mod Pings
use exec_queue.Common.{
  ℕ, ◌+◌, ◌≡◌, String, Bool, true, false, not, ◌||◌, ◌&&◌, Option, none, some, ltb, leb, ◌==◌,
  truthy, if◌then◌else◌,
}

pub record WatchdogConfig : Type 0 where
  pub enabled : Bool
  pub session_id : Option String
  pub idle_seconds : ℕ
  pub max_continues : ℕ

-- The internal state; `task_alive` is that the background task is there and not done.
pub record Watchdog : Type 0 where
  pub running : Bool
  pub task_alive : Bool
  pub http_client : Bool
  pub continues_sent : ℕ
  pub last_activity_time : Option ℕ

abbrev pub new_watchdog : Watchdog
new_watchdog = record {
  running = false;
  task_alive = false;
  http_client = false;
  continues_sent = 0;
  last_activity_time = none;
}

abbrev pub is_running : Watchdog → Bool
is_running w = w.running && w.task_alive

pub record_activity : ℕ → Watchdog → Watchdog
record_activity now w = record w { last_activity_time = some now }

pub start : WatchdogConfig → Watchdog → Watchdog
start c w =
    if not c.enabled
    then w
    else if not (truthy c.session_id)
    then w
    else if is_running w
    then w
    else record w { running = true; task_alive = true; http_client = true }

pub stop : Watchdog → Watchdog
stop w =
    if not w.running
    then w
    else record w { running = false; task_alive = false; http_client = false }

-- `not self._last_activity_time`: no activity, or one at the time 0.
abbrev pub no_activity : Option ℕ → Bool
no_activity none = true
no_activity (some t) = t == 0

-- Whether the time since the last activity is below the threshold.
abbrev pub idle_below : ℕ → ℕ → Option ℕ → Bool
idle_below idle now none = false
idle_below idle now (some t) = ltb now (t + idle)

pub should_send_ping : WatchdogConfig → ℕ → Watchdog → Bool
should_send_ping c now w =
    if no_activity w.last_activity_time
    then false
    else if leb c.max_continues w.continues_sent
    then false
    else if idle_below c.idle_seconds now w.last_activity_time
    then false
    else true

-- The status of the answer, or an exception of the request.
pub data Reply : Type 0 where
  status : ℕ → Reply
  request_failed : Reply

pub send_continue_ping : Reply → Watchdog → Watchdog
send_continue_ping request_failed w = w
send_continue_ping (status code) w =
    if not w.http_client
    then w
    else if leb 400 code
    then w
    else record w { continues_sent = w.continues_sent + 1 }

-- One round of the loop of `_run` after its sleep.
pub poll : WatchdogConfig → ℕ → Reply → Watchdog → Watchdog
unfolding should_send_ping send_continue_ping
poll c now reply w =
    if not (is_running w)
    then w
    else if not (should_send_ping c now w)
    then w
    else send_continue_ping reply w

-- The handler of `_run` for an exception that is not expected: the task ends.
pub fail : Watchdog → Watchdog
fail w = record w { running = false; task_alive = false }

-- What a watchdog becomes, one step after another, at any times and with any answers.
pub data Watched (c : WatchdogConfig) (w : Watchdog) : Watchdog → Type 0 where
  begin : Watched c w w
  activity : {v : Watchdog} (now : ℕ) → Watched c w v → Watched c w (record_activity now v)
  started : {v : Watchdog} → Watched c w v → Watched c w (start c v)
  stopped : {v : Watchdog} → Watched c w v → Watched c w (stop v)
  polled :
      {v : Watchdog} (now : ℕ) (reply : Reply) → Watched c w v → Watched c w (poll c now reply v)
  ended : {v : Watchdog} → Watched c w v → Watched c w (fail v)
