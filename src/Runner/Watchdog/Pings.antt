-- ===== src/Runner/Watchdog/Pings.antt =====
-- How often and when the watchdog pings (execqueue/runner/watchdog.py).
use exec_queue.Common.{
  ℕ, ◌+◌, ◌≤◌, ◌<◌, ◌≡◌, ◌↔◌, Bool, true, false, not, ◌&&◌, none, some, arith, ltb, leb, ◌==◌,
  if◌then◌else◌, Option-cases, inl, inr,
}
use exec_queue.Runner.Watchdog.{
  WatchdogConfig, Watchdog, is_running, record_activity, start, stop, poll, fail, Reply, status,
  request_failed, Watched, begin, activity, started, stopped, polled, ended,
}

-- Whether a poll sends a ping: the watchdog runs with a client, and some activity was recorded, which is
-- no less than the threshold ago, while the count is below the limit.
abbrev pub is_sent : WatchdogConfig → ℕ → Watchdog → Bool
is_sent c now w =
    w.running
    && w.task_alive
    && w.http_client
    && elim w.last_activity_time [
      | none ↦ false
      | some t ↦ not (t == 0) && leb (t + c.idle_seconds) now
    ]
    && ltb w.continues_sent c.max_continues

-- The server answers below 400.
abbrev pub is_accepted : Reply → Bool
is_accepted (status code) = ltb code 400
is_accepted request_failed = false

-- The pings that were sent on the way of a watchdog, and those of them that were accepted.
abbrev pub sent : {c : WatchdogConfig} {w v : Watchdog} → Watched c w v → ℕ
sent begin = 0
sent (activity now r) = sent r
sent (started r) = sent r
sent (stopped r) = sent r
sent {c} (polled {v = v} now reply r) = sent r + (if is_sent c now v then 1 else 0)
sent (ended r) = sent r

abbrev pub accepted : {c : WatchdogConfig} {w v : Watchdog} → Watched c w v → ℕ
accepted begin = 0
accepted (activity now r) = accepted r
accepted (started r) = accepted r
accepted (stopped r) = accepted r
accepted {c} (polled {v = v} now reply r) =
    accepted r + (if is_sent c now v && is_accepted reply then 1 else 0)
accepted (ended r) = accepted r

poll-continues_sent :
    (c : WatchdogConfig) (now : ℕ) (reply : Reply) (w : Watchdog)
    → (poll c now reply w).continues_sent
      ≡ w.continues_sent + (if is_sent c now w && is_accepted reply then 1 else 0)
unfolding poll
poll-continues_sent c now (status code) w = elim (Option-cases w.last_activity_time) [
  | inl never ↦ ground (arith, never)
  | inr (t, active) ↦ ground (arith, active)
]
poll-continues_sent c now request_failed w = ground arith

Watched-continues_sent :
    (c : WatchdogConfig) {w v : Watchdog} (r : Watched c w v)
    → v.continues_sent ≡ w.continues_sent + accepted r
unfolding record_activity start stop fail
Watched-continues_sent c begin = ground arith
Watched-continues_sent c (activity now r) = Watched-continues_sent c r
Watched-continues_sent c (started r) = ground (arith, Watched-continues_sent c r)
Watched-continues_sent c (stopped r) = ground (arith, Watched-continues_sent c r)
Watched-continues_sent c (polled {v = v} now reply r) =
    ground (arith, poll-continues_sent c now reply v, Watched-continues_sent c r)
Watched-continues_sent c (ended r) = Watched-continues_sent c r

poll-le :
    (c : WatchdogConfig) (now : ℕ) (reply : Reply) (w : Watchdog)
    → w.continues_sent ≤ c.max_continues
    → (poll c now reply w).continues_sent ≤ c.max_continues
unfolding poll
poll-le c now (status code) w h = ground (arith, h)
poll-le c now request_failed w h = ground (arith, h)

Watched-max_continues :
    (c : WatchdogConfig) {w v : Watchdog}
    → w.continues_sent ≤ c.max_continues
    → Watched c w v
    → v.continues_sent ≤ c.max_continues
unfolding record_activity start stop fail
Watched-max_continues c h begin = h
Watched-max_continues c h (activity now r) = Watched-max_continues c h r
Watched-max_continues c h (started r) = ground (arith, Watched-max_continues c h r)
Watched-max_continues c h (stopped r) = ground (arith, Watched-max_continues c h r)
Watched-max_continues c h (polled now reply r) = poll-le c now reply _ (Watched-max_continues c h r)
Watched-max_continues c h (ended r) = Watched-max_continues c h r

-- Whatever happens to a watchdog that has counted no more pings than its settings allow, its count grows
-- by the pings that are sent and accepted, and these stay within what was left of the limit. Pings that
-- are refused or fail are not counted, and not bounded.
pub Watched-le :
    (c : WatchdogConfig) {w v : Watchdog} (r : Watched c w v)
    → w.continues_sent ≤ c.max_continues
    → (v.continues_sent ≡ w.continues_sent + accepted r)
      × (w.continues_sent + accepted r ≤ c.max_continues)
Watched-le c r h =
    let counted = Watched-continues_sent c r in
    (counted, omega (arith, counted, Watched-max_continues c h r))

-- A poll that the server answers counts a ping exactly if the watchdog runs with a client, some activity
-- was recorded, no less than the threshold ago, the limit is not reached and the status is below 400.
pub poll_lem :
    (c : WatchdogConfig) (now code t : ℕ) (w : Watchdog)
    → w.last_activity_time ≡ some t
    → ((poll c now (status code) w).continues_sent ≡ w.continues_sent + 1) ↔ (
        (is_running w ≡ true)
        × (w.http_client ≡ true)
        × (0 < t)
        × (t + c.idle_seconds ≤ now)
        × (w.continues_sent < c.max_continues)
        × (code < 400))
unfolding poll
poll_lem c now code t w h = ground (arith, h)
