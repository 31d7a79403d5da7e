-- ===== src/Runner/Watchdog/Examples.antt =====
-- A watchdog of two pings (execqueue/runner/watchdog.py).
use exec_queue.Common.{ℕ, ◌+◌, ◌≤◌, ◌≡◌, refl, true, some, arith}
use exec_queue.Runner.Watchdog.{WatchdogConfig, Watchdog, Watched, poll, status, begin, polled}
use exec_queue.Runner.Watchdog.Pings.{sent, accepted, Watched-le}

abbrev settings : WatchdogConfig
settings = record { enabled = true; session_id = some "s"; idle_seconds = 90; max_continues = 2 }

abbrev active_at : ℕ → Watchdog
active_at t = record {
  running = true;
  task_alive = true;
  http_client = true;
  continues_sent = 0;
  last_activity_time = some t;
}

-- A ping does not count as activity, so the next poll pings again.
abbrev after_polls : Watchdog
after_polls =
    poll settings 111 (status 200)
      (poll settings 101 (status 200) (poll settings 100 (status 500) (active_at 10)))

two_pings : after_polls.continues_sent ≡ 2
unfolding poll
two_pings = refl

-- The way there: of three pings two are accepted.
abbrev way : Watched settings (active_at 10) after_polls
way = polled 111 (status 200) (polled 101 (status 200) (polled 100 (status 500) begin))

three_sent : (sent way ≡ 3) × (accepted way ≡ 2)
unfolding poll
three_sent = (refl, refl)

Watched-le_example : (after_polls.continues_sent ≡ 0 + accepted way) × (0 + accepted way ≤ 2)
Watched-le_example = Watched-le settings way (omega arith)
