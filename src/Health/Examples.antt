-- ===== src/Health/Examples.antt =====
-- The health of a small system (execqueue/health/service.py).
use exec_queue.Common.{ℕ, ◌≡◌, refl, String, some, [], ◌∷◌, null, if◌then◌else◌}
use exec_queue.Health.{
  ok, error, Component, result, gave, timed_out, collect, get_overall_health, parse_status,
}
use exec_queue.Health.Aggregate.{worst_required, get_overall_health_lem}

abbrev same : String → String
same text = text

abbrev number : ℕ → String
number n = "1"

abbrev database : Component
database = result (record { component = "database"; status = ok; detail = some "fine" })

-- A second result with the name of a first one takes its place, so the error of the first is lost.
error_lost :
    (get_overall_health same same number
      (("database", timed_out) ∷ ("second", gave database) ∷ [])).0
    ≡ ok
unfolding get_overall_health collect parse_status
error_lost = refl

get_overall_health_lem_example :
    let (status, results) =
      get_overall_health same same number (("api", gave database) ∷ ("opencode", timed_out) ∷ []) in
    status ≡ (if null results then error else worst_required same results)
get_overall_health_lem_example =
    get_overall_health_lem same same number (("api", gave database) ∷ ("opencode", timed_out) ∷ [])
      (refl, (refl, tt))
