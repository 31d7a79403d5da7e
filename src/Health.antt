-- ===== src/Health.antt =====
-- execqueue/health/service.py and execqueue/health/models.py: the states of the components of the system
-- and their aggregation. `str.lower`, `repr` of a text and the text of a number are arguments. The
-- report for Telegram and the names that it shows are left out.
pub mod Aggregate
mod Examples
pub mod Normal
use Prim.Native.String.{◌++◌ as ◌+++◌}
use exec_queue.Common.{
  ℕ, ◌+◌, String, Bool, true, false, not, ◌&&◌, ◌||◌, Option, none, some, List, [], ◌∷◌, any, keep,
  map, null, str_eq, non_empty, is_some, if◌then◌else◌,
}

pub data HealthStatus : Type 0 where
  ok degraded error : HealthStatus

pub record HealthCheckResult : Type 0 where
  pub component : String
  pub status : HealthStatus
  pub detail : Option String

-- What a check gives: a result, or some other object with its attributes or keys, which hold a text or
-- nothing.
pub data Component : Type 0 where
  result : HealthCheckResult → Component
  fields :
      (component : Option String)
      → (name : Option String) → (status : Option String) → (detail : Option String) → Component

-- The value of a status, and `HealthStatus(text)`, where `none` is the `ValueError`.
abbrev pub status_text : HealthStatus → String
status_text ok = "OK"
status_text degraded = "DEGRADED"
status_text error = "ERROR"

unfoldable pub parse_status : String → Option HealthStatus
parse_status text =
    if str_eq text "OK"
    then some ok
    else if str_eq text "DEGRADED"
    then some degraded
    else if str_eq text "ERROR"
    then some error
    else none

-- `value or fallback` of a text.
abbrev pub or_text : Option String → String → String
or_text none fallback = fallback
or_text (some text) fallback = if non_empty text then text else fallback

abbrev pub is_error : HealthStatus → Bool
is_error error = true
is_error _ = false

abbrev pub is_degraded : HealthStatus → Bool
is_degraded degraded = true
is_degraded _ = false

abbrev missing_status_detail : String
missing_status_detail = "Component health data is incomplete: missing status."

abbrev incomplete_component_detail : String
incomplete_component_detail = "Component health data is incomplete."

abbrev pub degraded_status : HealthStatus → HealthStatus
degraded_status s = if is_error s then error else degraded

abbrev pub degraded_detail : HealthStatus → String
degraded_detail s =
    if is_error s
    then "Component reported an error without further detail."
    else incomplete_component_detail

-- A known status with the name and the detail.
unfoldable pub checked : String → String → HealthStatus → Option String → HealthCheckResult
checked fallback component s none = record {
  component = or_text (some component) fallback;
  status = degraded_status s;
  detail = some (degraded_detail s);
}
checked fallback component s (some detail) =
    if non_empty component
    then record { component = component; status = s; detail = some detail }
    else record {
      component = fallback;
      status = degraded_status s;
      detail = some (degraded_detail s);
    }

-- A check gives a component, or raises a timeout or another exception.
pub data Checked : Type 0 where
  gave : Component → Checked
  timed_out failed : Checked

-- `results[key] = value` of a dictionary, in the order of the first entries.
unfoldable pub put : HealthCheckResult → List HealthCheckResult → List HealthCheckResult
put r [] = r ∷ []
put r (q ∷ qs) = let rest = put r qs in if str_eq q.component r.component then r ∷ qs else q ∷ rest

module _ (repr lower : String → String) (decimal : ℕ → String) where
  -- The part of `normalize_health_component` behind the distinction of its argument.
  unfoldable pub normalized : String → String → Option String → Option String → HealthCheckResult
  unfolding checked
  normalized fallback component none detail = record {
    component = or_text (some component) fallback;
    status = degraded;
    detail = some missing_status_detail;
  }
  normalized fallback component (some text) detail = elim (parse_status text) [
    | none ↦ record {
      component = or_text (some component) fallback;
      status = error;
      detail = some ("Unknown health status: " +++ repr text +++ ".");
    }
    | some s ↦ checked fallback component s detail
  ]

  unfoldable pub normalize_health_component : Component → String → HealthCheckResult
  unfolding normalized
  normalize_health_component (result r) fallback =
      normalized fallback r.component (some (status_text r.status)) r.detail
  normalize_health_component (fields component name s detail) fallback =
      normalized fallback (or_text component (or_text name fallback)) s detail

  abbrev pub is_optional_component : String → Bool
  is_optional_component name = str_eq (lower name) "opencode"

  abbrev pub fallback_name : ℕ → String
  fallback_name index = "component_" +++ decimal index

  unfoldable pub normalize_from : ℕ → List Component → List HealthCheckResult
  unfolding normalize_health_component
  normalize_from index [] = []
  normalize_from index (c ∷ cs) =
      normalize_health_component c (fallback_name index) ∷ normalize_from (index + 1) cs

  -- The components that the status of the system depends on.
  abbrev pub core : Bool → List HealthCheckResult → List HealthCheckResult
  core exclude_optional cs =
      if exclude_optional then keep (λ c. not (is_optional_component c.component)) cs else cs

  -- The three tests of `aggregate_system_status`.
  unfoldable pub aggregate : List HealthCheckResult → HealthStatus
  aggregate cs =
      if null cs
      then ok
      else if any (λ c. is_error c.status) cs
      then error
      else if any (λ c. is_degraded c.status) cs
      then degraded
      else ok

  unfoldable pub aggregate_system_status : List Component → Bool → HealthStatus
  unfolding normalize_from aggregate
  aggregate_system_status components exclude_optional =
      let cs = normalize_from 1 components in
      if null cs then error else aggregate (core exclude_optional cs)

  unfoldable pub run_check : String → Checked → HealthCheckResult
  unfolding normalize_health_component
  run_check name (gave c) = normalize_health_component c name
  run_check name timed_out = record {
    component = name;
    status = error;
    detail = some "Health check timed out.";
  }
  run_check name failed = record {
    component = name;
    status = error;
    detail = some "Health check failed.";
  }

  unfoldable pub collect : List (String × Checked) → List HealthCheckResult → List HealthCheckResult
  unfolding run_check put
  collect [] results = results
  collect ((name, c) ∷ cs) results = collect cs (put (run_check name c) results)

  -- `get_overall_health` over the registered checks, by their names.
  pub get_overall_health : List (String × Checked) → HealthStatus × List HealthCheckResult
  unfolding collect aggregate_system_status
  get_overall_health checks =
      let results = collect checks [] in
      (aggregate_system_status (map result results) true, results)
