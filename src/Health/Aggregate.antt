-- ===== src/Health/Aggregate.antt =====
-- The status of the system (execqueue/health/service.py).
use exec_queue.Common.{
  ◌≡◌, refl, ◌∙◌, String, Bool, true, false, All, ◌⊎◌, str_eq, non_empty, ◌+◌, List, [], ◌∷◌, any,
  map, null, arith, if◌then◌else◌, Bool-cases, inl, inr, ℕ,
}
use exec_queue.Health.{
  HealthStatus, ok, degraded, error, HealthCheckResult, Component, normalize_from, core, aggregate,
  aggregate_system_status, is_error, is_degraded, result, put, run_check, collect,
  get_overall_health, Checked, gave, timed_out, failed, fallback_name,
}
use exec_queue.Health.Normal.{IsNormal, normal_again, normalize_health_component-IsNormal}

-- The worse of two states.
abbrev pub worse : HealthStatus → HealthStatus → HealthStatus
worse error t = error
worse degraded error = error
worse degraded t = degraded
worse ok t = t

abbrev pub worst : List HealthCheckResult → HealthStatus
worst [] = ok
worst (c ∷ cs) = worse c.status (worst cs)

-- The worst status of the results whose name is not "opencode".
abbrev pub worst_required : (String → String) → List HealthCheckResult → HealthStatus
worst_required lower [] = ok
worst_required lower (c ∷ cs) =
    let rest = worst_required lower cs in
    if str_eq (lower c.component) "opencode" then rest else worse c.status rest

HealthStatus-cases : (s : HealthStatus) → (s ≡ ok) ⊎ ((s ≡ degraded) ⊎ (s ≡ error))
HealthStatus-cases ok = inl refl
HealthStatus-cases degraded = inr (inl refl)
HealthStatus-cases error = inr (inr refl)

nothing_in :
    (cs : List HealthCheckResult)
    → null cs ≡ true
    → (any (λ c. is_error c.status) cs ≡ false) × (any (λ c. is_degraded c.status) cs ≡ false)
nothing_in [] h = (refl, refl)
nothing_in (c ∷ cs) h = cc

null-map : (rs : List HealthCheckResult) → null (map result rs) ≡ null rs
null-map [] = refl
null-map (r ∷ rs) = refl

module _ (repr lower : String → String) (decimal : ℕ → String) where
  aggregate-eq-worst : (cs : List HealthCheckResult) → aggregate repr lower decimal cs ≡ worst cs
  unfolding aggregate
  aggregate-eq-worst [] = refl
  aggregate-eq-worst (c ∷ cs) =
      ground (arith, aggregate-eq-worst cs, HealthStatus-cases c.status, nothing_in cs)

  -- The status of the system is the worst status of the components that it depends on, taken one after
  -- the other: the optional ones are left out where that is asked for, and without any component it is
  -- an error.
  pub aggregate_system_status-eq-worst :
      (components : List Component) (exclude_optional : Bool)
      → aggregate_system_status repr lower decimal components exclude_optional ≡ (
          if null components
          then error
          else worst (
              core repr lower decimal exclude_optional
                (normalize_from repr lower decimal 1 components)))
  unfolding aggregate_system_status
  aggregate_system_status-eq-worst [] exclude_optional = refl
  aggregate_system_status-eq-worst (c ∷ cs) exclude_optional =
      aggregate-eq-worst
        (core repr lower decimal exclude_optional (normalize_from repr lower decimal 1 (c ∷ cs)))

  normalize_again :
      (index : ℕ) (rs : List HealthCheckResult)
      → All IsNormal rs
      → normalize_from repr lower decimal index (map result rs) ≡ rs
  unfolding normalize_from
  normalize_again index [] h = refl
  normalize_again index (r ∷ rs) h = cc (
    normal_again repr lower decimal r (fallback_name repr lower decimal index) h.0,
    normalize_again (index + 1) rs h.1,
  )

  put-All :
      (r : HealthCheckResult) (rs : List HealthCheckResult)
      → IsNormal r
      → All IsNormal rs
      → All IsNormal (put r rs)
  unfolding put
  put-All r [] n h = (n, tt)
  put-All r (q ∷ qs) n h = elim (Bool-cases (str_eq q.component r.component)) [
    | inl same ↦ rw (same, if◌then◌else◌) (n, h.1)
    | inr other ↦ rw (other, if◌then◌else◌) (h.0, put-All r qs n h.1)
  ]

  run_check-IsNormal :
      (name : String) (c : Checked)
      → non_empty name ≡ true
      → IsNormal (run_check repr lower decimal name c)
  unfolding run_check
  run_check-IsNormal name (gave c) h =
      normalize_health_component-IsNormal repr lower decimal c name h
  run_check-IsNormal name timed_out h = (h, refl)
  run_check-IsNormal name failed h = (h, refl)

  collect-All :
      (checks : List (String × Checked)) (rs : List HealthCheckResult)
      → All (λ c. non_empty c.0 ≡ true) checks
      → All IsNormal rs
      → All IsNormal (collect repr lower decimal checks rs)
  unfolding collect
  collect-All [] rs named h = h
  collect-All ((name, c) ∷ cs) rs named h =
      collect-All cs _ named.1 (put-All _ rs (run_check-IsNormal name c named.0) h)

  worst-core :
      (cs : List HealthCheckResult)
      → worst (core repr lower decimal true cs) ≡ worst_required lower cs
  worst-core [] = refl
  worst-core (c ∷ cs) = ground (arith, worst-core cs)

  -- If every check has a name, then the overall status is the worst status of the results that are
  -- shown, those left out whose name is "opencode" in lower case, or an error without any result:
  -- nothing is lost by normalising the results a second time.
  pub get_overall_health_lem :
      (checks : List (String × Checked))
      → All (λ c. non_empty c.0 ≡ true) checks
      → let (status, results) = get_overall_health repr lower decimal checks in
        status ≡ (if null results then error else worst_required lower results)
  unfolding get_overall_health
  get_overall_health_lem checks named =
      let rs = collect repr lower decimal checks [] in
      aggregate_system_status-eq-worst (map result rs) true
      ∙ rw (normalize_again 1 rs (collect-All checks [] named tt), null-map rs, worst-core rs) refl
