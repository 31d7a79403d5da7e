-- ===== src/Health/Normal.antt =====
-- The normal form of a component (execqueue/health/service.py).
use exec_queue.Common.{
  ◌≡◌, refl, String, true, inl, inr, ℕ, is_some, Bool-cases, Option-cases, Option, none, some,
  non_empty, arith, if◌then◌else◌,
}
use exec_queue.Health.{
  HealthStatus, ok, degraded, error, HealthCheckResult, Component, result, fields, checked,
  normalized, normalize_health_component, or_text, status_text, parse_status,
}

-- A component with a name and a detail, as every normal one has.
abbrev pub IsNormal : HealthCheckResult → Type 0
IsNormal r = (non_empty r.component ≡ true) × (is_some r.detail ≡ true)

parse_status-status_text : (s : HealthStatus) → parse_status (status_text s) ≡ some s
unfolding parse_status
parse_status-status_text ok = refl
parse_status-status_text degraded = refl
parse_status-status_text error = refl

or_text-non_empty :
    (o : Option String) (fallback : String)
    → non_empty fallback ≡ true
    → non_empty (or_text o fallback) ≡ true
or_text-non_empty none fallback h = h
or_text-non_empty (some text) fallback h = elim (Bool-cases (non_empty text)) [
  | inl full ↦ rw (full, if◌then◌else◌) full
  | inr empty ↦ rw (empty, if◌then◌else◌) h
]

checked-IsNormal :
    (fallback component : String) (s : HealthStatus) (detail : Option String)
    → non_empty fallback ≡ true
    → IsNormal (checked fallback component s detail)
unfolding checked
checked-IsNormal fallback component s none h = (or_text-non_empty (some component) fallback h, refl)
checked-IsNormal fallback component s (some detail) h = elim (Bool-cases (non_empty component)) [
  | inl full ↦ rw (full, if◌then◌else◌) (full, refl)
  | inr empty ↦ rw (empty, if◌then◌else◌) (h, refl)
]

module _ (repr lower : String → String) (decimal : ℕ → String) where
  normalized-IsNormal :
      (fallback component : String) (s detail : Option String)
      → non_empty fallback ≡ true
      → IsNormal (normalized repr lower decimal fallback component s detail)
  unfolding normalized
  normalized-IsNormal fallback component none detail h =
      (or_text-non_empty (some component) fallback h, refl)
  normalized-IsNormal fallback component (some text) detail h =
      elim (Option-cases (parse_status text)) [
        | inl unknown ↦
            rw (unknown, normalized) (or_text-non_empty (some component) fallback h, refl)
        | inr (s, known) ↦ rw (known, normalized) (checked-IsNormal fallback component s detail h)
      ]

  pub normalize_health_component-IsNormal :
      (c : Component) (fallback : String)
      → non_empty fallback ≡ true
      → IsNormal (normalize_health_component repr lower decimal c fallback)
  unfolding normalize_health_component
  normalize_health_component-IsNormal (result r) fallback h =
      normalized-IsNormal fallback r.component (some (status_text r.status)) r.detail h
  normalize_health_component-IsNormal (fields component name s detail) fallback h =
      normalized-IsNormal fallback (or_text component (or_text name fallback)) s detail h

  pub normal_again :
      (r : HealthCheckResult) (fallback : String)
      → IsNormal r
      → normalize_health_component repr lower decimal (result r) fallback ≡ r
  unfolding normalize_health_component normalized checked
  normal_again r fallback (full, told) = elim (Option-cases r.detail) [
    | inl missing ↦ ground (arith, missing, told)
    | inr (d, found) ↦
        rw (parse_status-status_text r.status, found, full, if◌then◌else◌, normalized, checked) refl
  ]

  -- A normal form stays what it is: with a name to fall back to, a component that is normalised once is
  -- not changed by a second time, whatever the name to fall back to is then.
  pub normalize_health_component_again :
      (c : Component) (fallback fallback' : String)
      → non_empty fallback ≡ true
      → let r = normalize_health_component repr lower decimal c fallback in
        normalize_health_component repr lower decimal (result r) fallback' ≡ r
  normalize_health_component_again c fallback fallback' h =
      normal_again (normalize_health_component repr lower decimal c fallback) fallback'
        (normalize_health_component-IsNormal c fallback h)
