-- ===== src/Observability/Phases.antt =====
-- The averages of phase durations (execqueue/observability/logging.py).
use text.Mathlib.TextEquality.{eq_iff}
use exec_queue.Common.{
  ℕ, ◌+◌, ◌≡◌, refl, String, none, some, List, [], ◌∷◌, count, arith, ◌==◌, str_eq, if◌then◌else◌,
}
use exec_queue.Observability.{
  ExecutionMetrics, no_metrics, get_number, set_number, record_phase_duration,
  get_average_phase_duration,
}

get_number-set_number :
    (key k : String) (n : ℕ) (numbers : List (String × ℕ))
    → get_number key (set_number k n numbers) ≡ (if str_eq k key then n else get_number key numbers)
get_number-set_number key k n [] = refl
get_number-set_number key k n ((j, m) ∷ numbers) =
    ground (arith, eq_iff j k, eq_iff j key, eq_iff k key, get_number-set_number key k n numbers)

-- The metrics after phases have been recorded, in their order.
abbrev pub recorded : List (String × ℕ) → ExecutionMetrics → ExecutionMetrics
recorded [] m = m
recorded ((phase, duration) ∷ rest) m = recorded rest (record_phase_duration phase duration m)

-- The sum of the durations of a phase.
abbrev pub total : String → List (String × ℕ) → ℕ
total phase [] = 0
total phase ((p, duration) ∷ rest) =
    let more = total phase rest in if str_eq p phase then duration + more else more

recorded_durations :
    (phase : String) (records : List (String × ℕ)) (m : ExecutionMetrics)
    → get_number phase (recorded records m).phase_durations
      ≡ get_number phase m.phase_durations + total phase records
unfolding record_phase_duration
recorded_durations phase [] m = omega arith
recorded_durations phase ((p, d) ∷ rest) m = ground (
  arith,
  eq_iff p phase,
  recorded_durations phase rest (record_phase_duration p d m),
  get_number-set_number phase p (get_number p m.phase_durations + d) m.phase_durations,
)

recorded_counts :
    (phase : String) (records : List (String × ℕ)) (m : ExecutionMetrics)
    → get_number phase (recorded records m).phase_counts
      ≡ get_number phase m.phase_counts + count (λ r. str_eq r.0 phase) records
unfolding record_phase_duration
recorded_counts phase [] m = omega arith
recorded_counts phase ((p, d) ∷ rest) m = ground (
  arith,
  eq_iff p phase,
  recorded_counts phase rest (record_phase_duration p d m),
  get_number-set_number phase p (get_number p m.phase_counts + 1) m.phase_counts,
)

-- After any records from the start on, the average of a phase is the sum of its durations over the number
-- of its records, and 0 without any record: no phase counts for another.
pub get_average_phase_duration_lem :
    (phase : String) (records : List (String × ℕ))
    → get_average_phase_duration phase (recorded records no_metrics) ≡ (
        if count (λ r. str_eq r.0 phase) records == 0
        then none
        else some (total phase records, count (λ r. str_eq r.0 phase) records))
unfolding get_average_phase_duration
get_average_phase_duration_lem phase records =
    ground
      (arith, recorded_durations phase records no_metrics, recorded_counts phase records no_metrics)
