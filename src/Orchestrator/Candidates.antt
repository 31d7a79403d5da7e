-- ===== src/Orchestrator/Candidates.antt =====
-- execqueue/orchestrator/candidate_discovery.py, the class `CandidateDiscovery`: the query for tasks of
-- the backlog and the count of those that wait. The imports that the query does not use are left out.
use exec_queue.Common.{
  ℕ, String, Bool, not, ◌&&◌, none, some, List, [], ◌∷◌, any, null, str_eq, ◌==◌, if◌then◌else◌,
}
use exec_queue.Database.{Table}
use exec_queue.Model.{Task, is_backlog}

pub record CandidateDiscovery : Type 0 where
  pub max_batch_size : ℕ
  pub supported_types : List String

abbrev default_types : List String
default_types = "planning" ∷ "execution" ∷ "analysis" ∷ []

-- The constructor; no types given, or none in the list, means the default.
abbrev pub candidate_discovery : ℕ → List String → CandidateDiscovery
candidate_discovery max_batch_size supported_types = record {
  max_batch_size = max_batch_size;
  supported_types = if null supported_types then default_types else supported_types;
}

-- The WHERE clause of `find_candidates`.
abbrev pub is_candidate : CandidateDiscovery → List ℕ → Task → Bool
is_candidate d excluded t =
    is_backlog t.status
    && any (λ s. str_eq s t.task_type) d.supported_types
    && not (any (λ i. i == t.id) excluded)

-- The columns of the ORDER BY clause; an order that is NULL comes last.
abbrev pub order_key : Task → List ℕ
order_key t = elim t.execution_order [
  | some n ↦ 0 ∷ n ∷ t.created_at ∷ t.task_number ∷ []
  | none ↦ 1 ∷ 0 ∷ t.created_at ∷ t.task_number ∷ []
]

unfoldable pub find_candidates : Table Task → CandidateDiscovery → List ℕ → List Task → List Task
find_candidates db d excluded rows =
    db.select_first (is_candidate d excluded) order_key d.max_batch_size rows

-- `count_pending` asks for one row at most.
pub count_pending : Table Task → List Task → ℕ
count_pending db rows =
    if null (db.select_first (λ t. is_backlog t.status) (λ t. []) 1 rows) then 0 else 1
