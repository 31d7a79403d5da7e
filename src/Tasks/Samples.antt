-- ===== src/Tasks/Samples.antt =====
-- A machine, an orchestrator and small tables, on which the intake is tried out.
use exec_queue.Common.{false, none, some, [], ◌∷◌}
use exec_queue.Database.{Table, plain_table}
use exec_queue.Model.{Task, new_task}
use exec_queue.Orchestrator.Git.{not_started, Platform}
use exec_queue.Orchestrator.Preparation.{Orchestrator}
use exec_queue.Tasks.{Stored, TaskRequest}

-- A machine without Git.
abbrev pub bare : Platform Unit
bare = record {
  run = λ args cwd s. (not_started, s);
  exists = λ s path. false;
  resolve = λ s path. some path;
  join = λ a b. "/work/t";
  strip = λ s. s;
  decimal = λ n. "1";
  short_id = λ n. "0000aaaa";
}

abbrev pub orchestrator : Orchestrator
orchestrator = record {
  worker_id = "w";
  max_batch_size = 10;
  worktree_root = "/work";
  base_repo_path = "/repo";
  message = λ k. "refused";
  unexpected = "unexpected";
}

abbrev pub db : Table Task
db = plain_table Task

abbrev pub request : TaskRequest
request = record {
  prompt = "add a test";
  task_type = "execution";
  created_by_type = "user";
  created_by_ref = "me";
  max_retries = 3;
  requirement_id = none;
  idempotency_key = some "k";
}

abbrev pub stored : Stored
stored = record { requirements = []; tasks = new_task 1 1 "planning" 0 ∷ [] }
