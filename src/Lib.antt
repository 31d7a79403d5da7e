-- ===== src/Lib.antt =====
-- ExecQueue, a queue that prepares coding tasks and runs them: a model of its intake, its
-- orchestrator, its runner and the programs that talk to them, and the theorems about them.
--
-- The intake (execqueue/tasks) stores tasks and requirements and triggers the orchestrator. The
-- orchestrator (execqueue/orchestrator) takes tasks from the backlog, classifies them, plans a
-- batch, locks its tasks for a worker and prepares a context for each. The runner
-- (execqueue/runner) claims a prepared task, creates an execution for it, dispatches its
-- prompt, inspects the result and adopts its commit; after an error or a hang it decides
-- whether the execution is tried again. In front of the intake stand the routes of the HTTP API
-- (execqueue/api) and the Telegram bot (execqueue/workers/telegram), which sends its requests
-- to the API; the runner reaches OpenCode by a client of its own (execqueue/opencode).
--
-- Which file models which part:
-- - Common: numbers, tests, lists, results that may be a Python exception, and the methods of
--   str that are called.
-- - Database: what is used of SQLAlchemy, as a record of operations with their documented
--   results; every theorem holds for any such record. Database/Selected has the lemmas on empty
--   answers.
-- - Model: the rows and enumerations of execqueue/models and of the task table of
--   execqueue/db/models.py.
-- - Orchestrator/Classification: TaskClassifier (execqueue/orchestrator/classification.py);
--   classify keeps its name.
-- - Orchestrator/Planning: BatchPlanner of the same file; create_batch_plan keeps its name,
--   plan_batch is its part before identifiers are read off, and its loops are functions of
--   their own (group_from, plan_groups).
-- - Orchestrator/Locking: TaskLocker (execqueue/orchestrator/locking.py), one function for each
--   method.
-- - Orchestrator/Context: PreparedContextBuilder (execqueue/orchestrator/context_contract.py),
--   one function for each method.
-- - Orchestrator/Git: GitContextPreparer (execqueue/orchestrator/git_context.py) over the
--   record Platform for Git and the file system; prepare_worktree is the second half of
--   prepare_context. Orchestrator/RefName has its test for names of branches.
-- - Orchestrator/Recovery: PreparationErrorClassifier and StaleQueuedRecovery
--   (execqueue/orchestrator/recovery.py); classify_preparation is classify_error of the former,
--   recover_each is the loop of run_recovery_cycle.
-- - Orchestrator/Candidates: CandidateDiscovery
--   (execqueue/orchestrator/candidate_discovery.py).
-- - Orchestrator/Preparation: Orchestrator (execqueue/orchestrator/main.py), whose cycle calls
--   the parts above; git_part, context_part and finish are the steps of _prepare_task_context,
--   and prepare_each is the loop of run_preparation_cycle. Orchestrator/Lookup has the lemmas
--   on the row of an identifier.
-- - Tasks: the intake of execqueue/tasks/service.py, composed with the trigger of
--   execqueue/orchestrator_trigger.py and so with a preparation cycle; violates collects the
--   constraints of execqueue/db/models.py.
-- - Health: the normalisation and aggregation of execqueue/health/service.py; the checks
--   themselves are arguments.
-- - Runner/Adoption: CommitAdopter (execqueue/runner/commit_adopter.py); cherry_pick,
--   after_pick and verify_adoption are the later steps of adopt.
-- - Runner/Inspection: ResultInspector (execqueue/runner/result_inspector.py); gather is the
--   first part of inspect and judge its three checks. Runner/Commands is the interface to Git
--   and the shell that it shares with the adoption.
-- - Runner/Dispatch: PromptDispatcher (execqueue/runner/dispatch.py) over the record Client for
--   OpenCode; send_prompt and record_outcome are the two parts of dispatch_prompt behind its
--   guard. Runner/Prompts has the prompts (execqueue/runner/prompt_templates.py).
-- - OpenCode: OpenCodeClient (execqueue/opencode/client.py) over the record Http; read_body is
--   what its methods make of a response, and OpenCode/Events is stream_events, whose loop is
--   read_lines. Json has the values of Python's json module.
-- - Api: the routes of execqueue/api/routes/domain.py on top of Tasks; post_task is
--   create_task_endpoint behind the limits of TaskCreateRequest. Api/Admin has
--   require_system_admin (execqueue/api/dependencies.py) and the restarts of
--   execqueue/api/routes/system.py.
-- - Telegram: the users of the bot (execqueue/workers/telegram/persistence.py, auth.py and
--   notifications.py); set_subscription is subscribe_user_to_startup and
--   unsubscribe_user_from_startup. Telegram/ApiClient is TelegramAPIClient,
--   Telegram/Conversation the handlers of /create (commands.py) with the steps that
--   create_bot_application registers, Telegram/Restart the restart and Telegram/Help the other
--   commands (commands.py and bot.py). Telegram/Process is run_bot and main with their files
--   (bot.py); after_start is what follows the start.
-- - Observability: ExecutionMetrics (execqueue/observability/logging.py).
--   Observability/Redaction is PayloadRedactor, and Observability/Records StructuredFormatter,
--   log_phase_event and PhaseTimer; log_entry is the entry of format before its texts are cut.
-- - TokenUsage: execqueue/utils/token_tracking.py; read_usage is extract_token_usage behind the
--   choice of the dictionary.
-- - Runner/Claim: claim_task (execqueue/runner/claim.py), poll_and_claim_tasks
--   (execqueue/runner/polling.py) and the poll cycle (execqueue/runner/main.py). The identifier
--   of a new execution is an argument, as no code that is modelled gives one;
--   Runner/Claim/Unnumbered is about claims without it.
-- - Runner/Errors and Runner/Retry: error types, retry matrix and classify_error, and
--   calculate_retry_decision (execqueue/runner/error_classification.py).
-- - Runner/Staleness: is_execution_stale and find_stale_executions of the same file.
-- - Runner/Stream: SSEEventHandler (execqueue/runner/sse_handler.py); on_event is a round of
--   the loop of _stream_events_internal.
-- - Runner/Watchdog: Watchdog (execqueue/runner/watchdog.py); poll is a round of _run, with
--   _should_send_ping and _send_continue_ping, and Watched is any sequence of steps.
-- - Runner/Recovery: RecoveryService (execqueue/runner/recovery.py); Runner/Recovery/Processing
--   has its writes, process_one and process_each being the loop of process_stale_executions.
--
-- Identifiers are numbers, times are microseconds (in the watchdog whole seconds), and the
-- clock and random numbers are arguments. Every loop of the modelled code goes over a list, so
-- all functions are structural and no fuel is needed. Delays and durations are computed exactly
-- where the code uses floating point, and durations of phases are not negative. The texts of
-- log lines, reasons and errors are left out where nothing reads them.
--
-- Not modelled: the checks of a worktree before a retry, which end with a NameError at their
-- first statement. The log records of the orchestrator with the validator for end-to-end tests,
-- the command line, settings and migrations keep no state that the modelled parts read, and
-- execqueue/orchestrator_legacy.py is superseded. FastAPI, httpx, SQLAlchemy, the Telegram
-- library, Git and the shell are not part of the repository: what is used of them is a record
-- of operations or an argument, and the conversation of the bot runs in the steps that its
-- registration names.
pub mod Api
pub mod Common
pub mod Database
pub mod Health
pub mod Json
pub mod Model
pub mod Observability
pub mod OpenCode
pub mod Orchestrator
pub mod Runner
pub mod Tasks
pub mod Telegram
pub mod TokenUsage
