-- ===== src/Lib.antt =====
-- A continuous-integration service (Rust). A submit brings a commit and the files of a workflow;
-- the planner turns each workflow into jobs in an order, the scheduler decides which jobs run and
-- puts them on a queue per host or per network, a dispatcher takes a job from a queue and runs it
-- on a virtual machine, and the tables hold what became of every run and job.
--
-- The files and the code that they model, by its path in the repository:
--   Common    lists, text, tests and results that the other files share; no code of its own.
--   Json      JSON values and maps (`serde_json::Value`, `BTreeMap`); `Maps` reads after insertion.
--   Expr      src/expr.rs: `Values` (walk, truthy, loose_eq, to_display), `Lexer` (tokenize), `Call`
--             (Context, Parser::call), `Eval` (the parser, which evaluates, and eval_condition),
--             `Substitute` (substitute, find_close).
--   Paths     src/paths.rs: matches and match_segment; `Changes` is the set of changed paths.
--   Workflow  src/workflow.rs: `Filter` (SubmitFilter), `Target` (`uses:`), `Jobs` (the records, with
--             VmSpec of src/vm.rs), `Validate` (Workflow::validate, with VmSpec::validate); below it
--             `Cycle` is find_cycle; the others, and the files below `Target`, are proofs.
--   Plan      src/plan.rs: `Jobs` (JobPlan, Plan), `Context` (base_context), `Matrix` (expand_matrix),
--             `Keys` (sanitize, unique_key, display_label), `Build` (substitute_matrix, Plan::build),
--             `Order` (topological_order); the folders hold proofs.
--   Bus       src/bus.rs: routes, subjects, publish_job; is_subject_token of src/config.rs.
--   Runners   src/runners.rs: the lookups of Runner, RunnerSet and Pool.
--   Store     src/store.rs with migrations/001_init.sql: `Rows` and `Tables` hold the rows and one
--             function per statement; `Lifecycle` is the relation of one statement and of any
--             sequence of them; `Steps` is the rows and logs of steps; `Cancel`, `Over` and `RollUp`
--             are proofs.
--   VmPool    src/pool.rs with migrations/001, 004 and 007: `Rows`, and one function per statement on
--             ci_vm_pool; `Steps` is any sequence of statements; `Exclusive`, `Invariant`, `Holders`
--             (which job holds which machine) and `Recovery` are proofs; `Fingerprint` is fingerprint.
--   Images    src/image.rs: the catalog of images, one function per statement; `Steps` is any
--             sequence of them; `Guarded` and `Claims` are proofs.
--   Secrets   src/secrets.rs: prefix, scopes, and Masker.
--   Dispatch  src/dispatch.rs: `Place` (place, route_for, pick_runner, assign_network), `Guard`
--             (should_run, ci_scope, with needs_context of src/store.rs), `Advance` (advance_run and
--             fail_jobs_waiting_for_a_runner); `Agreement` and the folders hold proofs.
--   Worker    src/dispatch.rs, the run of a job: `Machine` (the state, the actions, the world outside),
--             `Calls` (one statement or call each), `Errors` (DispatchError, with VmError of src/vm.rs
--             and ImageError), `Images` (ensure_image), `Machines` (acquire_vm, release_vm,
--             resolve_existing_vm, capture_vm_log), `Commands` (wrap_command, split_outputs,
--             shell_quote, with ExecOutput of src/vm.rs and Step::label of src/workflow.rs), `Checkout`
--             (checkout, with stored_source of src/trigger.rs), `Scopes` (step_env and the contexts),
--             `Steps` (run_steps), `Job` (run_job, run_claimed), `Deliver` (a turn of consume); `Reason` is the rules to reason about
--             actions by, and with its folder, `Finished`, `Spared`, `Raced`, `HandedBack`
--             and `Answered` proofs; `Quoting` reads quoted words.
--   Examples  concrete values and each theorem at one of them.
--
-- State is passed explicitly: `Db` is the two tables, `Sched` the tables with the messages that the
-- broker took. A statement is atomic, as in the database, and takes the clock as an argument; the
-- two updates of `cancel_run`, which the source issues one after the other, are taken as one. An
-- interleaving of processes is a sequence of statements (`History`); a turn of the scheduler's loop
-- takes any tables, not only those that its job was read from. The run of a job is an action on the
-- tables and the list of what was done so far: before each statement and each call that waits, other
-- processes may change the tables, the time limit may cut the action off, and the database may
-- refuse the statement, as the world outside (`others`, `expired`, `refuses`) decides.
--
-- Parameters stand for what is outside the repository: the floating-point numbers and JSON text
-- (`World`), YAML values (`Yaml`), the broker (`Env.broker`), the snapshot of hosts, the hash, the
-- JSON and the files of a fingerprint (`Outside`), the database's collation, the rows that other
-- transactions have locked, and for the run of a job all that a machine, a daemon, the disk and the
-- store of secrets answer (`Worker.Machine.Outside`); an answer may depend on the whole state. The
-- wording of the scheduler's error texts is a parameter too (`Env.message`).
--
-- Fuel: the tokenizer has one unit per byte and the order of jobs one per job, since each round uses
-- one up; the glob loop has the bound `segment_fuel`. The parser has a depth of one more than the
-- number of tokens, since each bracket uses a token up, and one unit per token in each loop. The
-- search for a cycle has one unit more than there are jobs, since a visit that goes deeper marks
-- one more. The search for a job's key has one unit per used key, since a turn meets one more of them.
-- The wait for an image that another job builds takes 240 turns of ten seconds, the 40 minutes after
-- which the source gives up; it gives up earlier when the clock says so.
--
-- Where the source counts in machine integers, the time limit of a step wraps around as its 64 bits do;
-- the number of a delivery, which the source cuts to 32 bits, is taken to be below 2 ^ 31.
--
-- Not modelled: the calls inside src/vm.rs and the build of an image on a host, which are answers of
-- the world outside; run_action and the artifacts; the reading of the secret store; the heartbeat of a
-- message; the wording of most errors; web pages and the submit client, which are input and output
-- for the most part; YAML, which a library reads; the order and the limit of a batch of rows of the
-- job tables.
pub mod Common
pub mod Json
pub mod Expr
pub mod Paths
pub mod Workflow
pub mod Plan
pub mod Bus
pub mod Runners
pub mod Store
pub mod VmPool
pub mod Images
pub mod Secrets
pub mod Worker
pub mod Dispatch
pub mod Examples
