-- ===== src/Plan/Build.antt =====
-- `Plan::build` of src/plan.rs: from a workflow to its jobs, with their cells, keys and labels.
pub mod Distinct
use ci.Common.{
  ℕ, suc, ◌*◌, ◌%◌, ◌^◌, Bool, true, List, [], ◌∷◌, ◌++◌, Option, none, some, Text, text_eq, map,
  keep, Result, ok, err, ◌>>=◌, map_err,
}
use mathlib.Core.Option
use ci.Json.{Value}
use ci.Expr.Values.{World}
use ci.Expr.Substitute.{substitute}
use ci.Workflow.Target.{Target, UsesError}
use ci.Workflow.Jobs.{Job, Workflow, Strategy, VmSpec, job_target}
use ci.Plan.Jobs.{JobPlan, Plan}
use ci.Plan.Context.{base_context}
use ci.Plan.Keys.{unique_key, display_label}
use ci.Plan.Matrix.{Yaml, CellsError, expand_matrix}
use ci.Plan.Order.{OrderStop, topological_order}

-- `PlanError`; `no_key` is the end of the fuel of the search for a key.
pub data PlanError : Type 0 where
  bad_uses : UsesError → PlanError
  bad_cells : Text → CellsError → PlanError
  unordered : OrderStop → PlanError
  no_key : PlanError

-- `DEFAULT_JOB_TIMEOUT_MINUTES`.
abbrev default_job_timeout_minutes : ℕ
default_job_timeout_minutes = 60

abbrev strategy_matrix : {Y : Type 0} → Option (Strategy Y) → Option Y
strategy_matrix none = none
strategy_matrix (some s) = s.matrix

abbrev strategy_parallel : {Y : Type 0} → Option (Strategy Y) → Option ℕ
strategy_parallel none = none
strategy_parallel (some s) = s.max_parallel

abbrev strategy_fail_fast : {Y : Type 0} → Option (Strategy Y) → Bool
strategy_fail_fast none = true
strategy_fail_fast (some s) = s.fail_fast

-- `cells_of`.
unfoldable pub cells_of : {N : Type 0} → Text → List (JobPlan N) → List (JobPlan N)
cells_of base jobs = keep (λ j. text_eq j.base_id base) jobs

-- What the loops carry: the jobs so far and the keys that are used.
abbrev pub Planned : Type 0 → Type 0
Planned N = Result PlanError (List (JobPlan N) × List Text)

abbrev pub before_jobs : {N : Type 0} → List (JobPlan N) → Planned N → Planned N
before_jobs cells (err e) = err e
before_jobs cells (ok (rest, used)) = ok (cells ++ rest, used)

module _ (w : World) where
  open w use {Number, json_text}

  abbrev on_values : (Text → Text) → List (Text × Text) → List (Text × Text)
  on_values f entries = map (λ kv. (kv.0, f kv.1)) entries

  -- The context is the one of the job as it is before any field changes.
  unfoldable pub substitute_matrix : JobPlan Number → JobPlan Number
  unfolding substitute base_context
  substitute_matrix job =
      let text = substitute w (base_context w job) in
      record job {
        target = record job.target {
          network = Option.map text job.target.network;
          node = Option.map text job.target.node;
        };
        vm = record job.vm {
          image = Option.map text job.vm.image;
          env_vars = on_values text job.vm.env_vars;
          setup_hooks = map text job.vm.setup_hooks;
        };
        env = on_values text job.env;
      }

  module _ (yaml : Yaml Number) (value_eq : Value Number → Value Number → Bool) where
    open yaml use {Y}

    -- The minutes are a `u64`.
    abbrev pub cell_plan :
        Text → Job Y → List (Text × Value Number) → Text → Target → JobPlan Number
    unfolding display_label
    cell_plan id job matrix key target = record {
      key = key;
      base_id = id;
      display = display_label json_text job.name id matrix;
      target = target;
      fallback = job.fallback;
      vm = job.vm;
      needs = job.needs;
      condition = job.condition;
      matrix = matrix;
      env = job.env;
      outputs = job.outputs;
      continue_on_error = job.continue_on_error;
      timeout = (Option.get_or job.timeout_minutes default_job_timeout_minutes * 60) % 2 ^ 64;
      steps = job.steps;
      max_parallel = strategy_parallel job.strategy;
      fail_fast = strategy_fail_fast job.strategy;
    }

    -- The inner loop: `index` counts the cells, and the used keys are threaded through.
    unfoldable pub build_cells :
        Text → Job Y → List (List (Text × Value Number)) → ℕ → List Text → Planned Number
    unfolding unique_key job_target substitute_matrix display_label
    build_cells id job [] index used = ok ([], used)
    build_cells id job (matrix ∷ cells) index used =
        elim (unique_key json_text id matrix index used) [
          | none ↦ err no_key
          | some (key, used') ↦
              let rest = build_cells id job cells (suc index) used' in
              map_err bad_uses (job_target job) >>= λ target.
              before_jobs (substitute_matrix (cell_plan id job matrix key target) ∷ []) rest
        ]

    unfoldable pub build_jobs : List (Text × Job Y) → List Text → Planned Number
    unfolding build_cells expand_matrix
    build_jobs [] used = ok ([], used)
    build_jobs ((id, job) ∷ jobs) used =
        map_err (bad_cells id) (expand_matrix yaml value_eq (strategy_matrix job.strategy))
        >>= λ cells. build_cells id job cells 0 used >>= λ built.
            before_jobs built.0 (build_jobs jobs built.1)

    unfoldable pub build : Workflow Y → Result PlanError (Plan Number)
    unfolding build_jobs topological_order
    build wf = do
      built ← build_jobs wf.jobs []
      ordered ← map_err unordered (topological_order built.0)
      ok (record { workflow_path = wf.path; workflow_name = wf.name; env = wf.env; jobs = ordered })
