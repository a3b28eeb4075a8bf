-- ===== src/Worker/Scopes.antt =====
-- What a step and a condition see: `step_env`, `config_env` and the contexts of `run_steps` in
-- src/dispatch.rs.
use ci.Common.{
  Bool, true, false, List, [], ◌∷◌, Option, none, some, Text, codes, if◌then◌else◌, Result, ok,
  map_err,
}
use ci.Json.{Value, object, fields_of, map_insert}
use ci.Expr.Values.{World}
use ci.Expr.Call.{Context, set_scope, set_status}
use ci.Expr.Eval.{eval_condition}
use ci.Expr.Substitute.{substitute}
use ci.Workflow.Jobs.{Step}
use ci.Plan.Jobs.{JobPlan}
use ci.Plan.Context.{base_context}
use ci.Worker.Errors.{JobError, condition}

abbrev is_none {ℓ} : {A : Type ℓ} → Option A → Bool
is_none none = true
is_none (some a) = false

module _ (w : World) where
  open w use {Number, F64}

  -- `step_env`, with `config_env`.
  abbrev add_substituted : Context w → List (Text × Text) → List (Text × Text) → List (Text × Text)
  add_substituted ctx env [] = env
  add_substituted ctx env ((k, v) ∷ more) =
      add_substituted ctx (map_insert k (substitute w ctx v) env) more

  unfoldable pub config_env : JobPlan Number → List (Text × Text)
  config_env plan =
      map_insert (codes "CI_JOB_KEY") plan.key
        (map_insert (codes "CI_JOB") plan.base_id (map_insert (codes "CI") (codes "true") []))

  unfoldable pub step_env : JobPlan Number → Step → Context w → List (Text × Text)
  unfolding config_env
  step_env plan step ctx =
      add_substituted ctx (add_substituted ctx (config_env plan) plan.env) step.env

  -- What the steps of a job share: the scopes and the values to be masked.
  pub record Scopes : Type 0 where
    pub needs : Value Number
    pub ci : Value Number
    pub secret_scope : Value Number
    pub vars_scope : Value Number
    pub masked : List Text

  -- The outputs of the steps so far, by the id of the step.
  abbrev pub Outputs : Type 0
  Outputs = List (Text × Value Number)

  unfoldable pub job_context : JobPlan Number → Scopes → Outputs → Context w
  job_context plan sc outputs = set_scope w (codes "ci") sc.ci (
      set_scope w (codes "vars") sc.vars_scope (
        set_scope w (codes "secrets") sc.secret_scope (
          set_scope w (codes "steps") (object (fields_of outputs))
            (set_scope w (codes "needs") sc.needs (base_context w plan)))))

  unfoldable pub step_context : JobPlan Number → Scopes → Outputs → Option Text → Context w
  unfolding job_context
  step_context plan sc outputs failed =
      set_status w (if is_none failed then codes "success" else codes "failure")
        (job_context plan sc outputs)

  abbrev pub should_step : Context w → Option Text → Option Text → Result (JobError F64) Bool
  should_step ctx failed none = ok (is_none failed)
  should_step ctx failed (some c) = map_err condition (eval_condition w ctx c)

  -- How a turn of the loop ends: with the outputs for the next one, or with the failure that
  -- breaks the loop.
  pub data Turn : Type 0 where
    next : Outputs → Turn
    broken : Outputs → Text → Turn
