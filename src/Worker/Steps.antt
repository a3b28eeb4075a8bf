-- ===== src/Worker/Steps.antt =====
-- The steps of a job: `run_steps` of src/dispatch.rs.
use ci.Common.{
  ℕ, suc, ◌*◌, ◌%◌, ◌^◌, Bool, true, false, not, ◌&&◌, List, [], ◌∷◌, ◌++◌, Option, none, some,
  Text, codes, map, ltb, if◌then◌else◌, map_err,
}
use mathlib.Core.Option
use ci.Json.{Value, string, object, field, end, fields_of, map_insert, map_get}
use ci.Expr.Values.{World}
use ci.Expr.Call.{Context}
use ci.Expr.Substitute.{substitute}
use ci.Workflow.Jobs.{Step}
use ci.Plan.Jobs.{JobPlan}
use ci.Bus.{JobMessage}
use ci.Secrets.{Resolved, prefix, masker, mask, scopes}
use ci.Store.Rows.{Run}
use ci.Store.Tables.{get_run, jobs_of, is_job_cancelled}
use ci.Store.Steps
use ci.Store.Steps.{StepStatus, step_at, step_id, create_step, start_step, append_log, finish_step}
use ci.Dispatch.Guard.{needs_context, ci_scope}
use ci.Worker.Errors.{JobError, cancelled, step_failed, secrets, vm}
use ci.Worker.Machine.{
  acted, executed, secrets_read, Outside, ExecOutput, Act, pure, fail, lift, attempt, ◌>>=◌, ◌>>◌,
}
use ci.Worker.Calls.{ask, read_db, in_steps}
use ci.Worker.Commands.{default_workdir, wrap_command, split_outputs, succeeded, exit_text, label}
use ci.Worker.Scopes.{
  Scopes, Outputs, Turn, next, broken, step_env, job_context, step_context, should_step,
}

-- `DEFAULT_STEP_TIMEOUT`, in seconds.
abbrev default_step_timeout : ℕ
default_step_timeout = 1800

abbrev at_most : ℕ → ℕ → ℕ
at_most a b = if ltb b a then b else a

-- The product is one of 64 bits, and wraps around.
abbrev step_timeout : Option ℕ → ℕ
step_timeout none = default_step_timeout
step_timeout (some m) = (m * 60) % (2 ^ 64)

module _ (w : World) (env : Outside (w.numerics.Number) (w.numerics.F64)) where
  open w use {Number, F64}

  abbrev log_line : Text → Text → Act Number F64 (Unit {0})
  log_line sid text = in_steps env (λ s. append_log sid text)

  abbrev settle : Text → StepStatus → Option ℕ → Option Text → Act Number F64 (Unit {0})
  settle sid status code error = in_steps env (λ s. finish_step sid status code error (env.now s))

  -- A step that only has `uses:`.
  abbrev pub act_step : Scopes w → Outputs w → Step → Text → Text → Act Number F64 (Turn w)
  act_step sc outputs step sid id = do
    in_steps env (λ s. start_step sid sid (env.now s))
    attempt (ask env (acted id sid) (λ s. env.run_action s id sid step) >>= lift)
        (λ note. do
          log_line sid (mask sc.masked note)
          settle sid Steps.success (some 0) none
          pure (next outputs))
        (λ e. do
          let detail = mask sc.masked (env.to_string e)
          log_line sid (codes "[ci] " ++ (detail ++ codes "\n"))
          settle sid Steps.failure none (some detail)
          pure (if step.continue_on_error then next outputs else broken outputs detail))

  abbrev outcome_text : Bool → Text
  outcome_text true = codes "success"
  outcome_text false = codes "failure"

  abbrev outcome_status : Bool → StepStatus
  outcome_status true = Steps.success
  outcome_status false = Steps.failure

  abbrev with_outputs : Option Text → Outputs w → Bool → Outputs w → Outputs w
  with_outputs none declared passed outputs = outputs
  with_outputs (some id) declared passed outputs =
      map_insert id
        (object (
          field (codes "outcome") (string (outcome_text passed))
            (field (codes "outputs") (object (fields_of declared)) end)))
        outputs

  abbrev exit_reason : Step → ℕ → ℕ → Text
  exit_reason step idx code =
      codes "step " ++ (env.quoted (label step idx) ++ (codes " exited " ++ exit_text code))

  abbrev pub ran : Scopes w → Outputs w → Step → ℕ → Text → ExecOutput → Act Number F64 (Turn w)
  ran sc outputs step idx sid out = do
    let declared = split_outputs out sid
    let passed = succeeded out
    log_line sid (mask sc.masked declared.0)
    settle sid (outcome_status passed) (some out.exit_code) none
    let after = with_outputs step.id declared.1 passed outputs
    pure (
        if not passed && not step.continue_on_error
        then broken after (exit_reason step idx out.exit_code)
        else next after)

  abbrev pub run_script :
      JobPlan Number
      → Scopes w
      → Context w
      → Outputs w
      → Step
      → ℕ
      → Text
      → Text
      → Text
      → Act Number F64 (Turn w)
  run_script plan sc ctx outputs step idx sid id script = do
    in_steps env (λ s. start_step sid sid (env.now s))
    let workdir = Option.get_or plan.vm.working_directory default_workdir
    let command = wrap_command (substitute w ctx script) step sid workdir
    let limit = at_most (step_timeout step.timeout_minutes) plan.timeout
    attempt
        (ask env (executed id sid) (λ s. env.exec s id sid command (step_env w plan step ctx) limit)
          >>= λ answer. lift (map_err vm answer))
        (ran sc outputs step idx sid)
        (λ e. do
          let detail = mask sc.masked (env.to_string e)
          log_line sid (codes "\n[ci] " ++ (detail ++ codes "\n"))
          settle sid Steps.failure none (some detail)
          pure (broken outputs detail))

  abbrev pub run_or_act :
      JobPlan Number
      → Scopes w
      → Context w
      → Outputs w
      → Step
      → ℕ
      → Text
      → Text
      → Option Text
      → Act Number F64 (Turn w)
  run_or_act plan sc ctx outputs step idx sid id none = act_step sc outputs step sid id
  run_or_act plan sc ctx outputs step idx sid id (some script) =
      run_script plan sc ctx outputs step idx sid id script

  abbrev pub stop_if : Bool → Text → Act Number F64 (Unit {0})
  stop_if stopped key = if stopped then fail (cancelled key) else pure tt

  abbrev if_should : {A : Type 0} → Bool → A → A → A
  if_should should run skip = if should then run else skip

  -- One turn of the loop over the steps.
  unfoldable pub run_step :
      JobMessage
      → JobPlan Number
      → Scopes w
      → Text
      → Option Text
      → Outputs w
      → ℕ
      → Step
      → Act Number F64 (Turn w)
  run_step msg plan sc id failed outputs idx step = do
    stopped ← read_db env (is_job_cancelled msg.job_id)
    stop_if stopped plan.key
    let sid = step_id msg.job_id idx
    in_steps env (λ s. create_step sid msg.job_id (step_at idx) (label step idx) step.uses)
    let ctx = step_context w plan sc outputs failed
    should ← lift (should_step w ctx failed step.condition)
    if_should should (run_or_act plan sc ctx outputs step idx sid id step.run)
        (settle sid Steps.skipped none none >> pure (next outputs))

  abbrev pub after_turn :
      (Outputs w → Act Number F64 (Outputs w × Option Text))
      → Turn w
      → Act Number F64 (Outputs w × Option Text)
  after_turn go_on (next outputs) = go_on outputs
  after_turn go_on (broken outputs reason) = pure (outputs, some reason)

  unfoldable pub step_loop :
      JobMessage
      → JobPlan Number
      → Scopes w
      → Text
      → Option Text
      → ℕ
      → List Step
      → Outputs w
      → Act Number F64 (Outputs w × Option Text)
  unfolding run_step
  step_loop msg plan sc id failed idx [] outputs = pure (outputs, failed)
  step_loop msg plan sc id failed idx (step ∷ rest) outputs =
      run_step msg plan sc id failed outputs idx step
      >>= after_turn (step_loop msg plan sc id failed (suc idx) rest)

  abbrev workflow_of : Option Run → Text
  workflow_of none = []
  workflow_of (some r) = r.workflow_id

  abbrev resolved_scopes : Value Number → Value Number → Resolved → Scopes w
  resolved_scopes needs ci r = record {
    needs = needs;
    ci = ci;
    secret_scope = (scopes r).0;
    vars_scope = (scopes r).1;
    masked = masker r;
  }

  abbrev resolving : Text → Text → JobError F64
  resolving path e = secrets (codes "resolving " ++ (path ++ (codes ": " ++ e)))

  abbrev job_outputs : JobPlan Number → Scopes w → Outputs w → Outputs w
  job_outputs plan sc outputs =
      map (λ o. (o.0, string (mask sc.masked (substitute w (job_context w plan sc outputs) o.1))))
        plan.outputs

  abbrev pub job_result :
      JobPlan Number → Scopes w → Outputs w × Option Text → Act Number F64 (Outputs w)
  job_result plan sc (outputs, some reason) = fail (step_failed reason)
  job_result plan sc (outputs, none) = pure (job_outputs plan sc outputs)

  unfoldable pub run_steps : JobMessage → JobPlan Number → Text → Act Number F64 (Outputs w)
  unfolding step_loop
  run_steps msg plan id = do
    needs ← read_db env (λ db. object (needs_context (jobs_of msg.run_id db)))
    run ← read_db env (get_run msg.run_id)
    let environment = Option.get_or (map_get (codes "CI_ENVIRONMENT") plan.env) (codes "default")
    let path = prefix (workflow_of run) environment
    answer ← ask env (secrets_read path) (λ s. env.resolve s path)
    resolved ← lift (map_err (resolving path) answer)
    let sc = resolved_scopes needs (ci_scope run) resolved
    ended ← step_loop msg plan sc id none 0 plan.steps []
    job_result plan sc ended
