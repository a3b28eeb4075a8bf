-- ===== src/Worker/Job.antt =====
-- One delivery of a job: `run_job` and `run_claimed` of src/dispatch.rs.
use ci.Common.{ℕ, Bool, true, false, Option, none, some, Text, codes, if◌then◌else◌, map_err}
use ci.Expr.Values.{World}
use ci.Plan.Jobs.{JobPlan}
use ci.Bus.{JobMessage}
use ci.Workflow.Jobs.{ImageBuild}
use ci.Store.Status.{JobStatus, job_status_text, job_is_terminal}
use ci.Store.Rows.{JobRow}
use ci.Store.Tables.{get_job, claim_job, start_job, set_job_outputs, set_job_status}
use ci.Dispatch.Place.{pick_runner}
use ci.Worker.Errors.{
  JobError, store, placement, bad_plan, unknown_job, cancelled, pool, is_tunnel_failure,
  indicates_guest_corruption,
}
use ci.Worker.Machine.{Outside, Act, started_on, pure, fail, lift, attempt, peek, ◌>>=◌, ◌>>◌}
use ci.Worker.Calls.{
  issue, in_db, on_db, read_db, publish_event, evict, options_for, open_vm, ensure_running,
}
use ci.Worker.Machines.{resolve_existing_vm, acquire_vm, release_vm, capture_vm_log}
use ci.Worker.Images.{ensure_image}
use ci.Worker.Checkout.{checkout}
use ci.Worker.Steps.{run_steps}

module _ (w : World) (env : Outside (w.numerics.Number) (w.numerics.F64)) where
  open w use {Number, F64}

  -- `vm.build` becomes `vm.image`, on the local plan only.
  abbrev pub with_image : JobPlan Number → Text → JobPlan Number
  with_image plan name = record plan { vm = record plan.vm { image = some name; build = none } }

  unfoldable pub resolve_image :
      JobMessage → Text → JobPlan Number → Option ImageBuild → Act Number F64 (JobPlan Number)
  resolve_image msg runner plan none = pure plan
  resolve_image msg runner plan (some build) =
      ensure_image env runner plan build msg >>= λ name. pure (with_image plan name)

  -- The machine, whether it was there before, and the fingerprint that is written to the row.
  unfoldable pub get_vm :
      JobMessage → Text → JobPlan Number → Option Text → Act Number F64 (Text × Text)
  get_vm msg runner plan (some wanted) = do
    id ← resolve_existing_vm env runner wanted
    options_for env runner
    open_vm env id
    ensure_running env id
    pure (id, codes "existing")
  get_vm msg runner plan none = do
    fingerprint ← lift (map_err pool (env.fingerprint plan.vm msg.run_id))
    vm ← acquire_vm env runner plan fingerprint msg.job_id
    pure (vm.0, fingerprint)

  -- What becomes of a job whose steps have ended.
  abbrev is_cancelled_error : JobError F64 → Bool
  is_cancelled_error (cancelled key) = true
  is_cancelled_error _ = false

  unfoldable pub failed_status : JobPlan Number → JobError F64 → JobStatus
  failed_status plan e =
      if is_cancelled_error e
      then JobStatus.cancelled
      else if plan.continue_on_error
      then JobStatus.success
      else JobStatus.failure

  abbrev job_event : JobPlan Number → JobStatus → Act Number F64 (Unit {0})
  job_event plan status = publish_event env plan.key (job_status_text status)

  abbrev pub evict_if : Bool → Text → Act Number F64 (Unit {0})
  evict_if dead runner = if dead then evict env runner else pure tt

  -- The end of a job: its final status, its error.
  unfoldable pub finish_job :
      JobMessage → JobPlan Number → JobStatus → Option Text → Act Number F64 JobStatus
  finish_job msg plan status error = do
    in_db env (λ s. set_job_status msg.job_id status error (env.now s))
    job_event plan status
    pure status

  -- The machine is handed back before the outcome is looked at.
  unfoldable pub hand_back : JobMessage → JobPlan Number → Text → Bool → Act Number F64 (Unit {0})
  unfolding capture_vm_log release_vm
  hand_back msg plan id guest_corrupted =
      capture_vm_log env msg id >> release_vm env plan id guest_corrupted

  unfoldable pub use_vm : JobMessage → JobPlan Number → Text → Text → Act Number F64 JobStatus
  unfolding hand_back finish_job failed_status
  use_vm msg plan runner id = do
    publish_event env plan.key (codes "running")
    attempt (checkout env msg plan id >> run_steps w env msg plan id)
        (λ outputs. do
          hand_back msg plan id false
          in_db env (λ s. set_job_outputs msg.job_id outputs)
          finish_job msg plan JobStatus.success none)
        (λ e. do
          hand_back msg plan id (indicates_guest_corruption env.to_string e)
          evict_if (is_tunnel_failure e) runner
          finish_job msg plan (failed_status plan e) (some (env.to_string e)))

  abbrev pub starting : JobMessage → ℕ → Text → Text × Text → Act Number F64 Bool
  starting msg attempt_no runner vm = issue env (started_on vm.0) store (λ s t.
      let changed = start_job msg.job_id runner vm.0 vm.1 attempt_no (env.now s) t.db in
      (record t { db = changed.0 }, changed.1))

  -- `start_job`; another process may have finished the job meanwhile.
  abbrev pub when_started :
      JobMessage → JobPlan Number → Text → Text → Bool → Act Number F64 JobStatus
  when_started msg plan runner id true = use_vm msg plan runner id
  when_started msg plan runner id false = release_vm env plan id false >> pure JobStatus.success

  abbrev pub when_claimed :
      JobMessage → ℕ → JobPlan Number → Text → Option Text → Bool → Act Number F64 JobStatus
  when_claimed msg attempt_no plan runner existing false = pure JobStatus.success
  when_claimed msg attempt_no plan runner existing true = do
    publish_event env plan.key (codes "running")
    local ← resolve_image msg runner plan plan.vm.build
    vm ← get_vm msg runner local existing
    started ← starting msg attempt_no runner vm
    when_started msg local runner vm.0 started

  unfoldable pub run_claimed :
      JobMessage → ℕ → JobPlan Number → Text → Option Text → Act Number F64 JobStatus
  unfolding resolve_image get_vm use_vm
  run_claimed msg attempt_no plan runner existing = do
    mine ← on_db env (λ s. claim_job msg.job_id runner attempt_no (env.now s))
    when_claimed msg attempt_no plan runner existing mine

  abbrev pub on_runner :
      JobMessage → ℕ → JobPlan Number → Text × Option Text → Act Number F64 JobStatus
  on_runner msg attempt_no plan (runner, existing) =
      attempt (run_claimed msg attempt_no plan runner existing) pure
        (λ e. evict_if (is_tunnel_failure e) runner >> fail e)

  abbrev pub with_plan : JobMessage → ℕ → Option (JobPlan Number) → Act Number F64 JobStatus
  with_plan msg attempt_no none = fail bad_plan
  with_plan msg attempt_no (some plan) = do
    picked ← peek (λ s. pick_runner (env.pool s) plan.target plan.fallback)
    runner ← lift (map_err placement picked)
    on_runner msg attempt_no plan runner

  abbrev pub with_row : JobMessage → ℕ → Option (JobRow Number) → Act Number F64 JobStatus
  with_row msg attempt_no none = fail (unknown_job msg.job_id)
  with_row msg attempt_no (some row) =
      if job_is_terminal row.status
      then pure JobStatus.success
      else with_plan msg attempt_no row.plan

  unfoldable pub run_job : JobMessage → ℕ → Act Number F64 JobStatus
  unfolding run_claimed
  run_job msg attempt_no = read_db env (get_job msg.job_id) >>= with_row msg attempt_no
