-- ===== src/Worker/Machines.antt =====
-- The machine of a job: `resolve_existing_vm`, `acquire_vm`, `release_vm` and `capture_vm_log` of
-- src/dispatch.rs, with `sandbox_name` of src/vm.rs.
use ci.Common.{
  ℕ, Bool, true, false, not, ◌&&◌, ◌||◌, List, ◌∷◌, ◌++◌, Option, none, some, Text, codes, map,
  text_eq, find, trim, is_empty, is_alnum, starts_with, contains, if◌then◌else◌, Result, ok, err,
  map_err,
}
use ci.Plan.Jobs.{JobPlan}
use ci.Workflow.Target.{eq_ignore_case, is_existing_vm}
use ci.Bus.{JobMessage}
use ci.Store.Steps
use ci.Store.Steps.{vm_log_index, create_step, append_log, finish_step}
use ci.VmPool
use ci.Images
use ci.Worker.Errors.{VmError, daemon, vm, unknown_vm}
use ci.Worker.Machine.{
  statement, created, listed, read_logs, forgotten, released, Outside, Sandbox, Act, pure, peek,
  fail, attempt, ignore, lift, ◌>>=◌, ◌>>◌,
}
use ci.Worker.Calls.{
  ask, on_vms, in_vms, in_images, in_steps, options_for, open_vm, ensure_running, renew_ttl,
  destroy,
}

abbrev name_char : ℕ → ℕ
name_char c = if is_alnum c then c else b'-'

-- `sandbox_name`; the counter is given as it is printed.
unfoldable pub sandbox_name : Text → Text → Text → Text
sandbox_name workflow fingerprint nonce =
    codes "ci-" ++ (map name_char workflow ++ (b'-' ∷ (fingerprint ++ (b'-' ∷ nonce))))

abbrev answers_to : Text → Sandbox → Bool
answers_to wanted s = text_eq s.id wanted || eq_ignore_case s.name wanted

abbrev described : Sandbox → Text
described s = if is_empty s.name then s.id else s.name ++ (codes " (" ++ (s.id ++ codes ")"))

-- The check on a machine that could not be made.
abbrev is_missing_image : Option Text → Text → Bool
is_missing_image none text = false
is_missing_image (some image) text =
    starts_with (codes "ci-img-") image && contains text (codes "not found")

module _ {N F64 : Type 0} (env : Outside N F64) where
  abbrev pub found : Text → Text → List Sandbox → Option Sandbox → Act N F64 Text
  found runner wanted sandboxes (some s) = pure s.id
  found runner wanted sandboxes none = fail (unknown_vm wanted runner (map described sandboxes))

  unfoldable pub resolve_existing_vm : Text → Text → Act N F64 Text
  resolve_existing_vm runner wanted = do
    options_for env runner
    answer ← ask env (listed runner) (λ s. env.list s runner)
    sandboxes ←
        lift (map_err (λ e. vm (daemon wanted (codes "listing sandboxes on the node") e)) answer)
    found runner wanted sandboxes (find (answers_to wanted) sandboxes)

  -- The machine of the pool that was claimed, if it runs.
  abbrev pub warm : Text → Act N F64 (Option Text)
  warm id = do
    open_vm env id
    attempt (ensure_running env id) (λ u. ignore (renew_ttl env id) >> pure (some id))
        (λ e. ignore (in_vms env (forgotten id) (λ s. VmPool.forget id)) >> pure none)

  abbrev pub warm_if : Option Text → Act N F64 (Option Text)
  warm_if none = pure none
  warm_if (some id) = warm id

  -- The claim of `acquire_vm`.
  abbrev pub claim_warm : Text → JobPlan N → Text → Text → Act N F64 (Option Text)
  claim_warm runner plan fingerprint job =
      if plan.vm.reuse
      then on_vms env statement
          (λ s. VmPool.claim (env.locked s) runner fingerprint job env.lease (env.now s))
        >>= warm_if
      else pure none

  -- The row `building`, which is only for looking at.
  abbrev pub clear_building : Option Text → Act N F64 (Unit {0})
  clear_building none = pure tt
  clear_building (some id) = ignore (in_vms env (forgotten id) (λ s. VmPool.forget id))

  abbrev pub forget_image : Text → Option Text → Act N F64 (Unit {0})
  forget_image runner none = pure tt
  forget_image runner (some image) = ignore (in_images env (λ s. Images.forget image runner))

  abbrev pub heal_catalog : Text → JobPlan N → Result VmError Text → Act N F64 (Unit {0})
  heal_catalog runner plan (ok id) = pure tt
  heal_catalog runner plan (err e) =
      if is_missing_image plan.vm.image (env.to_string (vm e))
      then forget_image runner plan.vm.image
      else pure tt

  abbrev pub build_vm : Text → JobPlan N → Text → Text → Act N F64 Text
  build_vm runner plan fingerprint job = do
    name ← peek (λ s. sandbox_name plan.base_id fingerprint (env.nonce s))
    building ←
        attempt
          (on_vms env statement
            (λ s. VmPool.begin_build job runner fingerprint plan.base_id env.lease (env.now s)))
          (λ id. pure (some id)) (λ e. pure none)
    answer ← ask env (created name) (λ s. env.create_vm s runner name plan.vm)
    clear_building building
    heal_catalog runner plan answer
    id ← lift (map_err vm answer)
    in_vms env statement
        (λ s. VmPool.register id runner fingerprint plan.base_id job env.lease (env.now s))
    pure id

  abbrev pub warm_or_built : Text → JobPlan N → Text → Text → Option Text → Act N F64 (Text × Bool)
  warm_or_built runner plan fingerprint job (some id) = pure (id, true)
  warm_or_built runner plan fingerprint job none =
      build_vm runner plan fingerprint job >>= λ id. pure (id, false)

  unfoldable pub acquire_vm : Text → JobPlan N → Text → Text → Act N F64 (Text × Bool)
  acquire_vm runner plan fingerprint job = do
    options_for env runner
    claimed ← claim_warm runner plan fingerprint job
    warm_or_built runner plan fingerprint job claimed

  unfoldable pub release_vm : JobPlan N → Text → Bool → Act N F64 (Unit {0})
  release_vm plan id guest_corrupted =
      if is_existing_vm plan.target
      then pure tt
      else if not plan.vm.reuse || guest_corrupted
      then ignore (destroy env id) >> ignore (in_vms env (forgotten id) (λ s. VmPool.forget id))
      else ignore (renew_ttl env id)
        >> ignore (in_vms env (released id) (λ s. VmPool.release id (env.now s)))

  abbrev pub console_text : Result VmError Text → Text
  console_text (ok text) =
      if is_empty (trim text)
      then codes "[ci] the daemon reported no console output for this VM\n"
      else text
  console_text (err e) =
      codes "[ci] could not read this VM's logs: " ++ (env.to_string (vm e) ++ codes "\n")

  -- A row with its log, as `attach_build_log` and `capture_vm_log` add one after the fact.
  unfoldable pub attach :
      Text → Text → Steps.StepIndex → Text → Act N F64 Text → Act N F64 (Unit {0})
  attach sid job idx name content =
      attempt (in_steps env (λ s. create_step sid job idx name none))
        (λ u. do
          text ← content
          ignore (in_steps env (λ s. append_log sid text))
          ignore (in_steps env (λ s. finish_step sid Steps.success (some 0) none (env.now s))))
        (λ e. pure tt)

  unfoldable pub capture_vm_log : JobMessage → Text → Act N F64 (Unit {0})
  unfolding attach
  capture_vm_log msg id =
      attach (msg.job_id ++ codes ".vmlog") msg.job_id vm_log_index (codes "VM log")
        (ask env (read_logs id) (λ s. env.logs s id) >>= λ answer. pure (console_text answer))
