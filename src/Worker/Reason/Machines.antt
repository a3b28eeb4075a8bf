-- ===== src/Worker/Reason/Machines.antt =====
-- What is closed under a dispatcher's actions is kept by everything that it does with machines and
-- with images.
use ci.Common.{
  ℕ, zero, suc, ◌≡◌, refl, arith, Bool, true, false, not, ◌||◌, List, Option, none, some, Text,
  Result, ok, err,
}
use ci.Plan.Jobs.{JobPlan}
use ci.Workflow.Jobs.{ImageBuild}
use ci.Workflow.Target.{is_existing_vm}
use ci.Bus.{JobMessage}
use ci.Store.Steps
use ci.Images
use ci.VmPool
use ci.Worker.Errors.{VmError, ImageError}
use ci.Worker.Machine.{
  Action, started_on, created, destroyed, released, forgotten, renewed_ttl, State, Outside, Sandbox,
  Act, ignore,
}
use ci.Worker.Calls.{options_for, open_vm, ensure_running, renew_ttl, in_steps, in_vms}
use ci.Worker.Machines.{
  resolve_existing_vm, acquire_vm, release_vm, attach, capture_vm_log, found, warm_if, claim_warm,
  clear_building, forget_image, heal_catalog, build_vm, warm_or_built,
}
use ci.Worker.Images.{
  attach_build_log, claim_build, claim_image, on_claim, built, build_here, ensure_image, waits,
}
use ci.Worker.Reason.{
  Keeps, Closed, Keeps-bind, Keeps-attempt, Keeps-pure, Keeps-fail, Keeps-peek, Keeps-lift,
  Keeps-if, Keeps-ignore, Keeps-ask, Keeps-issue, Keeps-lift_vm, Keeps-lift_runner,
}

-- The actions that neither make a machine, nor take one up, nor give one up.
abbrev pub is_tame : Action → Bool
is_tame (started_on i) = false
is_tame (created n) = false
is_tame (destroyed i) = false
is_tame (released i) = false
is_tame (forgotten i) = false
is_tame (renewed_ttl i) = false
is_tame _ = true

-- The action that takes a machine up.
abbrev pub is_start : Action → Bool
is_start (started_on i) = true
is_start _ = false

tame_ne_start : (a : Action) → is_tame a ≡ true → is_start a ≡ false
tame_ne_start a t = ground arith

module _ {N F64 : Type 0} (env : Outside N F64) {allowed : Action → Bool} {P : State N → Type 0}
    (c : Closed env allowed P) (tame : (a : Action) → is_tame a ≡ true → allowed a ≡ true) where
  pub options_for-Keeps : (r : Text) → Keeps P (options_for env r)
  options_for-Keeps r =
      Keeps-bind (Keeps-ask env c _ _ (tame _ refl)) (λ o. Keeps-lift_runner env o)

  pub open_vm-Keeps : (id : Text) → Keeps P (open_vm env id)
  open_vm-Keeps id = Keeps-bind (Keeps-ask env c _ _ (tame _ refl)) (λ o. Keeps-lift_vm env o)

  pub ensure_running-Keeps : (id : Text) → Keeps P (ensure_running env id)
  ensure_running-Keeps id =
      Keeps-bind (Keeps-ask env c _ _ (tame _ refl)) (λ o. Keeps-lift_vm env o)

  pub in_steps-Keeps :
      (change : State N → List Steps.StepRow → List Steps.StepRow) → Keeps P (in_steps env change)
  in_steps-Keeps change = Keeps-issue env c _ _ _ (tame _ refl) (λ s p. c.steps s _ p)

  found-Keeps :
      (r v : Text) (all : List Sandbox) (o : Option Sandbox) → Keeps P (found env r v all o)
  found-Keeps r v all none = Keeps-fail _
  found-Keeps r v all (some x) = Keeps-pure _

  pub resolve_existing_vm-Keeps : (r v : Text) → Keeps P (resolve_existing_vm env r v)
  unfolding resolve_existing_vm
  resolve_existing_vm-Keeps r v = Keeps-bind (options_for-Keeps r) (λ u.
      Keeps-bind (Keeps-ask env c _ _ (tame _ refl))
        (λ answer. Keeps-bind (Keeps-lift _) (λ boxes. found-Keeps r v boxes _)))

  pub attach-Keeps :
      (sid job : Text) (i : Steps.StepIndex) (name : Text) {content : Act N F64 Text}
      → Keeps P content
      → Keeps P (attach env sid job i name content)
  unfolding attach
  attach-Keeps sid job i name k =
      Keeps-attempt (in_steps-Keeps _)
        (λ u. Keeps-bind k (λ text.
          Keeps-bind (Keeps-ignore (in_steps-Keeps _)) (λ v. Keeps-ignore (in_steps-Keeps _))))
        (λ e. Keeps-pure tt)

  pub capture_vm_log-Keeps : (msg : JobMessage) (id : Text) → Keeps P (capture_vm_log env msg id)
  unfolding capture_vm_log
  capture_vm_log-Keeps msg id =
      attach-Keeps _ _ _ _ (Keeps-bind (Keeps-ask env c _ _ (tame _ refl)) (λ answer. Keeps-pure _))

  pub attach_build_log-Keeps :
      (msg : JobMessage) (name text : Text) → Keeps P (attach_build_log env msg name text)
  unfolding attach_build_log
  attach_build_log-Keeps msg name text = attach-Keeps _ _ _ _ (Keeps-pure text)

  claim_image-Keeps :
      (name r : Text) (plan : JobPlan N) (job : Text) → Keeps P (claim_image env name r plan job)
  claim_image-Keeps name r plan job = Keeps-issue env c _ _ _ (tame _ refl) (λ s p. c.images s _ p)

  on_claim-Keeps :
      (name : Text) {later : Act N F64 Bool} (found_as : Images.Claim)
      → Keeps P later
      → Keeps P (on_claim env name later found_as)
  on_claim-Keeps name Images.use_ready k = Keeps-pure _
  on_claim-Keeps name Images.build k = Keeps-pure _
  on_claim-Keeps name Images.in_progress k = k

  pub claim_build-Keeps :
      (left : ℕ) (name r : Text) (plan : JobPlan N) (job : Text)
      → Keeps P (claim_build env left name r plan job)
  unfolding claim_build
  claim_build-Keeps zero name r plan job =
      Keeps-bind (claim_image-Keeps name r plan job) (λ f. on_claim-Keeps name f (Keeps-fail _))
  claim_build-Keeps (suc left) name r plan job =
      Keeps-bind (claim_image-Keeps name r plan job) (λ f. on_claim-Keeps name f (
        Keeps-bind (Keeps-peek _) (λ late. Keeps-if late (Keeps-fail _) (
          Keeps-bind (Keeps-ask env c _ _ (tame _ refl))
            (λ u. claim_build-Keeps left name r plan job)))))

  built-Keeps :
      (name r : Text) (msg : JobMessage) (answer : Result ImageError (ℕ × Text))
      → Keeps P (built env name r msg answer)
  built-Keeps name r msg (ok (size, log)) = Keeps-bind (attach_build_log-Keeps msg name log) (λ u.
      Keeps-bind (Keeps-issue env c _ _ _ (tame _ refl) (λ s p. c.images s _ p))
        (λ v. Keeps-pure name))
  built-Keeps name r msg (err e) =
      Keeps-bind (Keeps-ignore (Keeps-issue env c _ _ _ (tame _ refl) (λ s p. c.images s _ p)))
        (λ u. Keeps-bind (attach_build_log-Keeps msg name _) (λ v. Keeps-fail _))

  build_here-Keeps :
      (name r : Text) (b : ImageBuild) (msg : JobMessage) (mine : Bool)
      → Keeps P (build_here env name r b msg mine)
  build_here-Keeps name r b msg false = Keeps-pure name
  build_here-Keeps name r b msg true = Keeps-bind (options_for-Keeps r) (λ u.
      Keeps-bind (Keeps-ask env c _ _ (tame _ refl)) (λ answer. built-Keeps name r msg answer))

  pub ensure_image-Keeps :
      (r : Text) (plan : JobPlan N) (b : ImageBuild) (msg : JobMessage)
      → Keeps P (ensure_image env r plan b msg)
  unfolding ensure_image
  ensure_image-Keeps r plan b msg = Keeps-bind (Keeps-lift _) (λ name.
      Keeps-bind (claim_build-Keeps waits name r plan msg.job_id)
        (λ mine. build_here-Keeps name r b msg mine))

-- The same where machines may be made and given up; the job takes one up only when it has it.
module _ {N F64 : Type 0} (env : Outside N F64) {allowed : Action → Bool} {P : State N → Type 0}
    (c : Closed env allowed P) (free : (a : Action) → is_start a ≡ false → allowed a ≡ true) where
  pub tame_too : (a : Action) → is_tame a ≡ true → allowed a ≡ true
  tame_too a t = free a (tame_ne_start a t)

  forget-Keeps : (id : Text) → Keeps P (ignore (in_vms env (forgotten id) (λ s. VmPool.forget id)))
  forget-Keeps id = Keeps-ignore (Keeps-issue env c _ _ _ (free _ refl) (λ s p. c.vms s _ p))

  renew-Keeps : (id : Text) → Keeps P (ignore (renew_ttl env id))
  renew-Keeps id =
      Keeps-ignore (Keeps-bind (Keeps-ask env c _ _ (free _ refl)) (λ o. Keeps-lift_vm env o))

  warm_if-Keeps : (o : Option Text) → Keeps P (warm_if env o)
  warm_if-Keeps none = Keeps-pure none
  warm_if-Keeps (some id) = Keeps-bind (open_vm-Keeps env c tame_too id) (λ u.
      Keeps-attempt (ensure_running-Keeps env c tame_too id)
        (λ v. Keeps-bind (renew-Keeps id) (λ x. Keeps-pure (some id)))
        (λ e. Keeps-bind (forget-Keeps id) (λ x. Keeps-pure none)))

  claim_warm-Keeps :
      (r : Text) (plan : JobPlan N) (fp job : Text) → Keeps P (claim_warm env r plan fp job)
  claim_warm-Keeps r plan fp job =
      Keeps-if plan.vm.reuse
        (Keeps-bind (Keeps-issue env c _ _ _ (free _ refl) (λ s p. c.vms s _ p)) warm_if-Keeps)
        (Keeps-pure none)

  clear_building-Keeps : (o : Option Text) → Keeps P (clear_building env o)
  clear_building-Keeps none = Keeps-pure tt
  clear_building-Keeps (some id) = forget-Keeps id

  forget_image-Keeps : (r : Text) (o : Option Text) → Keeps P (forget_image env r o)
  forget_image-Keeps r none = Keeps-pure tt
  forget_image-Keeps r (some i) =
      Keeps-ignore (Keeps-issue env c _ _ _ (free _ refl) (λ s p. c.images s _ p))

  heal_catalog-Keeps :
      (r : Text) (plan : JobPlan N) (answer : Result VmError Text)
      → Keeps P (heal_catalog env r plan answer)
  heal_catalog-Keeps r plan (ok id) = Keeps-pure tt
  heal_catalog-Keeps r plan (err e) =
      Keeps-if _ (forget_image-Keeps r plan.vm.image) (Keeps-pure tt)

  build_vm-Keeps :
      (r : Text) (plan : JobPlan N) (fp job : Text) → Keeps P (build_vm env r plan fp job)
  build_vm-Keeps r plan fp job = Keeps-bind (Keeps-peek _) (λ name.
      Keeps-bind
        (Keeps-attempt (Keeps-issue env c _ _ _ (free _ refl) (λ s p. c.vms s _ p))
          (λ id. Keeps-pure (some id)) (λ e. Keeps-pure none))
        (λ building. Keeps-bind (Keeps-ask env c _ _ (free _ refl)) (λ answer.
          Keeps-bind (clear_building-Keeps building) (λ u.
            Keeps-bind (heal_catalog-Keeps r plan answer) (λ v. Keeps-bind (Keeps-lift _) (λ id.
              Keeps-bind (Keeps-issue env c _ _ _ (free _ refl) (λ s p. c.vms s _ p))
                (λ x. Keeps-pure id)))))))

  warm_or_built-Keeps :
      (r : Text) (plan : JobPlan N) (fp job : Text) (o : Option Text)
      → Keeps P (warm_or_built env r plan fp job o)
  warm_or_built-Keeps r plan fp job (some id) = Keeps-pure (id, true)
  warm_or_built-Keeps r plan fp job none =
      Keeps-bind (build_vm-Keeps r plan fp job) (λ id. Keeps-pure (id, false))

  pub acquire_vm-Keeps :
      (r : Text) (plan : JobPlan N) (fp job : Text) → Keeps P (acquire_vm env r plan fp job)
  unfolding acquire_vm
  acquire_vm-Keeps r plan fp job =
      Keeps-bind (options_for-Keeps env c tame_too r) (λ u.
        Keeps-bind (claim_warm-Keeps r plan fp job) (λ o. warm_or_built-Keeps r plan fp job o))

  pub release_vm-Keeps :
      (plan : JobPlan N) (id : Text) (bad : Bool) → Keeps P (release_vm env plan id bad)
  unfolding release_vm
  release_vm-Keeps plan id bad = Keeps-if (is_existing_vm plan.target) (Keeps-pure tt) (
      Keeps-if (not plan.vm.reuse || bad)
        (Keeps-bind
          (Keeps-ignore (Keeps-bind (Keeps-ask env c _ _ (free _ refl)) (λ o. Keeps-lift_vm env o)))
          (λ u. forget-Keeps id))
        (Keeps-bind (renew-Keeps id)
          (λ u. Keeps-ignore (Keeps-issue env c _ _ _ (free _ refl) (λ s p. c.vms s _ p)))))
