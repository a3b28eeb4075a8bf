-- ===== src/Worker/HandedBack/Jobs.antt =====
-- What `run_job` of src/dispatch.rs does with the machine that it takes up.
use ci.Common.{ℕ, ◌≡◌, refl, Bool, true, false, Option, none, Text}
use ci.Expr.Values.{World}
use ci.Plan.Jobs.{JobPlan}
use ci.Workflow.Target.{is_existing_vm}
use ci.Bus.{JobMessage}
use ci.Store.Tables.{get_job}
use ci.Store.Lifecycle
use ci.Store.Status.{JobStatus}
use ci.Worker.Machine.{Action, State, Outside, Outcome, done, failed, cut_off}
use ci.Worker.Job.{run_job, hand_back, use_vm, starting, when_started, when_claimed, run_claimed}
use ci.Worker.Reason.{
  After, Runs, Runs-bind, Runs-attempt, Runs-pure, Runs-relax, Runs-issue, Keeps-bind, Keeps-ask,
  Keeps-issue,
}
use ci.Worker.Reason.Getting.{get_vm-Keeps}
use ci.Worker.Reason.Jobs.{checkout-Keeps, run_steps-Keeps}
use ci.Worker.Reason.Deliveries.{
  failed_status-terminal, finish_job-Keeps, evict_if-Keeps, resolve_image-Runs, run_job-Runs,
}
use ci.Worker.Reason.Machines.{is_tame, tame_too, release_vm-Keeps}
use ci.Worker.HandedBack.{
  held_by, other, other_start, tame-neutral, Clear, HoldsOne, Clear-Closed, HoldsOne-Closed,
  PlanTakesVm, was_cut_off,
}
use ci.Worker.HandedBack.Sure.{eased, ended, Sure-ask, Sure-capture, release_vm-clears}

module _ (w : World) (env : Outside (w.numerics.Number) (w.numerics.F64))
    (willing : (s : State (w.numerics.Number)) → env.refuses s ≡ none) (msg : JobMessage) where
  open w use {Number, F64}

  tame-other : (a : Action) → is_tame a ≡ true → other a ≡ true
  tame-other = tame_too env (Clear-Closed env) other_start

  hand_back-clears :
      (plan : JobPlan Number) (id : Text) (bad : Bool)
      → is_existing_vm plan.target ≡ false
      → Runs (HoldsOne id) (hand_back w env msg plan id bad) (λ u. Clear) Clear (λ s. Unit)
  unfolding hand_back
  hand_back-clears plan id bad ours = ended env (
      Runs-bind (λ u. HoldsOne id) (Sure-capture env (HoldsOne-Closed env id) tame-neutral msg id)
        (λ u. release_vm-clears env willing plan id bad ours))

  use_vm-clears :
      (plan : JobPlan Number) (r id : Text)
      → is_existing_vm plan.target ≡ false
      → Runs (HoldsOne id) (use_vm w env msg plan r id) (λ st. Clear) Clear (λ s. Unit)
  unfolding use_vm
  use_vm-clears plan r id ours =
      let c = HoldsOne-Closed env id in
      let d = Clear-Closed env in
      Runs-bind (λ u. HoldsOne id) (ended env (Sure-ask env c _ _ refl))
        (λ u.
          Runs-attempt (HoldsOne id) (λ o. HoldsOne id)
            (eased env (
              Keeps-bind (checkout-Keeps env c tame-neutral msg plan id)
                (λ v. run_steps-Keeps w env c tame-neutral msg plan id)))
            (λ o.
              Runs-bind (λ v. Clear) (hand_back-clears plan id false ours)
                (λ v. eased env (
                  Keeps-bind
                    (Keeps-issue env d _ _ _ refl
                      (λ s p. d.db s _ (Lifecycle.outputs msg.job_id o) p))
                    (λ x.
                      finish_job-Keeps w env d tame-other msg plan JobStatus.success none refl))))
            (λ e.
              Runs-bind (λ v. Clear) (hand_back-clears plan id _ ours)
                (λ v. eased env (
                  Keeps-bind (evict_if-Keeps w env d tame-other _ r) (λ x.
                    finish_job-Keeps w env d tame-other msg plan _ _
                      (failed_status-terminal w env plan e))))))

  starting-holds :
      (n : ℕ) (r : Text) (vm : Text × Text)
      → Runs Clear (starting w env msg n r vm) (λ b. HoldsOne vm.0) Clear (λ s. Unit)
  unfolding held_by
  starting-holds n r vm =
      Runs-relax (λ a s p. p) (λ s p. p) (λ s p. tt)
        (Runs-issue env (Clear-Closed env) _ _ _ (λ s p. rw p refl))

  when_started-clears :
      (plan : JobPlan Number) (r id : Text) (started : Bool)
      → is_existing_vm plan.target ≡ false
      → Runs
          (HoldsOne id)
          (when_started w env msg plan r id started)
          (λ st. Clear)
          Clear
          (λ s. Unit)
  when_started-clears plan r id true ours = use_vm-clears plan r id ours
  when_started-clears plan r id false ours =
      Runs-bind (λ u. Clear) (ended env (release_vm-clears env willing plan id false ours))
        (λ u. Runs-pure JobStatus.success (λ s p. p))

  when_claimed-clears :
      (n : ℕ) (plan : JobPlan Number) (r : Text) (existing : Option Text) (mine : Bool)
      → is_existing_vm plan.target ≡ false
      → Runs Clear (when_claimed w env msg n plan r existing mine) (λ st. Clear) Clear (λ s. Unit)
  when_claimed-clears n plan r existing false ours = Runs-pure JobStatus.success (λ s p. p)
  when_claimed-clears n plan r existing true ours =
      let c = Clear-Closed env in
      Runs-bind (λ u. Clear) (eased env (Keeps-ask env c _ _ refl))
        (λ u.
          Runs-bind (λ p s. (is_existing_vm p.target ≡ false) × Clear s)
            (Runs-relax (λ p s h. h) (λ s p. p) (λ s p. tt)
              (resolve_image-Runs w env c tame-other (λ p. is_existing_vm p.target ≡ false)
                (λ p name t. t) (λ p id bad t. release_vm-Keeps env c other_start p id bad) msg r
                plan plan.vm.build ours))
            (λ p. record {
              at = λ s h.
                  (Runs-bind (λ vm. Clear)
                      (eased env (get_vm-Keeps w env c other_start msg r p existing))
                      (λ vm.
                        Runs-bind (λ b. HoldsOne vm.0) (starting-holds n r vm)
                          (λ b. when_started-clears p r vm.0 b h.0))).at
                    s h.1;
            }))

  run_claimed-clears :
      (n : ℕ) (plan : JobPlan Number) (r : Text) (existing : Option Text)
      → is_existing_vm plan.target ≡ false
      → Runs Clear (run_claimed w env msg n plan r existing) (λ st. Clear) Clear (λ s. Unit)
  unfolding run_claimed
  run_claimed-clears n plan r existing ours =
      let c = Clear-Closed env in
      Runs-bind (λ mine. Clear)
        (eased env (
          Keeps-issue env c _ _ _ refl
            (λ s p. c.db s _ (Lifecycle.claim msg.job_id r n (env.now s)) p)))
        (λ mine. when_claimed-clears n plan r existing mine ours)

module _ {N F64 A : Type 0} where
  Clear-after :
      (r : Outcome F64 A × State N)
      → After (λ a. Clear) Clear (λ s. Unit) r
      → was_cut_off r.0 ≡ false
      → Clear r.1
  Clear-after (done a, s) p h = p
  Clear-after (failed e, s) p h = p
  Clear-after (cut_off, s) p h = cc h

module _ (w : World) (env : Outside (w.numerics.Number) (w.numerics.F64))
    (willing : (s : State (w.numerics.Number)) → env.refuses s ≡ none) where
  open w use {Number, F64}

  -- If the database refuses no statement and the row of the job, as `run_job` reads it, holds a plan
  -- whose `uses:` does not name a machine, then a run of the job that was not holding a machine before
  -- and is not cut off by the time limit holds none afterwards, whether it returns or fails. A machine
  -- is held from the statement that writes it to the row of the job until its release or until it is
  -- forgotten.
  pub run_job-Clear :
      (msg : JobMessage) (n : ℕ) (s : State Number)
      → PlanTakesVm (get_job msg.job_id (env.others s).db)
      → Clear s
      → was_cut_off (run_job w env msg n s).0 ≡ false
      → Clear (run_job w env msg n s).1
  run_job-Clear msg n s ours p = Clear-after (run_job w env msg n s) (
      (run_job-Runs w env (Clear-Closed env) (tame_too env (Clear-Closed env) other_start)
          (λ t q. tt) PlanTakesVm
          (λ m i row plan k e picked h.
            run_claimed-clears w env willing m i plan picked.0 picked.1 (k plan e))
          msg n).at
        s (p, ours))
