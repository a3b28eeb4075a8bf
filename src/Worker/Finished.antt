-- ===== src/Worker/Finished.antt =====
-- Where `run_job` of src/dispatch.rs returns, the job is over, whatever other processes did meanwhile.
use ci.Common.{ℕ, ◌≡◌, refl, Bool, true, false, Option, none, some, Text, if_cases}
use ci.Expr.Values.{World}
use ci.Plan.Jobs.{JobPlan}
use ci.Bus.{JobMessage}
use ci.Store.Status.{JobStatus, job_is_terminal}
use ci.Store.Rows.{JobRow}
use ci.Store.Tables.{get_job, claim_job, start_job, set_job_status}
use ci.Store.Lifecycle.{History}
use ci.Store.Lifecycle
use ci.Store.Over.{
  row_over, is_over, has_job, closed-over, settled-over, is_over-has_job, Step-is_over,
  Step-has_job, History-is_over, History-has_job,
}
use ci.Worker.Machine.{State, Outside, Act, pure}
use ci.Worker.Calls.{on_db}
use ci.Worker.Job.{
  hand_back, use_vm, finish_job, starting, when_started, when_claimed, run_claimed, on_runner,
  with_plan, with_row, run_job,
}
use ci.Worker.Reason.{
  Runs, Keeps, Closed, Runs-bind, Runs-attempt, Runs-pure, Runs-fail, Runs-weaken, Runs-relax,
  Runs-issue, Keeps-bind, Keeps-peek, Keeps-lift, Keeps-ask, Keeps-issue,
}
use ci.Worker.Reason.Machines.{release_vm-Keeps}
use ci.Worker.Reason.Jobs.{checkout-Keeps, run_steps-Keeps}
use ci.Worker.Reason.Deliveries.{
  failed_status-terminal, hand_back-Keeps, evict_if-Keeps, resolve_image-Runs,
}
use ci.Worker.Reason.Getting.{anything, get_vm-Keeps}

module _ (w : World) (env : Outside (w.numerics.Number) (w.numerics.F64))
    (lawful : (s : State (w.numerics.Number)) → History s.tables.db (env.others s).db)
    (msg : JobMessage) where
  open w use {Number, F64}

  -- The job has a row; the job is over.
  abbrev pub Present : State Number → Type 0
  Present s = has_job msg.job_id s.tables.db ≡ true

  abbrev pub Finished : State Number → Type 0
  Finished s = is_over msg.job_id s.tables.db ≡ true

  Present-Closed : Closed env anything Present
  Present-Closed = record {
    others = λ s p. History-has_job msg.job_id s.tables.db (env.others s).db (lawful s) p;
    acts = λ s a h p. p;
    db = λ s e step p. Step-has_job msg.job_id s.tables.db e step p;
    vms = λ s v p. p;
    images = λ s i p. p;
    steps = λ s r p. p;
  }

  Finished-Closed : Closed env anything Finished
  Finished-Closed = record {
    others = λ s p. History-is_over msg.job_id s.tables.db (env.others s).db (lawful s) p;
    acts = λ s a h p. p;
    db = λ s e step p. Step-is_over msg.job_id s.tables.db e step p;
    vms = λ s v p. p;
    images = λ s i p. p;
    steps = λ s r p. p;
  }

  -- What keeps a finished job finished ends, in any case, with the job in the table.
  stays :
      {A : Type 0} {m : Act Number F64 A}
      → Keeps Finished m
      → Runs Finished m (λ a. Finished) Present Present
  stays k =
      Runs-relax (λ a s p. p) (λ s p. is_over-has_job msg.job_id s.tables.db p)
        (λ s p. is_over-has_job msg.job_id s.tables.db p) k

  finish_job-Runs :
      (plan : JobPlan Number) (status : JobStatus) (error : Option Text)
      → job_is_terminal status ≡ true
      → Runs Present (finish_job w env msg plan status error) (λ st. Finished) Present Present
  unfolding finish_job set_job_status
  finish_job-Runs plan status error t =
      Runs-bind (λ u. Finished)
        (Runs-issue env Present-Closed _ _ _
          (λ s p. settled-over msg.job_id status error (env.now s) s.tables.db.jobs t p))
        (λ u.
          Runs-bind (λ v. Finished) (stays (Keeps-ask env Finished-Closed _ _ refl))
            (λ v. Runs-pure status (λ s p. p)))

  hand_back-Present :
      (plan : JobPlan Number) (id : Text) (bad : Bool)
      → Keeps Present (hand_back w env msg plan id bad)
  hand_back-Present plan id bad =
      hand_back-Keeps w env Present-Closed (λ a t. refl) (λ p. Unit {0}) (λ p name t. tt)
        (λ p i b t. release_vm-Keeps env Present-Closed (λ a h. refl) p i b) msg plan id bad tt

  use_vm-Runs :
      (plan : JobPlan Number) (r id : Text)
      → Runs Present (use_vm w env msg plan r id) (λ st. Finished) Present Present
  unfolding use_vm
  use_vm-Runs plan r id =
      let c = Present-Closed in
      Runs-bind (λ u. Present) (Keeps-ask env c _ _ refl)
        (λ u.
          Runs-attempt Present (λ o. Present)
            (Keeps-bind (checkout-Keeps env c (λ a t. refl) msg plan id)
              (λ v. run_steps-Keeps w env c (λ a t. refl) msg plan id))
            (λ o.
              Runs-bind (λ v. Present) (hand_back-Present plan id false)
                (λ v.
                  Runs-bind (λ x. Present)
                    (Keeps-issue env c _ _ _ refl
                      (λ s p. c.db s _ (Lifecycle.outputs msg.job_id o) p))
                    (λ x. finish_job-Runs plan JobStatus.success none refl)))
            (λ e.
              Runs-bind (λ v. Present) (hand_back-Present plan id _)
                (λ v.
                  Runs-bind (λ x. Present) (evict_if-Keeps w env c (λ a t. refl) _ r)
                    (λ x. finish_job-Runs plan _ _ (failed_status-terminal w env plan e)))))

  -- A job that a statement on open jobs did not find is over.
  abbrev Told : Bool → State Number → Type 0
  Told found s = Present s × (found ≡ false → Finished s)

  starting-Runs :
      (n : ℕ) (r : Text) (vm : Text × Text)
      → Runs Present (starting w env msg n r vm) Told Present Present
  unfolding start_job
  starting-Runs n r vm = Runs-issue env Present-Closed _ _ _ (λ s p. (
    unfold start_job in
        Step-has_job msg.job_id s.tables.db _ (Lifecycle.start msg.job_id r vm.0 vm.1 n (env.now s))
          p,
    λ e.
        Step-is_over msg.job_id s.tables.db _ (Lifecycle.start msg.job_id r vm.0 vm.1 n (env.now s))
          (closed-over msg.job_id s.tables.db.jobs p e),
  ))

  when_started-Runs :
      (plan : JobPlan Number) (r id : Text) (started : Bool)
      → Runs
          (Told started)
          (when_started w env msg plan r id started)
          (λ st. Finished)
          Present
          Present
  when_started-Runs plan r id true = Runs-weaken (λ s p. p.0) (use_vm-Runs plan r id)
  when_started-Runs plan r id false =
      Runs-weaken (λ s p. p.1 refl)
        (Runs-bind (λ u. Finished)
          (stays (release_vm-Keeps env Finished-Closed (λ a h. refl) plan id false))
          (λ u. Runs-pure JobStatus.success (λ s p. p)))

  when_claimed-Runs :
      (n : ℕ) (plan : JobPlan Number) (r : Text) (existing : Option Text) (mine : Bool)
      → Runs
          (Told mine)
          (when_claimed w env msg n plan r existing mine)
          (λ st. Finished)
          Present
          Present
  when_claimed-Runs n plan r existing false = Runs-pure JobStatus.success (λ s p. p.1 refl)
  when_claimed-Runs n plan r existing true =
      let c = Present-Closed in
      Runs-weaken (λ s p. p.0)
        (Runs-bind (λ u. Present) (Keeps-ask env c _ _ refl)
          (λ u.
            Runs-bind (λ p s. Unit {0} × Present s)
              (resolve_image-Runs w env c (λ a t. refl) (λ p. Unit {0}) (λ p name t. tt)
                (λ p i b t. release_vm-Keeps env c (λ a h. refl) p i b) msg r plan plan.vm.build tt)
              (λ p.
                Runs-weaken (λ s q. q.1)
                  (Runs-bind (λ vm. Present) (get_vm-Keeps w env c (λ a h. refl) msg r p existing)
                    (λ vm.
                      Runs-bind Told (starting-Runs n r vm)
                        (λ started. when_started-Runs p r vm.0 started))))))

  claim-Runs :
      (n : ℕ) (r : Text)
      → Runs Present (on_db env (λ s. claim_job msg.job_id r n (env.now s))) Told Present Present
  unfolding claim_job
  claim-Runs n r = Runs-issue env Present-Closed _ _ _ (λ s p. (
    Step-has_job msg.job_id s.tables.db _ (Lifecycle.claim msg.job_id r n (env.now s)) p,
    λ e.
        Step-is_over msg.job_id s.tables.db _ (Lifecycle.claim msg.job_id r n (env.now s))
          (closed-over msg.job_id s.tables.db.jobs p e),
  ))

  run_claimed-Runs :
      (n : ℕ) (plan : JobPlan Number) (r : Text) (existing : Option Text)
      → Runs Present (run_claimed w env msg n plan r existing) (λ st. Finished) Present Present
  unfolding run_claimed
  run_claimed-Runs n plan r existing =
      Runs-bind Told (claim-Runs n r) (λ mine. when_claimed-Runs n plan r existing mine)

  on_runner-Runs :
      (n : ℕ) (plan : JobPlan Number) (picked : Text × Option Text)
      → Runs Present (on_runner w env msg n plan picked) (λ st. Finished) Present Present
  on_runner-Runs n plan (r, existing) =
      Runs-attempt Present (λ st. Finished) (run_claimed-Runs n plan r existing)
        (λ st. Runs-pure st (λ s p. p))
        (λ e.
          Runs-bind (λ u. Present) (evict_if-Keeps w env Present-Closed (λ a t. refl) _ r)
            (λ u. Runs-fail e (λ s p. p)))

  with_plan-Runs :
      (n : ℕ) (plan : Option (JobPlan Number))
      → Runs Present (with_plan w env msg n plan) (λ st. Finished) Present Present
  with_plan-Runs n none = Runs-fail _ (λ s p. p)
  with_plan-Runs n (some plan) =
      Runs-bind (λ x. Present) (Keeps-peek _)
        (λ x. Runs-bind (λ r. Present) (Keeps-lift _) (λ r. on_runner-Runs n plan r))

  abbrev Read : Option (JobRow Number) → State Number → Type 0
  Read row s = Present s × (row_over row ≡ true → Finished s)

  with_row-Runs :
      (n : ℕ) (row : Option (JobRow Number))
      → Runs (Read row) (with_row w env msg n row) (λ st. Finished) Present Present
  with_row-Runs n none = Runs-fail _ (λ s p. p.0)
  with_row-Runs n (some row) =
      if_cases (λ m. Runs (Read (some row)) m (λ st. Finished) Present Present)
        (job_is_terminal row.status) (pure JobStatus.success) (with_plan w env msg n row.plan)
        (λ e. Runs-pure JobStatus.success (λ s p. p.1 e))
        (λ e. Runs-weaken (λ s p. p.0) (with_plan-Runs n row.plan))

  -- When `run_job` returns, the job is over.
  pub run_job-Finished :
      (n : ℕ) → Runs Present (run_job w env msg n) (λ st. Finished) Present Present
  unfolding run_job get_job
  run_job-Finished n =
      Runs-bind Read (Runs-issue env Present-Closed _ _ _ (λ s p. (p, λ e. e))) (with_row-Runs n)
