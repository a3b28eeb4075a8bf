-- ===== src/Worker/Reason/Deliveries.antt =====
-- What is closed under a dispatcher's actions is kept by a whole delivery of a job: by `run_claimed`,
-- `run_job` and the answer to the broker.
use ci.Common.{
  ℕ, ◌≡◌, refl, Bool, true, false, Option, none, some, Text, arith, Result, ok, err, map_err,
  if_cases,
}
use ci.Expr.Values.{World}
use ci.Plan.Jobs.{JobPlan}
use ci.Runners.{Pool}
use ci.Dispatch.Place.{DispatchError, pick_runner}
use ci.Workflow.Jobs.{ImageBuild}
use ci.Bus.{JobMessage}
use ci.Store.Status.{JobStatus, job_is_terminal}
use ci.Store.Rows.{JobRow}
use ci.Store.Lifecycle
use ci.Worker.Errors.{JobError, placement, store}
use ci.Worker.Machine
use ci.Worker.Machine.{
  Action, statement, started_on, State, Outside, Outcome, done, failed, cut_off, Act, pure, fail,
  peek, lift,
}
use ci.Worker.Machines.{release_vm}
use ci.Worker.Calls.{meanwhile, issue, issued, read_db}
use ci.Store.Tables.{get_job}
use ci.Worker.Job.{
  with_image, resolve_image, get_vm, hand_back, use_vm, finish_job, failed_status, evict_if,
  starting, when_started, when_claimed, run_claimed, on_runner, with_plan, with_row, run_job,
}
use ci.Worker.Reason.{
  After, Runs, Keeps, Ends, Keeps-Ends, Closed, Runs-bind, Runs-pure, Runs-attempt, Runs-fail,
  Runs-if, Keeps-bind, Keeps-attempt, Keeps-pure, Keeps-fail, Keeps-if, Keeps-ask, Keeps-issue,
}
use ci.Worker.Reason.Machines.{is_tame, capture_vm_log-Keeps, ensure_image-Keeps}
use ci.Worker.Reason.Jobs.{checkout-Keeps, run_steps-Keeps}

pub failed_status-terminal :
    (w : World) (env : Outside (w.numerics.Number) (w.numerics.F64))
    (plan : JobPlan (w.numerics.Number)) (e : JobError (w.numerics.F64))
    → job_is_terminal (failed_status w env plan e) ≡ true
unfolding failed_status
failed_status-terminal w env plan e = ground arith

module _ (w : World) (env : Outside (w.numerics.Number) (w.numerics.F64)) {allowed : Action → Bool}
    {P : State (w.numerics.Number) → Type 0} (c : Closed env allowed P)
    (tame : (a : Action) → is_tame a ≡ true → allowed a ≡ true) where
  open w use {Number, F64}

  pub finish_job-Keeps :
      (msg : JobMessage) (plan : JobPlan Number) (status : JobStatus) (error : Option Text)
      → job_is_terminal status ≡ true
      → Keeps P (finish_job w env msg plan status error)
  unfolding finish_job
  finish_job-Keeps msg plan status error t =
      Keeps-bind
        (Keeps-issue env c _ _ _ (tame _ refl)
          (λ s p. c.db s _ (Lifecycle.settle msg.job_id status error _ t) p))
        (λ u. Keeps-bind (Keeps-ask env c _ _ (tame _ refl)) (λ v. Keeps-pure status))

  pub evict_if-Keeps : (dead : Bool) (r : Text) → Keeps P (evict_if w env dead r)
  evict_if-Keeps dead r = Keeps-if dead (Keeps-ask env c _ _ (tame _ refl)) (Keeps-pure tt)

  -- A delivery on plans of one kind, whose machines are got and handed back by actions that keep
  -- `P`.
  module _ (T : JobPlan Number → Type 0)
      (T_image : (plan : JobPlan Number) (name : Text) → T plan → T (with_image w env plan name))
      (release_kept : (plan : JobPlan Number) (id : Text) (bad : Bool)
        → T plan
        → Keeps P (release_vm env plan id bad)) where
    pub hand_back-Keeps :
        (msg : JobMessage) (plan : JobPlan Number) (id : Text) (bad : Bool)
        → T plan
        → Keeps P (hand_back w env msg plan id bad)
    unfolding hand_back
    hand_back-Keeps msg plan id bad t =
        Keeps-bind (capture_vm_log-Keeps env c tame msg id) (λ u. release_kept plan id bad t)

    use_vm-Keeps :
        (msg : JobMessage) (plan : JobPlan Number) (r id : Text)
        → T plan
        → Keeps P (use_vm w env msg plan r id)
    unfolding use_vm
    use_vm-Keeps msg plan r id t = Keeps-bind (Keeps-ask env c _ _ (tame _ refl)) (λ u.
        Keeps-attempt
          (Keeps-bind (checkout-Keeps env c tame msg plan id)
            (λ v. run_steps-Keeps w env c tame msg plan id))
          (λ o. Keeps-bind (hand_back-Keeps msg plan id false t) (λ v.
            Keeps-bind
              (Keeps-issue env c _ _ _ (tame _ refl)
                (λ s p. c.db s _ (Lifecycle.outputs msg.job_id o) p))
              (λ x. finish_job-Keeps msg plan JobStatus.success none refl)))
          (λ e. Keeps-bind (hand_back-Keeps msg plan id _ t) (λ v.
            Keeps-bind (evict_if-Keeps _ r)
              (λ x. finish_job-Keeps msg plan _ _ (failed_status-terminal w env plan e)))))

    when_started-Keeps :
        (msg : JobMessage) (plan : JobPlan Number) (r id : Text) (started : Bool)
        → T plan
        → Keeps P (when_started w env msg plan r id started)
    when_started-Keeps msg plan r id true t = use_vm-Keeps msg plan r id t
    when_started-Keeps msg plan r id false t =
        Keeps-bind (release_kept plan id false t) (λ u. Keeps-pure JobStatus.success)

    pub resolve_image-Runs :
        (msg : JobMessage) (r : Text) (plan : JobPlan Number) (b : Option ImageBuild)
        → T plan
        → Runs P (resolve_image w env msg r plan b) (λ p s. T p × P s) P P
    unfolding resolve_image
    resolve_image-Runs msg r plan none t = Runs-pure plan (λ s p. (t, p))
    resolve_image-Runs msg r plan (some b) t =
        Runs-bind (λ name. P) (ensure_image-Keeps env c tame r plan b msg)
          (λ name. Runs-pure _ (λ s p. (T_image plan name t, p)))

    -- `existing` is what the placement said of the machine.
    module _ (may_start : (id : Text) → allowed (started_on id) ≡ true) (existing : Option Text)
        (get_kept : (msg : JobMessage) (r : Text) (plan : JobPlan Number)
          → T plan
          → Keeps P (get_vm w env msg r plan existing)) where
      starting-Keeps :
          (msg : JobMessage) (n : ℕ) (r : Text) (vm : Text × Text)
          → Keeps P (starting w env msg n r vm)
      starting-Keeps msg n r vm =
          Keeps-issue env c _ _ _ (may_start vm.0)
            (λ s p. c.db s _ (Lifecycle.start msg.job_id r vm.0 vm.1 n _) p)

      on_local :
          (msg : JobMessage) (n : ℕ) (r : Text) (plan : JobPlan Number)
          → T plan
          → Keeps P (
              Machine.◌>>=◌ (get_vm w env msg r plan existing) (λ vm.
                Machine.◌>>=◌ (starting w env msg n r vm) (when_started w env msg plan r vm.0)))
      on_local msg n r plan t = Keeps-bind (get_kept msg r plan t) (λ vm.
          Keeps-bind (starting-Keeps msg n r vm)
            (λ started. when_started-Keeps msg plan r vm.0 started t))

      with_T :
          {A : Type 0} {m : Act Number F64 A} (plan : JobPlan Number)
          → (T plan → Keeps P m)
          → Runs (λ s. T plan × P s) m (λ a. P) P P
      with_T plan k = record { at = λ s p. (k p.0).at s p.1 }

      when_claimed-Keeps :
          (msg : JobMessage) (n : ℕ) (plan : JobPlan Number) (r : Text) (mine : Bool)
          → T plan
          → Keeps P (when_claimed w env msg n plan r existing mine)
      when_claimed-Keeps msg n plan r false t = Keeps-pure JobStatus.success
      when_claimed-Keeps msg n plan r true t = Keeps-bind (Keeps-ask env c _ _ (tame _ refl)) (λ u.
          Runs-bind (λ p s. T p × P s) (resolve_image-Runs msg r plan plan.vm.build t)
            (λ p. with_T p (on_local msg n r p)))

      pub run_claimed-Keeps :
          (msg : JobMessage) (n : ℕ) (plan : JobPlan Number) (r : Text)
          → T plan
          → Keeps P (run_claimed w env msg n plan r existing)
      unfolding run_claimed
      run_claimed-Keeps msg n plan r t =
          Keeps-bind
            (Keeps-issue env c _ _ _ (tame _ refl)
              (λ s p. c.db s _ (Lifecycle.claim msg.job_id r n _) p))
            (λ mine. when_claimed-Keeps msg n plan r mine t)

  -- A machine that was picked for the target of the plan.
  abbrev pub Picked : JobPlan Number → Text × Option Text → Type 0
  Picked plan picked = (hosts : Pool) × (pick_runner hosts plan.target plan.fallback ≡ ok picked)

  module _ {E : State Number → Type 0} (cut : (s : State Number) → P s → E s) where
    on_runner-Ends :
        (msg : JobMessage) (n : ℕ) (plan : JobPlan Number) (picked : Text × Option Text)
        → Ends P E (run_claimed w env msg n plan picked.0 picked.1)
        → Ends P E (on_runner w env msg n plan picked)
    on_runner-Ends msg n plan (r, existing) k =
        Runs-attempt P (λ status. P) k (λ status. Runs-pure status (λ s p. p))
          (λ e. Keeps-Ends cut (Keeps-bind (evict_if-Keeps _ r) (λ u. Keeps-fail e)))

    pick-Ends :
        (msg : JobMessage) (n : ℕ) (plan : JobPlan Number) (hosts : Pool)
        (x : Result DispatchError (Text × Option Text))
        → pick_runner hosts plan.target plan.fallback ≡ x
        → ((picked : Text × Option Text)
            → Picked plan picked
            → Ends P E (run_claimed w env msg n plan picked.0 picked.1))
        → Ends P E (Machine.◌>>=◌ (lift (map_err placement x)) (on_runner w env msg n plan))
    pick-Ends msg n plan hosts (ok picked) e k = record {
      at = λ s p.
          unfold Machine.◌>>=◌ Machine.then_do lift in
          (on_runner-Ends msg n plan picked (k picked (hosts, e))).at s p;
    }
    pick-Ends msg n plan hosts (err problem) e k = record {
      at = λ s p. unfold Machine.◌>>=◌ Machine.then_do lift in p;
    }

    pub with_plan-Ends :
        (msg : JobMessage) (n : ℕ) (plan : JobPlan Number)
        → ((picked : Text × Option Text)
            → Picked plan picked
            → Ends P E (run_claimed w env msg n plan picked.0 picked.1))
        → Ends P E (with_plan w env msg n (some plan))
    with_plan-Ends msg n plan k = record {
      at = λ s p.
          unfold Machine.◌>>=◌ Machine.then_do peek in
          (pick-Ends msg n plan (env.pool s) (pick_runner (env.pool s) plan.target plan.fallback)
              refl k).at
            s p;
    }

    -- Every plan that a row may hold when `run_job` reads it.
    module _ (K : Option (JobRow Number) → Type 0)
        (claimed_kept : (msg : JobMessage) (n : ℕ) (row : JobRow Number) (plan : JobPlan Number)
          → K (some row)
          → row.plan ≡ some plan
          → (picked : Text × Option Text) → Picked plan picked
          → Ends P E (run_claimed w env msg n plan picked.0 picked.1)) where
      plan-Ends :
          (msg : JobMessage) (n : ℕ) (row : JobRow Number)
          → K (some row)
          → (o : Option (JobPlan Number)) → row.plan ≡ o
          → Ends P E (with_plan w env msg n o)
      plan-Ends msg n row q none e = Runs-fail _ (λ s p. p)
      plan-Ends msg n row q (some plan) e =
          with_plan-Ends msg n plan (λ picked h. claimed_kept msg n row plan q e picked h)

      pub with_row-Ends :
          (msg : JobMessage) (n : ℕ) (o : Option (JobRow Number))
          → K o
          → Ends P E (with_row w env msg n o)
      with_row-Ends msg n none q = Runs-fail _ (λ s p. p)
      with_row-Ends msg n (some row) q =
          Runs-if (job_is_terminal row.status) (λ x. Runs-pure JobStatus.success (λ s p. p))
            (λ x. plan-Ends msg n row q row.plan refl)

      read_job :
          (id : Text)
          → Runs
              (λ s. P s × K (get_job id (env.others s).db))
              (read_db env (get_job id))
              (λ row s. K row × P s)
              P
              E
      unfolding issue
      read_job id = record {
        at = λ s p.
            if_cases (After (λ row s. K row × P s) P E) (env.expired (meanwhile env s)) _ _
              (λ e. cut (meanwhile env s) (c.others s p.0))
              (λ e.
                answered (meanwhile env s) (c.others s p.0) p.1 (env.refuses (meanwhile env s)));
      }
        where
          answered :
              (s : State Number)
              → P s
              → K (get_job id s.tables.db)
              → (o : Option Text)
              → After
                  (λ row s. K row × P s)
                  P
                  E
                  (issued env statement store (λ s t. (t, get_job id t.db)) s o)
          answered s p q (some problem) = unfold issued in p
          answered s p q none = unfold issued in (q, c.acts s statement (tame statement refl) p)

      -- `run_job`, when the row that it reads is as `K` says.
      pub run_job-Runs :
          (msg : JobMessage) (n : ℕ)
          → Runs
              (λ s. P s × K (get_job msg.job_id (env.others s).db))
              (run_job w env msg n)
              (λ a. P)
              P
              E
      unfolding run_job
      run_job-Runs msg n =
          Runs-bind (λ row s. K row × P s) (read_job msg.job_id)
            (λ row. record { at = λ s p. (with_row-Ends msg n row p.0).at s p.1 })
