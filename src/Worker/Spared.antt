-- ===== src/Worker/Spared.antt =====
-- A machine that a job names in its `uses:` belongs to somebody else: what `run_job` never does with it.
use ci.Common.{
  ◌≡◌, refl, sym, ◌∙◌, ℕ, Bool, true, false, Option, none, some, Text, all, arith, ok, if-true,
  if-false, codes,
}
use mathlib.Core.Path.{subst}
use ci.Common.{>>=-eq-ok}
use ci.Expr.Values.{World}
use ci.Plan.Jobs.{JobPlan}
use ci.Workflow.Target.{Target, is_existing_vm}
use ci.Workflow.Jobs.{Fallback}
use ci.Bus.{JobMessage}
use ci.Runners.{Pool, RunnerSet}
use ci.Store.Rows.{JobRow}
use ci.Store.Tables.{get_job}
use ci.Dispatch.Place.{Placement, place, place_in, pick_runner, runner_of, network_of}
use ci.Worker.Machine.{created, destroyed, released, forgotten, renewed_ttl, Action, State, Outside}
use ci.Worker.Machines.{release_vm}
use ci.Worker.Job.{get_vm, run_job, run_claimed}
use ci.Worker.Reason.{Keeps, Closed, Keeps-bind, Keeps-pure, Runs-state}
use ci.Worker.Reason.Machines.{
  is_tame, resolve_existing_vm-Keeps, options_for-Keeps, open_vm-Keeps, ensure_running-Keeps,
}
use ci.Worker.Reason.Deliveries.{run_claimed-Keeps, run_job-Runs}

-- The actions that neither make a machine nor give one up nor keep one alive.
abbrev pub spares : Action → Bool
spares (created n) = false
spares (destroyed i) = false
spares (released i) = false
spares (forgotten i) = false
spares (renewed_ttl i) = false
spares _ = true

tame-spares : (a : Action) → is_tame a ≡ true → spares a ≡ true
tame-spares a h = ground arith

-- A `uses:` that names a machine: `<network>/<host>/<machine>`.
pub record NamesVm (t : Target) : Type 0 where
  pub network_based : t.local ≡ false
  pub host : Text
  pub host_named : t.node ≡ some host
  pub machine : Text
  pub machine_named : t.vm ≡ some machine

place_in-vm :
    (t : Target) (f : Fallback) (set : RunnerSet) (p : Placement)
    → NamesVm t
    → place_in t f set ≡ ok p
    → p.vm ≡ t.vm
place_in-vm t f set p names e = ground (arith, names.host_named, names.machine_named)

runner_of-vm :
    (p : Placement) (r : Text) (existing : Option Text)
    → runner_of p ≡ ok (r, existing)
    → existing ≡ p.vm
runner_of-vm p r existing e = ground arith

picked-vm :
    (t : Target) (f : Fallback) (hosts : Pool) (r : Text) (existing : Option Text)
    → NamesVm t
    → pick_runner hosts t f ≡ ok (r, existing)
    → existing ≡ t.vm
unfolding pick_runner place
picked-vm t f hosts r existing names e =
    let (p, placed, runs) = >>=-eq-ok (place hosts t f) runner_of e in
    let based = sym (if-false t.local _ _ names.network_based) ∙ placed in
    let (set, found, inside) = >>=-eq-ok (network_of hosts t) (place_in t f) based in
    runner_of-vm p r existing runs ∙ place_in-vm t f set p names inside

module _ (w : World) (env : Outside (w.numerics.Number) (w.numerics.F64)) where
  open w use {Number, F64}

  abbrev Untouched : State Number → Type 0
  Untouched s = all spares s.done ≡ true

  Untouched-Closed : Closed env spares Untouched
  Untouched-Closed = record {
    others = λ s p. p;
    acts = λ s a h p. ground arith;
    db = λ s e step p. p;
    vms = λ s v p. p;
    images = λ s i p. p;
    steps = λ s r p. p;
  }

  release_vm-Untouched :
      (plan : JobPlan Number) (id : Text) (bad : Bool)
      → is_existing_vm plan.target ≡ true
      → Keeps Untouched (release_vm env plan id bad)
  unfolding release_vm
  release_vm-Untouched plan id bad t =
      subst (Keeps Untouched) (sym (if-true (is_existing_vm plan.target) _ _ t)) (Keeps-pure tt)

  get_vm-Untouched :
      (v : Text) (msg : JobMessage) (r : Text) (plan : JobPlan Number)
      → Keeps Untouched (get_vm w env msg r plan (some v))
  unfolding get_vm
  get_vm-Untouched v msg r plan =
      let c = Untouched-Closed in
      let tame = tame-spares in
      Keeps-bind (resolve_existing_vm-Keeps env c tame r v) (λ id.
        Keeps-bind (options_for-Keeps env c tame r) (λ u.
          Keeps-bind (open_vm-Keeps env c tame id) (λ x.
            Keeps-bind (ensure_running-Keeps env c tame id)
              (λ y. Keeps-pure (id, codes "existing")))))

  -- The row, if there is one, holds a plan whose target names a machine.
  abbrev pub PlanNamesVm : Option (JobRow Number) → Type 0
  PlanNamesVm none = Unit
  PlanNamesVm (some row) = (plan : JobPlan Number) → row.plan ≡ some plan → NamesVm plan.target

  names-existing : (t : Target) → NamesVm t → is_existing_vm t ≡ true
  unfolding is_existing_vm
  names-existing t names = ground (arith, names.machine_named)

  claimed-Untouched :
      (msg : JobMessage) (n : ℕ) (plan : JobPlan Number) (r : Text) (existing : Option Text)
      → NamesVm plan.target
      → existing ≡ plan.target.vm
      → Keeps Untouched (run_claimed w env msg n plan r existing)
  claimed-Untouched msg n plan r existing names e =
      let named : some names.machine ≡ existing = sym names.machine_named ∙ sym e in
      subst (λ x. Keeps Untouched (run_claimed w env msg n plan r x)) named
        (run_claimed-Keeps w env Untouched-Closed tame-spares (λ p. is_existing_vm p.target ≡ true)
          (λ p name t. t) (λ p id bad t. release_vm-Untouched p id bad t) (λ id. refl)
          (some names.machine) (λ m host p t. get_vm-Untouched names.machine m host p) msg n plan r
          (names-existing plan.target names))

  -- If the row of the job, as `run_job` reads it, holds a plan whose `uses:` names a machine, then a
  -- delivery of the job, however it ends, makes no machine and neither destroys, releases or forgets
  -- one nor renews its time to live.
  pub run_job-spares :
      (msg : JobMessage) (n : ℕ) (s : State Number)
      → PlanNamesVm (get_job msg.job_id (env.others s).db)
      → all spares s.done ≡ true
      → all spares (run_job w env msg n s).1.done ≡ true
  run_job-spares msg n s names p =
      Runs-state
        (run_job-Runs w env Untouched-Closed tame-spares (λ t p. p) PlanNamesVm
          (λ m i row plan k e picked h.
            claimed-Untouched m i plan picked.0 picked.1 (k plan e)
              (picked-vm plan.target plan.fallback h.0 picked.0 picked.1 (k plan e) h.1))
          msg n)
        s (p, names)
