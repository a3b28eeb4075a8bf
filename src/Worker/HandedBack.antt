-- ===== src/Worker/HandedBack.antt =====
-- The machines that the actions of src/dispatch.rs leave held: taken up and not given back.
pub mod Sure
pub mod Jobs
use ci.Common.{
  ℕ, ◌≡◌, refl, arith, Bool, true, false, not, List, [], ◌∷◌, Option, none, some, Text, text_eq,
  text_eq_refl, keep, ◌||◌, if_cases,
}
use ci.Expr.Values.{World}
use ci.Plan.Jobs.{JobPlan}
use ci.Workflow.Target.{is_existing_vm}
use ci.Bus.{JobMessage}
use ci.Store.Rows.{JobRow}
use ci.Store.Tables.{get_job}
use ci.Store.Lifecycle
use ci.Store.Status.{JobStatus}
use ci.Worker.Errors.{pool}
use ci.VmPool.Rows.{Vm}
use ci.Store.Steps
use ci.Worker.Machine.{
  Action, started_on, released, forgotten, State, Outside, Outcome, done, failed, cut_off, Act,
  pure, ignore,
}
use ci.Worker.Machines.{release_vm, attach, capture_vm_log}
use ci.Worker.Calls.{ask, issue, issued, meanwhile, in_vms}
use ci.Worker.Job.{run_job, hand_back, use_vm, starting, when_started, when_claimed, run_claimed}
use ci.Worker.Reason.{
  After, Runs, Keeps, Closed, Runs-bind, Runs-attempt, Runs-pure, Runs-if, Runs-relax, Runs-issue,
  Keeps-bind, Keeps-ask, Keeps-issue, Keeps-lift_vm,
}
use ci.Worker.Reason.Getting.{get_vm-Keeps}
use ci.Worker.Reason.Jobs.{checkout-Keeps, run_steps-Keeps}
use ci.Worker.Reason.Deliveries.{
  failed_status-terminal, finish_job-Keeps, evict_if-Keeps, resolve_image-Runs, run_job-Runs,
}
use ci.Worker.Reason.Machines.{is_tame, is_start, tame_too, in_steps-Keeps, release_vm-Keeps}

abbrev pub without : Text → List Text → List Text
without id ids = keep (λ x. not (text_eq x id)) ids

-- The machines that are held after an action, when `held` were held before it.
abbrev pub held_after : Action → List Text → List Text
held_after (started_on id) held = id ∷ held
held_after (released id) held = without id held
held_after (forgotten id) held = without id held
held_after _ held = held

-- The machines that a list of actions, the last one first, leaves held.
unfoldable pub held_by : List Action → List Text
held_by [] = []
held_by (a ∷ rest) = held_after a (held_by rest)

-- The actions that leave what is held as it is.
abbrev pub neutral : Action → Bool
neutral (started_on id) = false
neutral (released id) = false
neutral (forgotten id) = false
neutral _ = true

abbrev pub other : Action → Bool
other a = not (is_start a)

pub other_start : (a : Action) → is_start a ≡ false → other a ≡ true
other_start a h = ground (arith, h)

pub tame-neutral : (a : Action) → is_tame a ≡ true → neutral a ≡ true
tame-neutral a h = ground arith

held_after-neutral : (a : Action) (held : List Text) → neutral a ≡ true → held_after a held ≡ held
held_after-neutral a held h = ground arith

held_after-other : (a : Action) → other a ≡ true → held_after a [] ≡ []
held_after-other a h = ground arith

pub without_self : (id : Text) → without id (id ∷ []) ≡ []
without_self id = ground (arith, text_eq_refl id)

module _ {N : Type 0} where
  abbrev pub Clear : State N → Type 0
  Clear s = held_by s.done ≡ []

  abbrev pub HoldsOne : Text → State N → Type 0
  HoldsOne id s = held_by s.done ≡ id ∷ []

module _ {N F64 : Type 0} (env : Outside N F64) where
  pub Clear-Closed : Closed env other (Clear {N = N})
  unfolding held_by
  Clear-Closed = record {
    others = λ s p. p;
    acts = λ s a h p. rw p (held_after-other a h);
    db = λ s e step p. p;
    vms = λ s v p. p;
    images = λ s i p. p;
    steps = λ s r p. p;
  }

  pub HoldsOne-Closed : (id : Text) → Closed env neutral (HoldsOne {N = N} id)
  unfolding held_by
  HoldsOne-Closed id = record {
    others = λ s p. p;
    acts = λ s a h p. rw p (held_after-neutral a (id ∷ []) h);
    db = λ s e step p. p;
    vms = λ s v p. p;
    images = λ s i p. p;
    steps = λ s r p. p;
  }

-- The plan of the row, if there is one, does not name a machine.
module _ {N : Type 0} where
  abbrev pub PlanTakesVm : Option (JobRow N) → Type 0
  PlanTakesVm none = Unit
  PlanTakesVm (some row) =
      (plan : JobPlan N) → row.plan ≡ some plan → is_existing_vm plan.target ≡ false

abbrev pub was_cut_off : {F64 A : Type 0} → Outcome F64 A → Bool
was_cut_off cut_off = true
was_cut_off _ = false
