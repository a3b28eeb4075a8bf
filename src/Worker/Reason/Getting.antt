-- ===== src/Worker/Reason/Getting.antt =====
-- What is closed under the actions that get a machine is kept by `get_vm`, as `run_claimed` of
-- src/dispatch.rs gets one.
use ci.Common.{◌≡◌, false, Bool, true, Option, none, some, Text}
use ci.Expr.Values.{World}
use ci.Plan.Jobs.{JobPlan}
use ci.Bus.{JobMessage}
use ci.Worker.Machine.{Action, State, Outside}
use ci.Worker.Job.{get_vm}
use ci.Worker.Reason.{Keeps, Closed, Keeps-bind, Keeps-pure, Keeps-lift}
use ci.Worker.Reason.Machines.{
  resolve_existing_vm-Keeps, options_for-Keeps, open_vm-Keeps, ensure_running-Keeps,
  acquire_vm-Keeps, is_start, tame_too,
}

-- All actions are allowed.
abbrev pub anything : Action → Bool
anything a = true

module _ (w : World) (env : Outside (w.numerics.Number) (w.numerics.F64)) where
  open w use {Number, F64}

  -- Whatever is closed under all that getting a machine takes.
  module _ {allowed : Action → Bool} {P : State Number → Type 0} (c : Closed env allowed P)
      (free : (a : Action) → is_start a ≡ false → allowed a ≡ true) where
    pub get_vm-Keeps :
        (msg : JobMessage) (r : Text) (plan : JobPlan Number) (existing : Option Text)
        → Keeps P (get_vm w env msg r plan existing)
    unfolding get_vm
    get_vm-Keeps msg r plan (some v) =
        Keeps-bind (resolve_existing_vm-Keeps env c (tame_too env c free) r v) (λ id.
          Keeps-bind (options_for-Keeps env c (tame_too env c free) r) (λ u.
            Keeps-bind (open_vm-Keeps env c (tame_too env c free) id) (λ x.
              Keeps-bind (ensure_running-Keeps env c (tame_too env c free) id)
                (λ y. Keeps-pure _))))
    get_vm-Keeps msg r plan none =
        Keeps-bind (Keeps-lift _)
          (λ fp. Keeps-bind (acquire_vm-Keeps env c free r plan fp msg.job_id) (λ vm. Keeps-pure _))
