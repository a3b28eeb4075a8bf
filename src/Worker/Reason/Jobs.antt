-- ===== src/Worker/Reason/Jobs.antt =====
-- What is closed under a dispatcher's actions is kept by a job's checkout, by its steps, and by the whole
-- of a delivery.
use ci.Common.{
  ℕ, suc, ◌≡◌, refl, Bool, true, List, [], ◌∷◌, Option, none, some, Text, Result, ok, err,
}
use ci.Expr.Values.{World}
use ci.Expr.Call.{Context}
use ci.Plan.Jobs.{JobPlan}
use ci.Workflow.Jobs.{Step}
use ci.Bus.{JobMessage}
use ci.Store.Rows.{Db}
use ci.Worker.Machine.{Action, State, Outside, ExecOutput, SourceFormat, Act}
use ci.Worker.Calls.{read_db}
use ci.Worker.Checkout.{checkout, refused, unpack, extracted, with_bytes, with_source}
use ci.Worker.Commands.{succeeded}
use ci.Worker.Scopes.{Scopes, Outputs, Turn, next, broken}
use ci.Worker.Steps.{
  run_step, step_loop, run_steps, act_step, ran, run_script, run_or_act, after_turn, job_result,
}
use ci.Worker.Reason.{
  Keeps, Closed, Keeps-bind, Keeps-attempt, Keeps-pure, Keeps-fail, Keeps-peek, Keeps-lift,
  Keeps-if, Keeps-ask, Keeps-issue, Keeps-lift_vm,
}
use ci.Worker.Reason.Machines.{is_tame, in_steps-Keeps}

module _ {N F64 : Type 0} (env : Outside N F64) {allowed : Action → Bool} {P : State N → Type 0}
    (c : Closed env allowed P) (tame : (a : Action) → is_tame a ≡ true → allowed a ≡ true) where
  refused-Keeps :
      (sid text : Text) (code : Option ℕ) (error : Option Text) (reason : Text)
      → Keeps P (refused env sid text code error reason)
  refused-Keeps sid text code error reason =
      Keeps-bind (in_steps-Keeps env c tame _)
        (λ u. Keeps-bind (in_steps-Keeps env c tame _) (λ v. Keeps-fail _))

  unpack-Keeps :
      (sid id workdir : Text) (f : SourceFormat) (bytes : Text)
      → Keeps P (unpack env sid id workdir f bytes)
  unpack-Keeps sid id workdir f bytes = Keeps-bind (Keeps-ask env c _ _ (tame _ refl)) (λ sent.
      Keeps-bind (Keeps-lift_vm env sent)
        (λ u. Keeps-bind (Keeps-ask env c _ _ (tame _ refl)) (λ answer. Keeps-lift _)))

  extracted-Keeps :
      (sid workdir bytes : Text) (out : ExecOutput) → Keeps P (extracted env sid workdir bytes out)
  extracted-Keeps sid workdir bytes out =
      Keeps-if (succeeded out)
        (Keeps-bind (in_steps-Keeps env c tame _) (λ u. in_steps-Keeps env c tame _))
        (refused-Keeps _ _ _ _ _)

  with_bytes-Keeps :
      (sid run_id id workdir : Text) (f : SourceFormat) (bytes : Result Text Text)
      → Keeps P (with_bytes env sid run_id id workdir f bytes)
  with_bytes-Keeps sid run_id id workdir f (err e) = refused-Keeps _ _ _ _ _
  with_bytes-Keeps sid run_id id workdir f (ok bytes) =
      Keeps-attempt (unpack-Keeps sid id workdir f bytes) (extracted-Keeps sid workdir bytes)
        (λ e. refused-Keeps _ _ _ _ _)

  with_source-Keeps :
      (sid run_id id workdir : Text) (f : Option SourceFormat)
      → Keeps P (with_source env sid run_id id workdir f)
  with_source-Keeps sid run_id id workdir none = refused-Keeps _ _ _ _ _
  with_source-Keeps sid run_id id workdir (some f) =
      Keeps-bind (Keeps-ask env c _ _ (tame _ refl))
        (λ bytes. with_bytes-Keeps sid run_id id workdir f bytes)

  pub checkout-Keeps :
      (msg : JobMessage) (plan : JobPlan N) (id : Text) → Keeps P (checkout env msg plan id)
  unfolding checkout
  checkout-Keeps msg plan id = Keeps-bind (in_steps-Keeps env c tame _) (λ u.
      Keeps-bind (in_steps-Keeps env c tame _)
        (λ v. Keeps-bind (Keeps-peek _) (λ f. with_source-Keeps _ _ _ _ f)))

-- The steps of a job.
module _ (w : World) (env : Outside (w.numerics.Number) (w.numerics.F64)) {allowed : Action → Bool}
    {P : State (w.numerics.Number) → Type 0} (c : Closed env allowed P)
    (tame : (a : Action) → is_tame a ≡ true → allowed a ≡ true) where
  open w use {Number, F64}

  act_step-Keeps :
      (sc : Scopes w) (o : Outputs w) (step : Step) (sid id : Text)
      → Keeps P (act_step w env sc o step sid id)
  act_step-Keeps sc o step sid id = Keeps-bind (in_steps-Keeps env c tame _) (λ u.
      Keeps-attempt (Keeps-bind (Keeps-ask env c _ _ (tame _ refl)) Keeps-lift)
        (λ note.
          Keeps-bind (in_steps-Keeps env c tame _)
            (λ v. Keeps-bind (in_steps-Keeps env c tame _) (λ x. Keeps-pure _)))
        (λ e.
          Keeps-bind (in_steps-Keeps env c tame _)
            (λ v. Keeps-bind (in_steps-Keeps env c tame _) (λ x. Keeps-pure _))))

  ran-Keeps :
      (sc : Scopes w) (o : Outputs w) (step : Step) (i : ℕ) (sid : Text) (out : ExecOutput)
      → Keeps P (ran w env sc o step i sid out)
  ran-Keeps sc o step i sid out =
      Keeps-bind (in_steps-Keeps env c tame _)
        (λ v. Keeps-bind (in_steps-Keeps env c tame _) (λ x. Keeps-pure _))

  run_script-Keeps :
      (plan : JobPlan Number) (sc : Scopes w) (ctx : Context w) (o : Outputs w) (step : Step)
      (i : ℕ) (sid id script : Text)
      → Keeps P (run_script w env plan sc ctx o step i sid id script)
  run_script-Keeps plan sc ctx o step i sid id script =
      Keeps-bind (in_steps-Keeps env c tame _) (λ u.
        Keeps-attempt (Keeps-bind (Keeps-ask env c _ _ (tame _ refl)) (λ answer. Keeps-lift _))
          (ran-Keeps sc o step i sid)
          (λ e.
            Keeps-bind (in_steps-Keeps env c tame _)
              (λ v. Keeps-bind (in_steps-Keeps env c tame _) (λ x. Keeps-pure _))))

  run_or_act-Keeps :
      (plan : JobPlan Number) (sc : Scopes w) (ctx : Context w) (o : Outputs w) (step : Step)
      (i : ℕ) (sid id : Text) (run : Option Text)
      → Keeps P (run_or_act w env plan sc ctx o step i sid id run)
  run_or_act-Keeps plan sc ctx o step i sid id none = act_step-Keeps sc o step sid id
  run_or_act-Keeps plan sc ctx o step i sid id (some script) =
      run_script-Keeps plan sc ctx o step i sid id script

  read-Keeps : {A : Type 0} (answer : Db Number → A) → Keeps P (read_db env answer)
  read-Keeps answer = Keeps-issue env c _ _ _ (tame _ refl) (λ s p. p)

  pub run_step-Keeps :
      (msg : JobMessage) (plan : JobPlan Number) (sc : Scopes w) (id : Text) (failed : Option Text)
      (o : Outputs w) (i : ℕ) (step : Step)
      → Keeps P (run_step w env msg plan sc id failed o i step)
  unfolding run_step
  run_step-Keeps msg plan sc id failed o i step = Keeps-bind (read-Keeps _) (λ stopped.
      Keeps-bind (Keeps-if stopped (Keeps-fail _) (Keeps-pure tt)) (λ u.
        Keeps-bind (in_steps-Keeps env c tame _) (λ v. Keeps-bind (Keeps-lift _) (λ should.
          Keeps-if should (run_or_act-Keeps plan sc _ o step i _ id step.run)
            (Keeps-bind (in_steps-Keeps env c tame _) (λ x. Keeps-pure _))))))

  after_turn-Keeps :
      {go_on : Outputs w → Act Number F64 (Outputs w × Option Text)}
      → ((o : Outputs w) → Keeps P (go_on o))
      → (t : Turn w) → Keeps P (after_turn w env go_on t)
  after_turn-Keeps k (next o) = k o
  after_turn-Keeps k (broken o reason) = Keeps-pure _

  pub step_loop-Keeps :
      (msg : JobMessage) (plan : JobPlan Number) (sc : Scopes w) (id : Text) (failed : Option Text)
      (i : ℕ) (steps : List Step) (o : Outputs w)
      → Keeps P (step_loop w env msg plan sc id failed i steps o)
  unfolding step_loop
  step_loop-Keeps msg plan sc id failed i [] o = Keeps-pure _
  step_loop-Keeps msg plan sc id failed i (step ∷ rest) o =
      Keeps-bind (run_step-Keeps msg plan sc id failed o i step)
        (after_turn-Keeps (step_loop-Keeps msg plan sc id failed (suc i) rest))

  job_result-Keeps :
      (plan : JobPlan Number) (sc : Scopes w) (r : Outputs w × Option Text)
      → Keeps P (job_result w env plan sc r)
  job_result-Keeps plan sc (o, some reason) = Keeps-fail _
  job_result-Keeps plan sc (o, none) = Keeps-pure _

  pub run_steps-Keeps :
      (msg : JobMessage) (plan : JobPlan Number) (id : Text) → Keeps P (run_steps w env msg plan id)
  unfolding run_steps
  run_steps-Keeps msg plan id = Keeps-bind (read-Keeps _) (λ needs.
      Keeps-bind (read-Keeps _) (λ run. Keeps-bind (Keeps-ask env c _ _ (tame _ refl)) (λ answer.
        Keeps-bind (Keeps-lift _) (λ resolved.
          Keeps-bind (step_loop-Keeps msg plan _ id none 0 plan.steps [])
            (λ ended. job_result-Keeps plan _ ended)))))
