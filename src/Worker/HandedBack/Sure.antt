-- ===== src/Worker/HandedBack/Sure.antt =====
-- Actions that do not fail: `capture_vm_log` and `release_vm` of src/dispatch.rs.
use ci.Common.{
  ◌≡◌, refl, Bool, true, false, not, List, [], ◌∷◌, Option, none, some, Text, ◌||◌, if_cases,
}
use ci.Plan.Jobs.{JobPlan}
use ci.Workflow.Target.{is_existing_vm}
use ci.Bus.{JobMessage}
use ci.Worker.Errors.{pool}
use ci.VmPool.Rows.{Vm}
use ci.Store.Steps
use ci.Worker.Machine.{Action, State, Outside, Act, pure, ignore}
use ci.Worker.Machines.{release_vm, attach, capture_vm_log}
use ci.Worker.Calls.{ask, issue, issued, meanwhile, in_vms}
use ci.Worker.Reason.{
  After, Runs, Keeps, Closed, Runs-bind, Runs-attempt, Runs-pure, Runs-if, Runs-relax, Keeps-bind,
  Keeps-ask, Keeps-lift_vm,
}
use ci.Worker.Reason.Machines.{is_tame, in_steps-Keeps}
use ci.Worker.HandedBack.{held_by, held_after, without_self, Clear, HoldsOne, HoldsOne-Closed}

module _ {N F64 : Type 0} (env : Outside N F64) where
  -- What does not fail: `Q` afterwards, unless it is cut off.
  abbrev pub Sure : {A : Type 0} → (State N → Type 0) → Act N F64 A → (State N → Type 0) → Type 0
  Sure P m Q = Runs P m (λ a. Q) (λ s. ⊥) (λ s. Unit)

  -- What keeps `P`, and may fail or be cut off.
  pub eased :
      {A : Type 0} {P : State N → Type 0} {m : Act N F64 A}
      → Keeps P m
      → Runs P m (λ a. P) P (λ s. Unit)
  eased k = Runs-relax (λ a s p. p) (λ s p. p) (λ s p. tt) k

  -- What ends well where nothing else may fail.
  pub ended :
      {A : Type 0} {P Q G : State N → Type 0} {m : Act N F64 A}
      → Sure P m Q
      → Runs P m (λ a. Q) G (λ s. Unit)
  ended k = Runs-relax (λ a s p. p) (λ s p. absurd p) (λ s p. p) k

  Sure-pure : {A : Type 0} {P : State N → Type 0} (a : A) → Sure P (pure a) P
  Sure-pure a = Runs-pure a (λ s p. p)

  Sure-ignore :
      {A : Type 0} {P : State N → Type 0} {m : Act N F64 A} → Keeps P m → Sure P (ignore m) P
  unfolding ignore
  Sure-ignore {P} k = Runs-attempt P (λ a. P) (eased k) (λ a. Sure-pure tt) (λ e. Sure-pure tt)

  Sure-ignore_sure :
      {A : Type 0} {P Q : State N → Type 0} {m : Act N F64 A} → Sure P m Q → Sure P (ignore m) Q
  unfolding ignore
  Sure-ignore_sure {Q} k =
      Runs-attempt (λ s. ⊥) (λ a. Q) k (λ a. Sure-pure tt) (λ e. Runs-pure tt (λ s p. absurd p))

  module _ {allowed : Action → Bool} {P : State N → Type 0} (c : Closed env allowed P) where
    pub Sure-ask :
        {A : Type 0} (a : Action) (f : State N → A) → allowed a ≡ true → Sure P (ask env a f) P
    unfolding ask
    Sure-ask a f h = record {
      at = λ s p.
          if_cases (After (λ x. P) (λ t. ⊥) (λ t. Unit)) (env.expired (meanwhile env s)) _ _
            (λ e. tt) (λ e. c.acts (meanwhile env s) a h (c.others s p));
    }

    Sure-attach :
        ((a : Action) → is_tame a ≡ true → allowed a ≡ true)
        → (sid job : Text) (i : Steps.StepIndex) (name : Text) {content : Act N F64 Text}
        → Sure P content P
        → Sure P (attach env sid job i name content) P
    unfolding attach
    Sure-attach tame sid job i name k =
        Runs-attempt P (λ u. P) (eased (in_steps-Keeps env c tame _))
          (λ u.
            Runs-bind (λ text. P) k
              (λ text.
                Runs-bind (λ v. P) (Sure-ignore (in_steps-Keeps env c tame _))
                  (λ v. Sure-ignore (in_steps-Keeps env c tame _))))
          (λ e. Sure-pure tt)

    pub Sure-capture :
        ((a : Action) → is_tame a ≡ true → allowed a ≡ true)
        → (msg : JobMessage) (id : Text) → Sure P (capture_vm_log env msg id) P
    unfolding capture_vm_log
    Sure-capture tame msg id =
        Sure-attach tame _ _ _ _
          (Runs-bind (λ answer. P) (Sure-ask _ _ (tame _ refl)) (λ answer. Sure-pure _))

  -- Where the database refuses nothing, a machine is given back.
  module _ (willing : (s : State N) → env.refuses s ≡ none) where
    Sure-in_vms :
        {P Q : State N → Type 0} (a : Action) (change : State N → List Vm → List Vm)
        → ((s : State N) → P s → P (meanwhile env s))
        → ((s : State N) (v : List Vm)
            → P s
            → Q (record s { tables = record s.tables { vms = v }; done = a ∷ s.done }))
        → Sure P (in_vms env a change) Q
    unfolding issue
    Sure-in_vms {P} {Q} a change others k = record {
      at = λ s p.
          if_cases (After (λ x. Q) (λ t. ⊥) (λ t. Unit)) (env.expired (meanwhile env s)) _ _
            (λ e. tt)
            (λ e. answered (meanwhile env s) (others s p) (env.refuses (meanwhile env s)) refl);
    }
      where
        answered :
            (s : State N)
            → P s
            → (o : Option Text) → env.refuses s ≡ o
            → After
                (λ x. Q)
                (λ t. ⊥)
                (λ t. Unit)
                (issued env a pool (λ s t. (record t { vms = change s t.vms }, tt)) s o)
        answered s p none e = unfold issued in k s _ p
        answered s p (some problem) e = cc (willing s)

    given_back :
        (id : Text) (a : Action) (change : State N → List Vm → List Vm)
        → held_after a (id ∷ []) ≡ []
        → Sure (HoldsOne id) (ignore (in_vms env a change)) Clear
    unfolding held_by
    given_back id a change h = Sure-ignore_sure (Sure-in_vms a change (λ s p. p) (λ s v p. rw p h))

    pub release_vm-clears :
        (plan : JobPlan N) (id : Text) (bad : Bool)
        → is_existing_vm plan.target ≡ false
        → Sure (HoldsOne id) (release_vm env plan id bad) Clear
    unfolding release_vm
    release_vm-clears plan id bad ours =
        let c = HoldsOne-Closed env id in
        Runs-if (is_existing_vm plan.target) (λ h. cc ours)
          (λ h.
            Runs-if (not plan.vm.reuse || bad)
              (λ g.
                Runs-bind (λ u. HoldsOne id)
                  (Sure-ignore (Keeps-bind (Keeps-ask env c _ _ refl) (λ o. Keeps-lift_vm env o)))
                  (λ u. given_back id _ _ (without_self id)))
              (λ g.
                Runs-bind (λ u. HoldsOne id)
                  (Sure-ignore (Keeps-bind (Keeps-ask env c _ _ refl) (λ o. Keeps-lift_vm env o)))
                  (λ u. given_back id _ _ (without_self id))))
