-- ===== src/Worker/Reason.antt =====
-- Reasoning on actions: what holds when an action returns, and what holds however it ends. One rule
-- for each way to build an action.
pub mod Machines
pub mod Jobs
pub mod Deliveries
pub mod Getting
use ci.Common.{
  ℕ, ◌≡◌, refl, Bool, true, false, List, [], ◌∷◌, Option, none, some, Text, if◌then◌else◌, if_cases,
  Result, ok, err,
}
use ci.Store.Rows.{Db}
use ci.Store.Lifecycle.{Step}
use ci.Store.Steps.{StepRow}
use ci.VmPool.Rows.{Vm}
use ci.Images.{Image}
use ci.Worker.Errors.{VmError, JobError, store, pool, image, sql}
use ci.Worker.Machine.{
  Action, statement, Tables, State, Outside, Outcome, done, failed, cut_off, Act, pure, fail,
  then_do, handle, attempt, ignore, peek, lift, ◌>>=◌,
}
use ci.Worker.Calls.{meanwhile, ask, issued, issue, lift_vm, lift_runner}

module _ {N F64 : Type 0} where
  -- `Q` if there is a value, `G` if there is an error, `E` if the action was cut off.
  abbrev pub After :
      {A : Type 0}
      → (A → State N → Type 0)
      → (G E : State N → Type 0) → Outcome F64 A × State N
      → Type 0
  After Q G E (done a, s) = Q a s
  After Q G E (failed e, s) = G s
  After Q G E (cut_off, s) = E s

  pub record Runs {A : Type 0} (P : State N → Type 0) (m : Act N F64 A) (Q : A → State N → Type 0)
      (G E : State N → Type 0) : Type 0 where
    pub at : (s : State N) → P s → After Q G E (m s)

  abbrev pub Keeps : {A : Type 0} → (State N → Type 0) → Act N F64 A → Type 0
  Keeps P m = Runs P m (λ a. P) P P

  -- The same, but `E` where it is cut off.
  abbrev pub Ends : {A : Type 0} → (P E : State N → Type 0) → Act N F64 A → Type 0
  Ends P E m = Runs P m (λ a. P) P E

module _ {N F64 A B : Type 0} {G E : State N → Type 0} where
  then_do-After :
      {R : A → State N → Type 0} {Q : B → State N → Type 0} (r : Outcome F64 A × State N)
      {f : A → Act N F64 B}
      → After R G E r
      → ((a : A) → Runs (R a) (f a) Q G E)
      → After Q G E (then_do r f)
  unfolding then_do
  then_do-After (done a, s) h k = (k a).at s h
  then_do-After (failed e, s) h k = h
  then_do-After (cut_off, s) h k = h

  pub Runs-bind :
      {P : State N → Type 0} (R : A → State N → Type 0) {Q : B → State N → Type 0} {m : Act N F64 A}
      {f : A → Act N F64 B}
      → Runs P m R G E
      → ((a : A) → Runs (R a) (f a) Q G E)
      → Runs P (m >>= f) Q G E
  unfolding ◌>>=◌
  Runs-bind R {m} h k = record { at = λ s p. then_do-After {R = R} (m s) (h.at s p) k }

  handle-After :
      {F : State N → Type 0} {R : A → State N → Type 0} {Q : B → State N → Type 0}
      (r : Outcome F64 A × State N) {f : A → Act N F64 B} {g : JobError F64 → Act N F64 B}
      → After R F E r
      → ((a : A) → Runs (R a) (f a) Q G E)
      → ((e : JobError F64) → Runs F (g e) Q G E)
      → After Q G E (handle r f g)
  unfolding handle
  handle-After (done a, s) h k l = (k a).at s h
  handle-After (failed e, s) h k l = (l e).at s h
  handle-After (cut_off, s) h k l = h

  -- `F` holds where the first action fails.
  pub Runs-attempt :
      {P : State N → Type 0} (F : State N → Type 0) (R : A → State N → Type 0)
      {Q : B → State N → Type 0} {m : Act N F64 A} {f : A → Act N F64 B}
      {g : JobError F64 → Act N F64 B}
      → Runs P m R F E
      → ((a : A) → Runs (R a) (f a) Q G E)
      → ((e : JobError F64) → Runs F (g e) Q G E)
      → Runs P (attempt m f g) Q G E
  unfolding attempt
  Runs-attempt F R {m} h k l = record {
    at = λ s p. handle-After {F = F} {R = R} (m s) (h.at s p) k l;
  }

module _ {N F64 A : Type 0} where
  kept-After : (P : State N → Type 0) (r : Outcome F64 A × State N) → After (λ a. P) P P r → P r.1
  kept-After P (done a, s) p = p
  kept-After P (failed e, s) p = p
  kept-After P (cut_off, s) p = p

  -- What is kept holds of the state that is left, however the action ends.
  pub Runs-state :
      {P P' : State N → Type 0} {m : Act N F64 A}
      → Runs P' m (λ a. P) P P
      → (s : State N) → P' s
      → P (m s).1
  Runs-state {P} {m} k s p = kept-After P (m s) (k.at s p)

  relax-After :
      {Q Q' : A → State N → Type 0} {G E G' E' : State N → Type 0} (r : Outcome F64 A × State N)
      → ((a : A) (s : State N) → Q a s → Q' a s)
      → ((s : State N) → G s → G' s)
      → ((s : State N) → E s → E' s)
      → After Q G E r
      → After Q' G' E' r
  relax-After (done a, s) h k l p = h a s p
  relax-After (failed e, s) h k l p = k s p
  relax-After (cut_off, s) h k l p = l s p

module _ {N F64 A : Type 0} {P : State N → Type 0} where
  pub Runs-pure :
      {Q : A → State N → Type 0} {G E : State N → Type 0} (a : A)
      → ((s : State N) → P s → Q a s)
      → Runs {F64 = F64} P (pure a) Q G E
  unfolding pure
  Runs-pure a h = record { at = h }

  pub Runs-fail :
      {Q : A → State N → Type 0} {G E : State N → Type 0} (e : JobError F64)
      → ((s : State N) → P s → G s)
      → Runs {A = A} P (fail e) Q G E
  unfolding fail
  Runs-fail e h = record { at = h }

  pub Runs-weaken :
      {P' : State N → Type 0} {Q : A → State N → Type 0} {G E : State N → Type 0} {m : Act N F64 A}
      → ((s : State N) → P s → P' s)
      → Runs P' m Q G E
      → Runs P m Q G E
  Runs-weaken h r = record { at = λ s p. r.at s (h s p) }

  -- What holds afterwards implies less.
  pub Runs-relax :
      {Q Q' : A → State N → Type 0} {G E G' E' : State N → Type 0} {m : Act N F64 A}
      → ((a : A) (s : State N) → Q a s → Q' a s)
      → ((s : State N) → G s → G' s)
      → ((s : State N) → E s → E' s)
      → Runs P m Q G E
      → Runs P m Q' G' E'
  Runs-relax {m} h k l r = record { at = λ s p. relax-After (m s) h k l (r.at s p) }

  pub Keeps-Ends :
      {E : State N → Type 0} {m : Act N F64 A}
      → ((s : State N) → P s → E s)
      → Keeps P m
      → Ends P E m
  Keeps-Ends cut k = Runs-relax (λ a s p. p) (λ s p. p) cut k

  pub Runs-if :
      {Q : A → State N → Type 0} {G E : State N → Type 0} (b : Bool) {m n : Act N F64 A}
      → (b ≡ true → Runs P m Q G E)
      → (b ≡ false → Runs P n Q G E)
      → Runs P (if b then m else n) Q G E
  Runs-if true h k = h refl
  Runs-if false h k = k refl

  pub Keeps-pure : (a : A) → Keeps {F64 = F64} P (pure a)
  Keeps-pure a = Runs-pure a (λ s p. p)

  pub Keeps-fail : (e : JobError F64) → Keeps {A = A} P (fail e)
  Keeps-fail e = Runs-fail e (λ s p. p)

  pub Keeps-peek : (f : State N → A) → Keeps {F64 = F64} P (peek f)
  unfolding peek
  Keeps-peek f = record { at = λ s p. p }

  pub Keeps-lift : (r : Result (JobError F64) A) → Keeps P (lift {N = N} r)
  unfolding lift
  Keeps-lift (ok a) = record { at = λ s p. p }
  Keeps-lift (err e) = record { at = λ s p. p }

  pub Keeps-if :
      (b : Bool) {m n : Act N F64 A} → Keeps P m → Keeps P n → Keeps P (if b then m else n)
  Keeps-if true h k = h
  Keeps-if false h k = k

module _ {N F64 A B : Type 0} {P : State N → Type 0} where
  pub Keeps-bind :
      {m : Act N F64 A} {f : A → Act N F64 B}
      → Keeps P m
      → ((a : A) → Keeps P (f a))
      → Keeps P (m >>= f)
  Keeps-bind = Runs-bind (λ a. P)

  pub Keeps-attempt :
      {m : Act N F64 A} {f : A → Act N F64 B} {g : JobError F64 → Act N F64 B}
      → Keeps P m
      → ((a : A) → Keeps P (f a))
      → ((e : JobError F64) → Keeps P (g e))
      → Keeps P (attempt m f g)
  Keeps-attempt = Runs-attempt P (λ a. P)

module _ {N F64 A : Type 0} {P : State N → Type 0} where
  pub Keeps-ignore : {m : Act N F64 A} → Keeps P m → Keeps P (ignore m)
  unfolding ignore
  Keeps-ignore h = Keeps-attempt h (λ a. Keeps-pure tt) (λ e. Keeps-pure tt)

module _ {N F64 : Type 0} (env : Outside N F64) {P : State N → Type 0} where
  pub Keeps-lift_vm : (o : Option VmError) → Keeps P (lift_vm env o)
  Keeps-lift_vm none = Keeps-lift (ok tt)
  Keeps-lift_vm (some e) = Keeps-lift _

  pub Keeps-lift_runner : (o : Option Text) → Keeps P (lift_runner env o)
  Keeps-lift_runner none = Keeps-lift (ok tt)
  Keeps-lift_runner (some e) = Keeps-lift _

-- What is closed under everything that a dispatcher does of which the actions are `allowed`: under
-- the work of others, under an action, under the statements on each table.
module _ {N F64 : Type 0} (env : Outside N F64) where
  pub record Closed (allowed : Action → Bool) (P : State N → Type 0) : Type 0 where
    pub others : (s : State N) → P s → P (meanwhile env s)
    pub acts :
        (s : State N) (a : Action) → allowed a ≡ true → P s → P (record s { done = a ∷ s.done })
    pub db :
        (s : State N) (e : Db N)
        → Step s.tables.db e
        → P s
        → P (record s { tables = record s.tables { db = e } })
    pub vms :
        (s : State N) (v : List Vm) → P s → P (record s { tables = record s.tables { vms = v } })
    pub images :
        (s : State N) (i : List Image)
        → P s
        → P (record s { tables = record s.tables { images = i } })
    pub steps :
        (s : State N) (r : List StepRow)
        → P s
        → P (record s { tables = record s.tables { steps = r } })

  module _ {allowed : Action → Bool} {P : State N → Type 0} (c : Closed allowed P)
      {A : Type 0} where
    pub Keeps-ask : (a : Action) (f : State N → A) → allowed a ≡ true → Keeps P (ask env a f)
    unfolding ask
    Keeps-ask a f h = record {
      at = λ s p.
          if_cases (After (λ x. P) P P) (env.expired (meanwhile env s)) _ _ (λ e. c.others s p)
            (λ e. c.acts (meanwhile env s) a h (c.others s p));
    }

    -- A statement, when what it does to the tables keeps `P`.
    pub Keeps-issue :
        (a : Action) (wrong : Text → JobError F64) (change : State N → Tables N → Tables N × A)
        → allowed a ≡ true
        → ((s : State N) → P s → P (record s { tables = (change s s.tables).0 }))
        → Keeps P (issue env a wrong change)
    unfolding issue
    Keeps-issue a wrong change h k = record {
      at = λ s p.
          if_cases (After (λ x. P) P P) (env.expired (meanwhile env s)) _ _ (λ e. c.others s p)
            (λ e. answered (meanwhile env s) (c.others s p) (env.refuses (meanwhile env s)));
    }
      where
        answered :
            (s : State N)
            → P s
            → (o : Option Text) → After (λ x. P) P P (issued env a wrong change s o)
        answered s p (some problem) = unfold issued in p
        answered s p none = unfold issued in c.acts _ a h (k s p)

    -- A statement that may make `Q` hold.
    pub Runs-issue :
        {Q : A → State N → Type 0} (a : Action) (wrong : Text → JobError F64)
        (change : State N → Tables N → Tables N × A)
        → ((s : State N)
            → P s
            → Q
                (change s s.tables).1
                (record s { tables = (change s s.tables).0; done = a ∷ s.done }))
        → Runs P (issue env a wrong change) Q P P
    unfolding issue
    Runs-issue {Q} a wrong change k = record {
      at = λ s p.
          if_cases (After Q P P) (env.expired (meanwhile env s)) _ _ (λ e. c.others s p)
            (λ e. answered (meanwhile env s) (c.others s p) (env.refuses (meanwhile env s)));
    }
      where
        answered :
            (s : State N) → P s → (o : Option Text) → After Q P P (issued env a wrong change s o)
        answered s p (some problem) = unfold issued in p
        answered s p none = unfold issued in k s p
