-- ===== src/Worker/Answered.antt =====
-- The answer to the broker and what has become of the job by then: `consume` of src/dispatch.rs.
use ci.Common.{
  ℕ, ◌≡◌, refl, true, false, ◌∷◌, Option, none, some, Text, ◌<◌, ◌⊎◌, inl, inr, leb, arith,
}
use mathlib.Core.Option
use ci.Expr.Values.{World}
use ci.Bus.{JobMessage, backoff_for}
use ci.Store.Status.{JobStatus}
use ci.Store.Lifecycle.{History}
use ci.Store.Over.{is_over, has_job, settled-over, History-has_job}
use ci.Store.Tables.{set_job_status}
use ci.Worker.Errors.{JobError, job_timeout}
use ci.Worker.Machine.{Action, State, Tables, Outside, Outcome, done, failed, cut_off, Act, ignore}
use ci.Worker.Calls.{ask, issue, issued, meanwhile}
use ci.Worker.Job.{run_job}
use ci.Worker.Deliver.{
  Answer, acked, naked, max_deliver, giving_up, on_error, unlimited, answer, deliver,
}
use ci.Worker.Reason.{After, Runs, Runs-bind, Runs-if, Runs-attempt, Runs-pure, Runs-weaken}
use ci.Worker.Finished.{run_job-Finished}

module _ {N F64 : Type 0} (env : Outside N F64) where
  abbrev Never : State N → Type 0
  Never s = ⊥

  -- Without the time limit a request is answered.
  unlimited-ask :
      {A : Type 0} {P Q : State N → Type 0} (a : Action) (f : State N → A)
      → ((s : State N) → P s → Q (record s { tables = env.others s; done = a ∷ s.done }))
      → Runs P (ask (unlimited env) a f) (λ x. Q) Never Never
  unfolding ask
  unlimited-ask a f k = record { at = λ s p. k s p }

  -- Nor is a statement cut off; `F` holds where it is refused.
  unlimited-issue :
      {A : Type 0} {P : State N → Type 0} (F : State N → Type 0) {Q : A → State N → Type 0}
      (a : Action) (wrong : Text → JobError F64) (change : State N → Tables N → Tables N × A)
      → ((s : State N)
          → P s
          → (o : Option Text) → env.refuses (meanwhile env s) ≡ o
          → After Q F Never (issued (unlimited env) a wrong change (meanwhile env s) o))
      → Runs P (issue (unlimited env) a wrong change) Q F Never
  unfolding issue
  unlimited-issue F a wrong change k = record {
    at = λ s p. k s p (env.refuses (meanwhile env s)) refl;
  }

  ignore-Runs :
      {A : Type 0} {P Q : State N → Type 0} (F : State N → Type 0) {m : Act N F64 A}
      → Runs P m (λ x. Q) F Never
      → ((s : State N) → F s → Q s)
      → Runs P (ignore m) (λ x. Q) Never Never
  unfolding ignore
  ignore-Runs F k h = Runs-attempt F (λ x. _) k (λ x. Runs-pure tt (λ s p. p)) (λ e. Runs-pure tt h)

  -- Where the database refuses nothing, a statement is done.
  sure-issue :
      {A : Type 0} {P : State N → Type 0} {Q : A → State N → Type 0}
      → ((s : State N) → env.refuses s ≡ none)
      → (a : Action) (wrong : Text → JobError F64) (change : State N → Tables N → Tables N × A)
      → ((s : State N)
          → P s
          → let now = meanwhile env s in
            Q
              (change now now.tables).1
              (record now { tables = (change now now.tables).0; done = a ∷ s.done }))
      → Runs P (issue (unlimited env) a wrong change) Q Never Never
  sure-issue {P} {Q} willing a wrong change k = unlimited-issue Never a wrong change answered
    where
      answered :
          (s : State N)
          → P s
          → (o : Option Text) → env.refuses (meanwhile env s) ≡ o
          → After Q Never Never (issued (unlimited env) a wrong change (meanwhile env s) o)
      answered s p none e = unfold issued in k s p
      answered s p (some problem) e = cc (willing (meanwhile env s))

  -- The answers that `consume` may give on an attempt.
  abbrev pub Fits : ℕ → Answer → Type 0
  Fits n a = (a ≡ acked) ⊎ ((a ≡ naked (backoff_for n)) × (n < max_deliver))

  naked-Fits : (n : ℕ) → leb max_deliver n ≡ false → Fits n (naked (backoff_for n))
  naked-Fits n h = inr (refl, ground arith)

  abbrev True : State N → Type 0
  True s = Unit

  loose :
      {A : Type 0} (a : Action) (wrong : Text → JobError F64)
      (change : State N → Tables N → Tables N × A)
      → Runs True (issue (unlimited env) a wrong change) (λ x. True) True Never
  loose a wrong change =
      unlimited-issue True a wrong change (λ s p o e. refused_or_not (meanwhile env s) o)
    where
      refused_or_not :
          (s : State N) (o : Option Text)
          → After (λ x. True) True Never (issued (unlimited env) a wrong change s o)
      refused_or_not s none = unfold issued in tt
      refused_or_not s (some problem) = unfold issued in tt

  on_error-Fits :
      (msg : JobMessage) (n : ℕ) (e : JobError F64)
      → Runs True (on_error (unlimited env) msg n e) (λ a s. Fits n a) Never Never
  unfolding on_error
  on_error-Fits msg n e =
      Runs-if (leb max_deliver n)
        (λ h.
          Runs-bind (λ u. True) (ignore-Runs True (loose _ _ _) (λ s p. tt))
            (λ u. Runs-pure {Q = λ a s. Fits n a} acked (λ s p. inl refl)))
        (λ h.
          Runs-bind (λ u. True) (ignore-Runs True (loose _ _ _) (λ s p. tt))
            (λ u.
              Runs-bind (λ v. True) (unlimited-ask _ _ (λ s p. tt))
                (λ v.
                  Runs-pure {Q = λ a s. Fits n a} (naked (backoff_for n)) (λ s p. naked-Fits n h))))

-- What an action that always returns comes to.
module _ {N F64 A : Type 0} where
  returns :
      (Q : A → State N → Type 0) (r : Outcome F64 A × State N)
      → After Q (λ s. ⊥) (λ s. ⊥) r
      → (a : A) × (s : State N) × (r ≡ (done a, s)) × Q a s
  returns Q (done a, s) h = (a, s, refl, h)
  returns Q (failed e, s) h = absurd h
  returns Q (cut_off, s) h = absurd h

module _ (w : World) (env : Outside (w.numerics.Number) (w.numerics.F64)) where
  open w use {Number, F64}

  answer-Fits :
      (msg : JobMessage) (n : ℕ) (r : Outcome F64 JobStatus × State Number)
      → After (λ a s. Fits env n a) (λ s. ⊥) (λ s. ⊥) (answer w env msg n r)
  unfolding answer
  answer-Fits msg n (done status, s) = inl refl
  answer-Fits msg n (failed e, s) = (on_error-Fits env msg n e).at s tt
  answer-Fits msg n (cut_off, s) = (on_error-Fits env msg n (job_timeout msg.job_key)).at s tt

  -- Every delivery of a job is answered, whatever the world outside does: whether the run of the job
  -- returns, fails or is cut off, and whether or not the database then refuses a statement, the
  -- message is either acknowledged, or sent back with the delay of its attempt, which is below
  -- `max_deliver`. A delivery that the broker does not number is a first attempt.
  pub deliver-answers :
      (msg : JobMessage) (delivered : Option ℕ) (s : State Number)
      → (a : Answer) × (after : State Number) × (deliver w env (some msg) delivered s
          ≡ (done a, after))
        × ((a ≡ acked)
            ⊎ ((a ≡ naked (backoff_for (Option.get_or delivered 1)))
                × (Option.get_or delivered 1 < max_deliver)))
  unfolding deliver
  deliver-answers msg delivered s =
      returns (λ a t. Fits env (Option.get_or delivered 1) a) _
        (answer-Fits msg (Option.get_or delivered 1)
          (run_job w env msg (Option.get_or delivered 1) s))

module _ (w : World) (env : Outside (w.numerics.Number) (w.numerics.F64))
    (lawful : (s : State (w.numerics.Number)) → History s.tables.db (env.others s).db)
    (willing : (s : State (w.numerics.Number)) → env.refuses s ≡ none) (msg : JobMessage) where
  open w use {Number, F64}

  abbrev There : State Number → Type 0
  There s = has_job msg.job_id s.tables.db ≡ true

  abbrev Ended : Answer → State Number → Type 0
  Ended a s = a ≡ acked → is_over msg.job_id s.tables.db ≡ true

  on_error-Ended :
      (n : ℕ) (e : JobError F64)
      → Runs There (on_error (unlimited env) msg n e) Ended (λ s. ⊥) (λ s. ⊥)
  unfolding on_error set_job_status
  on_error-Ended n e =
      Runs-if (leb max_deliver n)
        (λ h.
          Runs-bind (λ u s. is_over msg.job_id s.tables.db ≡ true)
            (ignore-Runs env (λ s. ⊥)
              (sure-issue env willing _ _ _ (λ s p.
                settled-over msg.job_id JobStatus.failure (some (giving_up n (env.to_string e)))
                  (env.now (meanwhile env s)) (env.others s).db.jobs refl
                  (History-has_job msg.job_id s.tables.db (env.others s).db (lawful s) p)))
              (λ s p. absurd p))
            (λ u. Runs-pure {Q = Ended} acked (λ s p q. p)))
        (λ h.
          Runs-bind (λ u s. Unit {0})
            (Runs-weaken (λ s p. tt) (ignore-Runs env (True env) (loose env _ _ _) (λ s p. tt)))
            (λ u.
              Runs-bind (λ v s. Unit {0}) (unlimited-ask env _ _ (λ s p. tt))
                (λ v. Runs-pure {Q = Ended} (naked (backoff_for n)) (λ s p q. cc))))

  answer-Ended :
      (n : ℕ) (r : Outcome F64 JobStatus × State Number)
      → After (λ st s. is_over msg.job_id s.tables.db ≡ true) There There r
      → After Ended (λ s. ⊥) (λ s. ⊥) (answer w env msg n r)
  unfolding answer
  answer-Ended n (done status, s) h = λ q. h
  answer-Ended n (failed e, s) h = (on_error-Ended n e).at s h
  answer-Ended n (cut_off, s) h = (on_error-Ended n (job_timeout msg.job_key)).at s h

  Ended-acked :
      (r : Outcome F64 Answer × State Number) (after : State Number)
      → r ≡ (done acked, after)
      → After Ended (λ s. ⊥) (λ s. ⊥) r
      → is_over msg.job_id after.tables.db ≡ true
  Ended-acked (done a, s) after e h = ground (arith, h (ground arith))
  Ended-acked (failed x, s) after e h = absurd h
  Ended-acked (cut_off, s) after e h = absurd h

  -- No job is lost: if the job has a row, the database refuses no statement, and what other
  -- processes do to the tables of runs and jobs is a sequence of the program's statements, then
  -- a message that is acknowledged leaves its job over.
  pub acked-is_over :
      (delivered : Option ℕ) (s after : State Number)
      → has_job msg.job_id s.tables.db ≡ true
      → deliver w env (some msg) delivered s ≡ (done acked, after)
      → is_over msg.job_id after.tables.db ≡ true
  unfolding deliver
  acked-is_over delivered s after p e =
      let n = Option.get_or delivered 1 in
      Ended-acked (deliver w env (some msg) delivered s) after e
        (answer-Ended n (run_job w env msg n s) ((run_job-Finished w env lawful msg n).at s p))
