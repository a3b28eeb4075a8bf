-- ===== src/Worker/Raced.antt =====
-- A job that other processes end or cancel between the two statements with which `run_job` of
-- src/dispatch.rs takes it up.
use ci.Common.{
  ℕ, ◌≡◌, refl, Bool, true, false, List, ◌∷◌, Option, none, some, Text, any, ◌⊎◌, inl, inr, Result,
  ok, err, map_err, if_cases,
}
use ci.Expr.Values.{World}
use ci.Plan.Jobs.{JobPlan}
use ci.Bus.{JobMessage}
use ci.Store.Status.{JobStatus, job_is_terminal}
use ci.Store.Rows.{JobRow}
use ci.Store.Tables.{is_open_job, claim_job, get_job}
use ci.Dispatch.Place.{DispatchError, pick_runner}
use ci.Worker.Errors.{JobError, placement, store, is_tunnel_failure}
use ci.Worker.Machine.{
  Action, statement, State, Outside, Outcome, done, failed, cut_off, Act, pure, fail, then_do,
  handle, attempt, peek, lift, ◌>>=◌,
}
use ci.Worker.Calls.{meanwhile, issue, issued}
use ci.Worker.Job.{run_job, run_claimed, when_claimed, on_runner, with_plan, with_row, evict_if}

module _ (w : World) (env : Outside (w.numerics.Number) (w.numerics.F64)) where
  open w use {Number, F64}

  -- No row of the job is open in what other processes leave.
  abbrev pub IsShut : JobMessage → State Number → Type 0
  IsShut msg s = any (is_open_job msg.job_id) (env.others s).db.jobs ≡ false

module _ (w : World) (env : Outside (w.numerics.Number) (w.numerics.F64))
    (Fits : List Action → Type 0) where
  open w use {Number, F64}

  abbrev IsQuiet : State Number → Type 0
  IsQuiet s = Fits s.done

  -- What was done fits, and an error is none of the connection to a host.
  abbrev EndsQuiet : Outcome F64 JobStatus × State Number → Type 0
  EndsQuiet (done st, s) = IsQuiet s
  EndsQuiet (failed e, s) = (is_tunnel_failure e ≡ false) × IsQuiet s
  EndsQuiet (cut_off, s) = IsQuiet s

  -- A claim that found no open row.
  unclaimed :
      (msg : JobMessage) (n : ℕ) (plan : JobPlan Number) (r : Text) (existing : Option Text)
      (mine : Bool) (s : State Number)
      → mine ≡ false
      → IsQuiet s
      → EndsQuiet (when_claimed w env msg n plan r existing mine s)
  unfolding pure
  unclaimed msg n plan r existing true s e q = cc e
  unclaimed msg n plan r existing false s e q = q

  run_claimed-EndsQuiet :
      (msg : JobMessage) (n : ℕ) (plan : JobPlan Number) (r : Text) (existing : Option Text)
      (s : State Number)
      → IsQuiet s
      → Fits (statement ∷ s.done)
      → IsShut w env msg s
      → EndsQuiet (run_claimed w env msg n plan r existing s)
  unfolding run_claimed ◌>>=◌ then_do issue claim_job
  run_claimed-EndsQuiet msg n plan r existing s q q2 shut =
      if_cases
        (λ (x : Outcome F64 Bool × State Number).
          EndsQuiet (then_do x (when_claimed w env msg n plan r existing)))
        (env.expired (meanwhile env s)) _ _ (λ e. q) (λ e. answered (env.refuses (meanwhile env s)))
    where
      answered :
          (o : Option Text)
          → EndsQuiet (
              then_do
                (issued env statement store
                  (λ s t. (
                    record t { db = (claim_job msg.job_id r n (env.now s) t.db).0 },
                    (claim_job msg.job_id r n (env.now s) t.db).1,
                  ))
                  (meanwhile env s)
                  o)
                (when_claimed w env msg n plan r existing))
      answered (some problem) = unfold issued is_tunnel_failure in (refl, q)
      answered none = unfold issued in unclaimed msg n plan r existing _ _ shut q2

  -- Only a failed connection drops a host.
  unevicted :
      (r : Text) (e : JobError F64) (dead : Bool) (s : State Number)
      → dead ≡ false
      → is_tunnel_failure e ≡ false
      → IsQuiet s
      → EndsQuiet ((evict_if w env dead r >>= λ u. fail e) s)
  unfolding ◌>>=◌ then_do pure fail
  unevicted r e true s h t q = cc h
  unevicted r e false s h t q = (t, q)

  handled-EndsQuiet :
      (r : Text) (x : Outcome F64 JobStatus × State Number)
      → EndsQuiet x
      → EndsQuiet (handle x pure (λ e. evict_if w env (is_tunnel_failure e) r >>= λ u. fail e))
  unfolding handle pure
  handled-EndsQuiet r (done st, s) q = q
  handled-EndsQuiet r (failed e, s) q = unevicted r e (is_tunnel_failure e) s q.0 q.0 q.1
  handled-EndsQuiet r (cut_off, s) q = q

  picked-EndsQuiet :
      (msg : JobMessage) (n : ℕ) (plan : JobPlan Number)
      (picked : Result DispatchError (Text × Option Text)) (s : State Number)
      → IsQuiet s
      → Fits (statement ∷ s.done)
      → IsShut w env msg s
      → EndsQuiet ((lift (map_err placement picked) >>= on_runner w env msg n plan) s)
  unfolding ◌>>=◌ then_do lift attempt is_tunnel_failure
  picked-EndsQuiet msg n plan (err problem) s q q2 shut = (refl, q)
  picked-EndsQuiet msg n plan (ok (r, existing)) s q q2 shut =
      handled-EndsQuiet r (run_claimed w env msg n plan r existing s)
        (run_claimed-EndsQuiet msg n plan r existing s q q2 shut)

  planned-EndsQuiet :
      (msg : JobMessage) (n : ℕ) (plan : Option (JobPlan Number)) (s : State Number)
      → IsQuiet s
      → Fits (statement ∷ s.done)
      → IsShut w env msg s
      → EndsQuiet (with_plan w env msg n plan s)
  unfolding ◌>>=◌ then_do peek fail is_tunnel_failure
  planned-EndsQuiet msg n none s q q2 shut = (refl, q)
  planned-EndsQuiet msg n (some plan) s q q2 shut =
      picked-EndsQuiet msg n plan (pick_runner (env.pool s) plan.target plan.fallback) s q q2 shut

  row-EndsQuiet :
      (msg : JobMessage) (n : ℕ) (row : Option (JobRow Number)) (s : State Number)
      → IsQuiet s
      → Fits (statement ∷ s.done)
      → IsShut w env msg s
      → EndsQuiet (with_row w env msg n row s)
  unfolding fail pure is_tunnel_failure
  row-EndsQuiet msg n none s q q2 shut = (refl, q)
  row-EndsQuiet msg n (some row) s q q2 shut =
      if_cases (λ (m : Act Number F64 JobStatus). EndsQuiet (m s)) (job_is_terminal row.status) _ _
        (λ e. q) (λ e. planned-EndsQuiet msg n row.plan s q q2 shut)

  EndsQuiet-state : (x : Outcome F64 JobStatus × State Number) → EndsQuiet x → IsQuiet x.1
  EndsQuiet-state (done st, s) q = q
  EndsQuiet-state (failed e, s) q = q.1
  EndsQuiet-state (cut_off, s) q = q

  run_job-IsQuiet :
      (msg : JobMessage) (n : ℕ) (s : State Number)
      → ((t : State Number) → t.done ≡ statement ∷ s.done → IsShut w env msg t)
      → IsQuiet s
      → Fits (statement ∷ s.done)
      → Fits (statement ∷ statement ∷ s.done)
      → IsQuiet (run_job w env msg n s).1
  unfolding run_job ◌>>=◌ then_do issue
  run_job-IsQuiet msg n s shut q q2 q3 = EndsQuiet-state (run_job w env msg n s) (
      if_cases
        (λ (x : Outcome F64 (Option (JobRow Number)) × State Number).
          EndsQuiet (then_do x (with_row w env msg n)))
        (env.expired (meanwhile env s)) _ _ (λ e. q)
        (λ e. answered (env.refuses (meanwhile env s))))
    where
      answered :
          (o : Option Text)
          → EndsQuiet (
              then_do
                (issued env statement store
                  (λ s t. (t, get_job msg.job_id t.db))
                  (meanwhile env s)
                  o)
                (with_row w env msg n))
      answered (some problem) = unfold issued is_tunnel_failure in (refl, q)
      answered none = unfold issued in row-EndsQuiet msg n _ _ q2 q3 (shut _ refl)

-- A job that is ended or cancelled in the last moment is not worked on: if, once the row of the job is
-- read, other processes leave no row of it open, then all that a run of the job does is at most two
-- statements, the one that reads the row and the one that claims it, however the run ends. No machine
-- is claimed, made, started or used, no image is built, no host is dropped and no event is sent.
pub run_job-stops :
    (w : World) (env : Outside (w.numerics.Number) (w.numerics.F64)) (msg : JobMessage) (n : ℕ)
    (s : State (w.numerics.Number))
    → ((t : State (w.numerics.Number)) → t.done ≡ statement ∷ s.done → IsShut w env msg t)
    → let ended = (run_job w env msg n s).1.done in
      (ended ≡ s.done) ⊎ ((ended ≡ statement ∷ s.done) ⊎ (ended ≡ statement ∷ statement ∷ s.done))
run_job-stops w env msg n s shut =
    run_job-IsQuiet w env
      (λ d. (d ≡ s.done) ⊎ ((d ≡ statement ∷ s.done) ⊎ (d ≡ statement ∷ statement ∷ s.done))) msg n
      s shut (inl refl) (inr (inl refl)) (inr (inr refl))
