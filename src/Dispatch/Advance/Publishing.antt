-- ===== src/Dispatch/Advance/Publishing.antt =====
-- What one turn of `advance_run` can publish, and what it can change.
use ci.Common.{
  ◌≡◌, refl, ◌⊎◌, inl, inr, Bool, true, false, List, [], ◌∷◌, ◌++◌, some, Text, any, Result, ok,
  err, arith, Bool-cases, Option-cases,
}
use mathlib.Core.Path.{subst}
use ci.Json.{Value, Fields}
use ci.Expr.Values.{World}
use ci.Plan.Jobs.{JobPlan}
use ci.Bus.{Route, JobMessage, publish_job}
use ci.Store.Rows.{JobRow, is_pending}
use ci.Store.Tables.{queue_job, is_pending_job}
use ci.Dispatch.Place.{route_for}
use ci.Dispatch.Guard.{should_run}
use ci.Dispatch.Advance.{Env, Sched, needs_met, enqueue, decide, advance_job, message_for}

pub Result-cases :
    {E A : Type 0} (r : Result E A) → ((e : E) × (r ≡ err e)) ⊎ ((a : A) × (r ≡ ok a))
Result-cases (ok a) = inr (a, refl)
Result-cases (err e) = inl (e, refl)

module _ (w : World) (env : Env (w.numerics.F64)) where
  open w use {Number, F64}

  -- Why a message for a job was published.
  pub data Published (run_id : Text) (terminal : List (Text × Bool)) (needs : Fields Number)
      (ci : Value Number) (job : JobRow Number) (s : Sched Number)
      : List (Route × JobMessage) → Type 0 where
    nothing : Published run_id terminal needs ci job s s.queue
    one :
        (plan : JobPlan Number) (route : Route)
        → is_pending job.status ≡ true
        → job.plan ≡ some plan
        → needs_met terminal plan.needs ≡ true
        → should_run w plan needs ci ≡ ok true
        → route_for env.pool plan.target plan.fallback ≡ ok route
        → any (is_pending_job job.id) s.db.jobs ≡ true
        → Published run_id terminal needs ci job s
            (s.queue ++ (route, message_for w env run_id job plan) ∷ [])

  enqueue-queue :
      (run_id : Text) (job : JobRow Number) (plan : JobPlan Number) (route : Route)
      (s : Sched Number)
      → ((enqueue w env run_id job plan route s).queue ≡ s.queue)
        ⊎ (((enqueue w env run_id job plan route s).queue
              ≡ s.queue ++ (route, message_for w env run_id job plan) ∷ [])
            × (any (is_pending_job job.id) s.db.jobs ≡ true))
  unfolding enqueue queue_job
  enqueue-queue run_id job plan route s =
      elim (Bool-cases (any (is_pending_job job.id) s.db.jobs)) [
        | inl e ↦
            elim (Result-cases
              (publish_job env.broker env.prefix route (message_for w env run_id job plan))) [
                | inl (x, f) ↦ inl (ground arith)
                | inr (x, f) ↦ inr (ground arith, e)
              ]
        | inr e ↦ inl (ground arith)
      ]

  module _ (run_id : Text) (terminal : List (Text × Bool)) (needs : Fields Number)
      (ci : Value Number) (job : JobRow Number) (s : Sched Number) where
    abbrev Shows : List (Route × JobMessage) → Type 0
    Shows q = Published run_id terminal needs ci job s q

    decide-Published :
        (plan : JobPlan Number)
        → is_pending job.status ≡ true
        → job.plan ≡ some plan
        → needs_met terminal plan.needs ≡ true
        → Shows (decide w env run_id needs ci job plan s).queue
    unfolding decide
    decide-Published plan hp he hn = elim (Result-cases (should_run w plan needs ci)) [
      | inl (x, e) ↦ subst Shows (ground arith) nothing
      | inr (false, e) ↦ subst Shows (ground arith) nothing
      | inr (true, e) ↦ elim (Result-cases (route_for env.pool plan.target plan.fallback)) [
        | inl (x, f) ↦ subst Shows (ground arith) nothing
        | inr (route, f) ↦ elim (enqueue-queue run_id job plan route s) [
          | inl g ↦ subst Shows (ground arith) nothing
          | inr (g, t) ↦ subst Shows (ground arith) (one plan route hp he hn e f t)
        ]
      ]
    ]

    -- A turn of the loop publishes nothing, or one message for its job; and then the job was
    -- pending with a plan that reads back, every job that it needs was over, its guard came out
    -- true, the route is where its target places it, and a row of the job was still pending in
    -- the tables as they were when the turn began.
    pub advance_job-Published : Shows (advance_job w env run_id terminal needs ci job s).queue
    unfolding advance_job
    advance_job-Published = elim (Bool-cases (is_pending job.status)) [
      | inr e ↦ subst Shows (ground arith) nothing
      | inl e ↦ elim (Option-cases job.plan) [
        | inl f ↦ subst Shows (ground arith) nothing
        | inr (plan, f) ↦ elim (Bool-cases (needs_met terminal plan.needs)) [
          | inr g ↦ subst Shows (ground arith) nothing
          | inl g ↦ subst Shows (ground arith) (decide-Published plan e f g)
        ]
      ]
    ]
