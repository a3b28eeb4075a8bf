-- ===== src/Dispatch/Advance/Others.antt =====
-- That one turn of the scheduler's loop leaves the rows of other jobs alone.
use ci.Common.{
  ℕ, ◌≡◌, inl, inr, Bool, true, false, List, Option, none, some, Text, text_eq, get_elem?, arith,
  Bool-cases, Option-cases,
}
use ci.Json.{Value, Fields}
use ci.Expr.Values.{World}
use ci.Plan.Jobs.{JobPlan}
use ci.Bus.{Route, publish_job}
use ci.Store.Status.{JobStatus}
use ci.Store.Rows.{JobRow, Db, is_pending}
use ci.Store.Tables.{
  queue_job, unqueue_job, set_job_status, is_pending_job, is_queued_job, is_job, put_on_queue,
  taken_off_queue, settled,
}
use ci.Store.Cancel.{get_elem?-update_where}
use ci.Dispatch.Place.{route_for}
use ci.Dispatch.Guard.{should_run}
use ci.Dispatch.Advance.{
  Env, Sched, needs_met, enqueue, decide, advance_job, message_for, bad_condition, unroutable,
  plan_unreadable,
}
use ci.Dispatch.Advance.Publishing.{Result-cases}

module _ (w : World) (env : Env (w.numerics.F64)) (run_id : Text)
    (job other : JobRow (w.numerics.Number)) (i : ℕ) (apart : text_eq other.id job.id ≡ false) where
  open w use {Number, F64}

  abbrev Holds : Sched Number → Type 0
  Holds s = get_elem? s.db.jobs i ≡ some other

  set-Holds :
      (st : JobStatus) (e : Option Text) (now : ℕ) (db : Db Number)
      → get_elem? db.jobs i ≡ some other
      → get_elem? (set_job_status job.id st e now db).jobs i ≡ some other
  unfolding set_job_status
  set-Holds st e now db h =
      get_elem?-update_where (is_job job.id) (settled st e now) db.jobs i other h apart

  queue-Holds :
      (now : ℕ) (db : Db Number)
      → get_elem? db.jobs i ≡ some other
      → get_elem? (queue_job job.id now db).0.jobs i ≡ some other
  unfolding queue_job
  queue-Holds now db h =
      get_elem?-update_where (is_pending_job job.id) (put_on_queue now) db.jobs i other h
        (ground arith)

  unqueue-Holds :
      (db : Db Number)
      → get_elem? db.jobs i ≡ some other
      → get_elem? (unqueue_job job.id db).0.jobs i ≡ some other
  unfolding unqueue_job
  unqueue-Holds db h =
      get_elem?-update_where (is_queued_job job.id) taken_off_queue db.jobs i other h (ground arith)

  enqueue-Holds :
      (plan : JobPlan Number) (route : Route) (s : Sched Number)
      → Holds s
      → Holds (enqueue w env run_id job plan route s)
  unfolding enqueue
  enqueue-Holds plan route s h =
      let q = queue-Holds env.now s.db h in
      let u = unqueue-Holds (queue_job job.id env.now s.db).0 q in
      elim (Bool-cases (queue_job job.id env.now s.db).1) [
        | inl t ↦
            elim (Result-cases
              (publish_job env.broker env.prefix route (message_for w env run_id job plan))) [
                | inl (x, f) ↦ ground arith
                | inr (x, f) ↦ ground arith
              ]
        | inr t ↦ ground arith
      ]

  decide-Holds :
      (needs : Fields Number) (ci : Value Number) (plan : JobPlan Number) (s : Sched Number)
      → Holds s
      → Holds (decide w env run_id needs ci job plan s)
  unfolding decide
  decide-Holds needs ci plan s h =
      let skip = set-Holds JobStatus.skipped none env.now s.db h in
      elim (Result-cases (should_run w plan needs ci)) [
        | inl (x, e) ↦
            let q =
              set-Holds JobStatus.failure (some (env.message (bad_condition x))) env.now s.db h in
            ground arith
        | inr (false, e) ↦ ground arith
        | inr (true, e) ↦ elim (Result-cases (route_for env.pool plan.target plan.fallback)) [
          | inl (x, f) ↦
              let q =
                set-Holds JobStatus.failure (some (env.message (unroutable x))) env.now s.db h in
              ground arith
          | inr (route, f) ↦ let q = enqueue-Holds plan route s h in ground arith
        ]
      ]

  -- A turn of the loop for one job leaves the row of every job with another id as it was.
  pub advance_job-Holds :
      (terminal : List (Text × Bool)) (needs : Fields Number) (ci : Value Number) (s : Sched Number)
      → get_elem? s.db.jobs i ≡ some other
      → get_elem? (advance_job w env run_id terminal needs ci job s).db.jobs i ≡ some other
  unfolding advance_job
  advance_job-Holds terminal needs ci s h = elim (Bool-cases (is_pending job.status)) [
    | inr e ↦ ground arith
    | inl e ↦ elim (Option-cases job.plan) [
      | inl f ↦
          let q = set-Holds JobStatus.failure (some (env.message plan_unreadable)) env.now s.db h in
          ground arith
      | inr (plan, f) ↦ elim (Bool-cases (needs_met terminal plan.needs)) [
        | inr g ↦ ground arith
        | inl g ↦ let q = decide-Holds needs ci plan s h in ground arith
      ]
    ]
  ]
