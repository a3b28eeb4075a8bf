-- ===== src/Dispatch/Advance/Waiting.antt =====
-- Jobs that wait: a publish that is refused, two passes at once, and the reaper.
use ci.Common.{
  ℕ, ◌≡◌, refl, ap, ◌∙◌, inl, inr, true, false, List, [], ◌∷◌, none, Text, any, err, arith,
  Bool-cases, All, In,
}
use ci.Expr.Values.{World}
use ci.Plan.Jobs.{JobPlan}
use ci.Bus.{Route, BusError, publish_job}
use ci.Store.Status.{pending}
use ci.Store.Rows.{JobRow, Db, update_where}
use ci.Store.Tables.{
  queue_job, unqueue_job, is_pending_job, is_queued_job, put_on_queue, taken_off_queue,
  jobs_waiting_longer_than,
}
use ci.Store.Lifecycle.{IsConsistent, AllConsistent, History, queued-has-no-runner}
use ci.Dispatch.Agreement.{keep-In}
use ci.Dispatch.Advance.{Env, Sched, enqueue, message_for, is_spared}

module _ {N : Type 0} where
  any-queued :
      (id : Text) (now : ℕ) (js : List (JobRow N))
      → any (is_pending_job id) (update_where (is_pending_job id) (put_on_queue now) js) ≡ false
  any-queued id now [] = refl
  any-queued id now (j ∷ js) = ground (arith, any-queued id now js)

  -- Of two passes that queue the same job one after the other, the second gets no row.
  pub queue_job-once :
      (id : Text) (now later : ℕ) (db : Db N)
      → (queue_job id later (queue_job id now db).0).1 ≡ false
  unfolding queue_job
  queue_job-once id now later db = any-queued id now db.jobs

  row-restored :
      (id : Text) (now : ℕ) (j : JobRow N)
      → IsConsistent j
      → is_pending_job id j ≡ true
      → taken_off_queue (put_on_queue now j) ≡ j
  row-restored id now j h e =
      let st : pending ≡ j.status = ground arith in
      let at : none ≡ j.queued_at = ground arith in
      λ i. record j { status = st i; queued_at = at i }

  rows-restored :
      (id : Text) (now : ℕ) (js : List (JobRow N))
      → All IsConsistent js
      → any (is_queued_job id) js ≡ false
      → update_where
          (is_queued_job id)
          taken_off_queue
          (update_where (is_pending_job id) (put_on_queue now) js)
        ≡ js
  rows-restored id now [] h q = refl
  rows-restored id now (j ∷ js) h q = elim (Bool-cases (is_pending_job id j)) [
    | inl e ↦
        let ih = rows-restored id now js h.1 (ground arith) in
        let row = row-restored id now j h.0 e in ground arith
    | inr e ↦ let ih = rows-restored id now js h.1 (ground arith) in ground arith
  ]

  -- Returning a job to `pending` right after it was queued gives the tables back as they were,
  -- when the columns of every job fit its status and no row with the job's id was queued before.
  pub unqueue_job-queue_job :
      (id : Text) (now : ℕ) (db : Db N)
      → AllConsistent db
      → any (is_queued_job id) db.jobs ≡ false
      → (unqueue_job id (queue_job id now db).0).0 ≡ db
  unfolding unqueue_job queue_job
  unqueue_job-queue_job id now db h q =
      ap (λ js. record db { jobs = js }) (rows-restored id now db.jobs h q)

module _ (w : World) (env : Env (w.numerics.F64)) where
  open w use {Number, F64}

  -- A publish that is refused leaves the queue and the tables as they were, when the job has a
  -- pending row, the columns of every job fit its status and no row with the job's id was
  -- queued before.
  pub enqueue-refused :
      (run_id : Text) (job : JobRow Number) (plan : JobPlan Number) (route : Route)
      (s : Sched Number) (e : BusError)
      → AllConsistent s.db
      → any (is_queued_job job.id) s.db.jobs ≡ false
      → publish_job env.broker env.prefix route (message_for w env run_id job plan) ≡ err e
      → any (is_pending_job job.id) s.db.jobs ≡ true
      → enqueue w env run_id job plan route s ≡ s
  unfolding enqueue
  enqueue-refused run_id job plan route s e h q refused p =
      let back = unqueue_job-queue_job job.id env.now s.db h q in
      let taken : (queue_job job.id env.now s.db).1 ≡ true = unfold queue_job in p in
      let undone : enqueue w env run_id job plan route s
          ≡ record s { db = (unqueue_job job.id (queue_job job.id env.now s.db).0).0 } =
        ground arith in
      undone ∙ ap (λ d. record s { db = d }) back

  -- In a database that started empty, the check that spares a job from the reaper holds for no
  -- job that the reaper finds waiting, whatever the snapshot says of the hosts.
  pub is_spared-waiting :
      (wait now : ℕ) (db : Db Number)
      → History (record { runs = []; jobs = [] }) db
      → (job : JobRow Number) → In job (jobs_waiting_longer_than wait now db)
      → is_spared w env job ≡ false
  unfolding jobs_waiting_longer_than is_spared
  is_spared-waiting wait now db past job m =
      let found = keep-In _ db.jobs job m in
      let c = queued-has-no-runner db past job found.0 (ground arith) in ground arith
