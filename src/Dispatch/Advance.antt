-- ===== src/Dispatch/Advance.antt =====
-- The scheduler's passes: `advance_run` and `fail_jobs_waiting_for_a_runner` of src/dispatch.rs.
-- A pass reads the jobs of a run once and then issues one statement after another; what the
-- broker takes is a parameter, and so is the wording of an error. A statement that fails for
-- reasons of the database's own is not modelled.
pub mod Terminal
pub mod Publishing
pub mod Waiting
pub mod Others
use ci.Common.{
  ℕ, ◌+◌, Bool, true, false, not, ◌&&◌, ◌||◌, List, [], ◌∷◌, ◌++◌, Option, none, some, Text, codes,
  text_eq, map, any, all, if◌then◌else◌, Result, ok, err, ◌>>=◌,
}
use mathlib.Core.Option
use ci.Json.{Value, Fields, map_insert, map_get}
use ci.Expr.Values.{World}
use ci.Expr.Lexer.{Stop}
use ci.Plan.Jobs.{JobPlan}
use ci.Bus.{Route, JobMessage, BusError, publish_job}
use ci.Runners.{Pool, locate, is_dispatchable}
use ci.Store.Status.{RunStatus, JobStatus, skipped, job_is_terminal}
use ci.Store.Rows.{Run, JobRow, Db, is_pending}
use ci.Store.Tables.{
  jobs_of, get_run, set_job_status, queue_job, unqueue_job, roll_up_run, jobs_waiting_longer_than,
}
use ci.Dispatch.Place.{DispatchError, route_for}
use ci.Dispatch.Guard.{needs_context, ci_scope, should_run}

-- Why the scheduler fails a job.
pub data Failure (F64 : Type 0) : Type 0 where
  plan_unreadable : Failure F64
  bad_condition : Stop F64 → Failure F64
  unroutable : DispatchError → Failure F64
  nobody_took_it : (where_to : Text) → Failure F64

-- What a pass acts on besides the tables: the snapshot of the hosts, the broker and the texts.
pub record Env (F64 : Type 0) : Type 0 where
  pub pool : Pool
  pub broker : Text → JobMessage → Bool
  pub prefix : Text
  pub message : Failure F64 → Text
  pub now : ℕ

-- The tables, the messages that the broker took, and the job keys of the `skipped` events.
pub record Sched (N : Type 0) : Type 0 where
  pub db : Db N
  pub queue : List (Route × JobMessage)
  pub events : List Text

unfoldable pub needs_met : List (Text × Bool) → List Text → Bool
needs_met terminal needs = all (λ n. Option.get_or (map_get n terminal) false) needs

module _ {N : Type 0} where
  -- The map `terminal`: whether every cell of a base id is over.
  unfoldable pub note_terminal : List (Text × Bool) → JobRow N → List (Text × Bool)
  note_terminal m j =
      let over = job_is_terminal j.status in
      map_insert j.base_id (elim (map_get j.base_id m) [ none ↦ over | some t ↦ t && over ]) m

  unfoldable pub note_terminals : List (Text × Bool) → List (JobRow N) → List (Text × Bool)
  unfolding note_terminal
  note_terminals m [] = m
  note_terminals m (j ∷ js) = note_terminals (note_terminal m j) js

module _ (w : World) (env : Env (w.numerics.F64)) where
  open w use {Number, F64}

  abbrev pub fail_job : Text → Failure F64 → Sched Number → Sched Number
  fail_job id f s = record s {
    db = set_job_status id JobStatus.failure (some (env.message f)) env.now s.db;
  }

  abbrev pub skip_job : Text → Text → Sched Number → Sched Number
  skip_job id key s = record s {
    db = set_job_status id skipped none env.now s.db;
    events = s.events ++ key ∷ [];
  }

  abbrev pub message_for : Text → JobRow Number → JobPlan Number → JobMessage
  message_for run_id job plan = record { run_id = run_id; job_id = job.id; job_key = plan.key }

  -- `queue_job`, then the broker, then `unqueue_job` if the broker refused.
  unfoldable pub enqueue :
      Text → JobRow Number → JobPlan Number → Route → Sched Number → Sched Number
  enqueue run_id job plan route s =
      let (db, taken) = queue_job job.id env.now s.db in
      let msg = message_for run_id job plan in
      if taken
      then elim (publish_job env.broker env.prefix route msg) [
        | ok done ↦ record s { db = db; queue = s.queue ++ (route, msg) ∷ [] }
        | err e ↦ record s { db = (unqueue_job job.id db).0 }
      ]
      else record s { db = db }

  -- A job whose needs are all over: its guard, its route, its queue.
  unfoldable pub decide :
      Text
      → Fields Number
      → Value Number
      → JobRow Number
      → JobPlan Number
      → Sched Number
      → Sched Number
  unfolding enqueue
  decide run_id needs ci job plan s = elim (should_run w plan needs ci) [
    | err e ↦ fail_job job.id (bad_condition e) s
    | ok run ↦
        if run
        then elim (route_for env.pool plan.target plan.fallback) [
          | err e ↦ fail_job job.id (unroutable e) s
          | ok route ↦ enqueue run_id job plan route s
        ]
        else skip_job job.id plan.key s
  ]

  -- One turn of the loop of `advance_run`.
  unfoldable pub advance_job :
      Text
      → List (Text × Bool)
      → Fields Number
      → Value Number
      → JobRow Number
      → Sched Number
      → Sched Number
  unfolding decide
  advance_job run_id terminal needs ci job s =
      if is_pending job.status
      then elim job.plan [
        | none ↦ fail_job job.id plan_unreadable s
        | some plan ↦ if needs_met terminal plan.needs then decide run_id needs ci job plan s else s
      ]
      else s

  unfoldable pub advance_jobs :
      Text
      → List (Text × Bool)
      → Fields Number
      → Value Number
      → List (JobRow Number)
      → Sched Number
      → Sched Number
  unfolding advance_job
  advance_jobs run_id terminal needs ci [] s = s
  advance_jobs run_id terminal needs ci (j ∷ js) s =
      advance_jobs run_id terminal needs ci js (advance_job run_id terminal needs ci j s)

  unfoldable pub advance_run : Text → Sched Number → Sched Number × RunStatus
  unfolding advance_jobs
  advance_run run_id s =
      let jobs = jobs_of run_id s.db in
      let after =
        advance_jobs run_id (note_terminals [] jobs) (needs_context jobs)
          (ci_scope (get_run run_id s.db)) jobs s in
      let (db, status) = roll_up_run run_id env.now after.db in (record after { db = db }, status)

  -- The check in `fail_jobs_waiting_for_a_runner` that spares a job.
  unfoldable pub is_spared : JobRow Number → Bool
  is_spared job = elim job.runner_hd_id [
    | none ↦ false
    | some id ↦ elim (locate id env.pool) [ none ↦ false | some (n, r) ↦ is_dispatchable r.status ]
  ]

  abbrev waited_for : JobRow Number → Text
  waited_for job = Option.get_or job.runner_hd_id (Option.get_or job.network (codes "its network"))

  unfoldable pub fail_stuck : List (JobRow Number) → Sched Number → Sched Number
  unfolding is_spared advance_run
  fail_stuck [] s = s
  fail_stuck (job ∷ jobs) s = fail_stuck jobs (
      if is_spared job
      then s
      else (advance_run job.run_id (fail_job job.id (nobody_took_it (waited_for job)) s)).0)

  unfoldable pub fail_jobs_waiting_for_a_runner : ℕ → Sched Number → Sched Number
  unfolding fail_stuck
  fail_jobs_waiting_for_a_runner wait s = fail_stuck (jobs_waiting_longer_than wait env.now s.db) s
