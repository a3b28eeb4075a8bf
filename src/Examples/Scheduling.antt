-- ===== src/Examples/Scheduling.antt =====
-- Passes of the scheduler and orders of a plan at concrete inputs.
use ci.Common.{
  get_elem?, List, ℕ, ◌≡◌, ◌≢◌, refl, In, inl, true, false, [], ◌∷◌, none, some, codes, ok, err,
}
use mathlib.Core.List.{Perm}
use mathlib.Core.List.Perm
use ci.Plan.Jobs.{JobPlan}
use ci.Plan.Order.Complete.{topological_order_complete}
use ci.Json.{end, object}
use ci.Bus.{to_network, refused, publish_job, subject_for}
use ci.Store.Status.{JobStatus}
use ci.Store.Rows.{JobRow, Db, job_id}
use ci.Store.Tables.{queue_job, create_run, jobs_waiting_longer_than}
use ci.Store.Lifecycle.{History, start_here, then_step, create, queue, AllConsistent}
use ci.Dispatch.Guard.{needs_context}
use ci.Dispatch.Advance.{advance_job, enqueue, message_for, note_terminals, is_spared}
use ci.Dispatch.Advance.Others.{advance_job-Holds}
use ci.Dispatch.Advance.Publishing.{Published, advance_job-Published}
use ci.Dispatch.Advance.Waiting.{enqueue-refused, is_spared-waiting}
use ci.Plan.Order.{topological_order, order_loop, out_of_fuel}
use ci.Plan.Order.Waves.{NeedsFirst, topological_order-Perm, topological_order-ne-out_of_fuel}
use ci.Examples.Data.{
  world, build, ship, run, plan, built_row, ship_row, empty_db, db, env_with, sched,
}

advance_job-Published_example :
    Published world
      (env_with true)
      (codes "r1")
      (note_terminals [] db.jobs)
      (needs_context db.jobs)
      (object end)
      ship_row
      sched
      (advance_job world
        (env_with true)
        (codes "r1")
        (note_terminals [] db.jobs)
        (needs_context db.jobs)
        (object end)
        ship_row
        sched).queue
advance_job-Published_example =
    advance_job-Published world (env_with true) (codes "r1") (note_terminals [] db.jobs)
      (needs_context db.jobs) (object end) ship_row sched

db_fits : AllConsistent db
db_fits = (refl, ((refl, refl, refl, refl, refl), tt))

broker_refuses :
    publish_job
      (λ subject message. false)
      (codes "ci")
      (to_network (codes "net-1"))
      (message_for world (env_with false) (codes "r1") ship_row ship)
    ≡ err (refused (codes "ci.job.n.net-1"))
unfolding publish_job subject_for
broker_refuses = refl

enqueue-refused_example :
    enqueue world (env_with false) (codes "r1") ship_row ship (to_network (codes "net-1")) sched
    ≡ sched
enqueue-refused_example =
    enqueue-refused world (env_with false) (codes "r1") ship_row ship (to_network (codes "net-1"))
      sched (refused (codes "ci.job.n.net-1")) db_fits refl broker_refuses refl

-- A run is created and its first job is queued, and nothing takes it.
abbrev queued_db : Db ℕ
queued_db = (queue_job (codes "r1.build") 20 (create_run run plan empty_db)).0

abbrev queued_row : JobRow ℕ
queued_row = record built_row {
  status = JobStatus.queued;
  runner_hd_id = none;
  queued_at = some 20;
  started_at = none;
  finished_at = none;
}

queued_past : History empty_db queued_db
queued_past = then_step (then_step start_here (create run plan)) (queue (codes "r1.build") 20)

queued_found : In queued_row (jobs_waiting_longer_than 600 1000 queued_db)
unfolding jobs_waiting_longer_than queue_job create_run job_id
queued_found = inl refl

is_spared-waiting_example : is_spared world (env_with true) queued_row ≡ false
is_spared-waiting_example =
    is_spared-waiting world (env_with true) 600 1000 queued_db queued_past queued_row queued_found

topological_order-ne-out_of_fuel_example : topological_order (ship ∷ build ∷ []) ≢ err out_of_fuel
topological_order-ne-out_of_fuel_example = topological_order-ne-out_of_fuel (ship ∷ build ∷ [])

ordered : topological_order (ship ∷ build ∷ []) ≡ ok (build ∷ ship ∷ [])
unfolding topological_order order_loop
ordered = refl

topological_order-Perm_example :
    Perm (build ∷ ship ∷ []) (ship ∷ build ∷ []) × NeedsFirst [] (build ∷ ship ∷ [])
topological_order-Perm_example =
    topological_order-Perm (ship ∷ build ∷ []) (build ∷ ship ∷ []) ordered

topological_order_complete_example :
    (out : List (JobPlan ℕ)) × (topological_order (ship ∷ build ∷ []) ≡ ok out)
topological_order_complete_example =
    topological_order_complete (ship ∷ build ∷ []) (build ∷ ship ∷ []) (Perm.swap ship build [])
      (refl, (refl, tt))

advance_job-Holds_example :
    get_elem?
      (advance_job world
        (env_with true)
        (codes "r1")
        (note_terminals [] db.jobs)
        (needs_context db.jobs)
        (object end)
        ship_row
        sched).db.jobs
      0
    ≡ some built_row
advance_job-Holds_example =
    advance_job-Holds world (env_with true) (codes "r1") ship_row built_row 0 refl
      (note_terminals [] db.jobs) (needs_context db.jobs) (object end) sched refl
