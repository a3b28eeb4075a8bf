-- ===== src/Examples/Tables.antt =====
-- Statements on the tables at concrete inputs.
use ci.Common.{ℕ, ◌≡◌, inl, In, refl, get_elem?, none, some, codes}
use ci.Store.Status.{JobStatus}
use ci.Store.Rows.{JobRow, Db, job_id}
use ci.Store.Tables.{queue_job, create_run, cancel_run, claim_job, set_job_status}
use ci.Store.Lifecycle.{
  History, AllConsistent, start_here, then_step, create, queue, claim, History-AllConsistent,
}
use ci.Store.Cancel.{Step-keeps-over, set_job_status-cancel_run}
use ci.Examples.Data.{run, plan, built_row, ship_row, empty_db, db}

abbrev claimed_db : Db ℕ
claimed_db =
    (claim_job (codes "r1.build") (codes "hd-1") 1 25
      (queue_job (codes "r1.build") 20 (create_run run plan empty_db)).0).0

past : History empty_db claimed_db
past =
    then_step (then_step (then_step start_here (create run plan)) (queue (codes "r1.build") 20))
      (claim (codes "r1.build") (codes "hd-1") 1 25)

History-AllConsistent_example : AllConsistent claimed_db
History-AllConsistent_example = History-AllConsistent empty_db claimed_db past tt

abbrev queued_db : Db ℕ
queued_db = (queue_job (codes "r1.build") 20 (create_run run plan empty_db)).0

abbrev queued_row : JobRow ℕ
queued_row = record built_row {
  status = JobStatus.queued;
  runner_hd_id = none;
  queued_at = some 20;
  started_at = none;
  finished_at = none;
}

queued_past : History empty_db queued_db
queued_past = then_step (then_step start_here (create run plan)) (queue (codes "r1.build") 20)

there : In queued_row queued_db.jobs
unfolding queue_job create_run job_id
there = inl refl

Step-keeps-over_example :
    get_elem? (claim_job (codes "r1.build") (codes "hd-2") 2 30 db).0.jobs 0 ≡ some built_row
Step-keeps-over_example =
    Step-keeps-over db (claim_job (codes "r1.build") (codes "hd-2") 2 30 db).0
      (claim (codes "r1.build") (codes "hd-2") 2 30) 0 built_row refl refl refl

set_job_status-cancel_run_example :
    get_elem?
      (set_job_status
        (codes "r1.ship")
        JobStatus.success
        none
        45
        (cancel_run (codes "r1") 40 db).0).jobs
      1
    ≡ some (record ship_row {
      status = JobStatus.success;
      error = some (codes "cancelled");
      finished_at = some 45;
    })
set_job_status-cancel_run_example =
    set_job_status-cancel_run (codes "r1") (codes "r1.ship") JobStatus.success none 40 45 1 db
      ship_row refl refl refl refl refl
