-- ===== src/Store/Tables.antt =====
-- The statements of src/store.rs that read and change the rows of `ci_run` and `ci_job`.
-- A statement is atomic, as it is in the database; `now` is the database's clock. The two updates
-- of `cancel_run` and the inserts of `create_run` are taken as one statement each.
use ci.Common.{
  ℕ, ◌+◌, Bool, false, not, ◌&&◌, List, [], ◌∷◌, ◌++◌, Option, none, some, Text, codes, text_eq,
  map, any, keep, find, ltb, if◌then◌else◌,
}
use ci.Json.{Value}
use ci.Plan.Jobs.{JobPlan, Plan}
use ci.Store.Status.{RunStatus, JobStatus, pending, run_is_terminal, job_is_terminal}
use ci.Store.Rows.{
  Run, JobRow, Db, update_where, count_where, coalesce, job_id, is_run, is_cancelled, rolled_up,
  is_pending, is_queued, stamp_run, is_open_run, stop_run,
}

module _ {N : Type 0} where
  abbrev pub is_job : Text → JobRow N → Bool
  is_job id j = text_eq j.id id

  abbrev pub is_open_job : Text → JobRow N → Bool
  is_open_job id j = text_eq j.id id && not (job_is_terminal j.status)

  -- A statement on the jobs that match, and whether there were any.
  abbrev pub job_statement : (JobRow N → Bool) → (JobRow N → JobRow N) → Db N → Db N × Bool
  job_statement test change db =
      (record db { jobs = update_where test change db.jobs }, any test db.jobs)

  -- `create_run`: the rows of one run, all `pending`.
  abbrev pub new_job : Text → JobPlan N → JobRow N
  new_job run_id p = record {
    id = job_id run_id p.key;
    run_id = run_id;
    job_key = p.key;
    base_id = p.base_id;
    network = p.target.network;
    runner_hd_id = none;
    fingerprint = none;
    sandbox_id = none;
    status = pending;
    attempt = 1;
    outputs = [];
    plan = some p;
    error = none;
    queued_at = none;
    started_at = none;
    finished_at = none;
  }

  -- The request's columns that the scheduler reads; the ids are the caller's.
  unfoldable pub create_run : Run → Plan N → Db N → Db N
  create_run req plan db = record db {
    runs =
        db.runs
        ++ record req {
          status = RunStatus.queued;
          error = none;
          started_at = none;
          finished_at = none;
        }
          ∷ [];
    jobs = db.jobs ++ map (new_job req.id) plan.jobs;
  }

  unfoldable pub get_run : Text → Db N → Option Run
  get_run id db = find (is_run id) db.runs

  unfoldable pub set_run_status : Text → RunStatus → Option Text → ℕ → Db N → Db N
  set_run_status id status error now db = record db {
    runs = update_where (is_run id) (stamp_run status error now) db.runs;
  }

  unfoldable pub jobs_of : Text → Db N → List (JobRow N)
  jobs_of run_id db = keep (λ j. text_eq j.run_id run_id) db.jobs

  unfoldable pub get_job : Text → Db N → Option (JobRow N)
  get_job id db = find (is_job id) db.jobs

  unfoldable pub roll_up_run : Text → ℕ → Db N → Db N × RunStatus
  unfolding rolled_up set_run_status jobs_of
  roll_up_run run_id now db =
      let status = rolled_up (map (λ j. j.status) (jobs_of run_id db)) in
      (set_run_status run_id status none now db, status)

  abbrev pub cancel_job : ℕ → JobRow N → JobRow N
  cancel_job now j = record j {
    status = JobStatus.cancelled;
    finished_at = some now;
    error = coalesce j.error (some (codes "cancelled"));
  }

  abbrev pub is_open_job_of : Text → JobRow N → Bool
  is_open_job_of run_id j = text_eq j.run_id run_id && not (job_is_terminal j.status)

  unfoldable pub cancel_run : Text → ℕ → Db N → Db N × Option ℕ
  cancel_run run_id now db =
      if any (is_open_run run_id) db.runs
      then (
        record db {
          runs = update_where (is_open_run run_id) (stop_run now) db.runs;
          jobs = update_where (is_open_job_of run_id) (cancel_job now) db.jobs;
        },
        some (count_where (is_open_job_of run_id) db.jobs),
      )
      else (db, none)

  unfoldable pub is_job_cancelled : Text → Db N → Bool
  unfolding get_job
  is_job_cancelled id db = elim (get_job id db) [ none ↦ false | some j ↦ is_cancelled j.status ]

  abbrev pub claimed : Text → ℕ → ℕ → JobRow N → JobRow N
  claimed runner attempt now j = record j {
    status = JobStatus.running;
    runner_hd_id = some runner;
    attempt = attempt;
    started_at = coalesce j.started_at (some now);
  }

  unfoldable pub claim_job : Text → Text → ℕ → ℕ → Db N → Db N × Bool
  claim_job id runner attempt now = job_statement (is_open_job id) (claimed runner attempt now)

  abbrev pub noted : Text → JobRow N → JobRow N
  noted error j = record j { error = some error }

  unfoldable pub note_job_error : Text → Text → Db N → Db N × Bool
  note_job_error id error = job_statement (is_open_job id) (noted error)

  abbrev pub started : Text → Text → Text → ℕ → ℕ → JobRow N → JobRow N
  started runner sandbox fingerprint attempt now j = record j {
    status = JobStatus.running;
    runner_hd_id = some runner;
    sandbox_id = some sandbox;
    fingerprint = some fingerprint;
    attempt = attempt;
    started_at = coalesce j.started_at (some now);
  }

  unfoldable pub start_job : Text → Text → Text → Text → ℕ → ℕ → Db N → Db N × Bool
  start_job id runner sandbox fingerprint attempt now =
      job_statement (is_open_job id) (started runner sandbox fingerprint attempt now)

  abbrev pub is_pending_job : Text → JobRow N → Bool
  is_pending_job id j = text_eq j.id id && is_pending j.status

  abbrev pub is_queued_job : Text → JobRow N → Bool
  is_queued_job id j = text_eq j.id id && is_queued j.status

  abbrev pub put_on_queue : ℕ → JobRow N → JobRow N
  put_on_queue now j = record j { status = JobStatus.queued; queued_at = some now }

  unfoldable pub queue_job : Text → ℕ → Db N → Db N × Bool
  queue_job id now = job_statement (is_pending_job id) (put_on_queue now)

  abbrev pub taken_off_queue : JobRow N → JobRow N
  taken_off_queue j = record j { status = pending; queued_at = none }

  unfoldable pub unqueue_job : Text → Db N → Db N × Bool
  unqueue_job id = job_statement (is_queued_job id) taken_off_queue

  abbrev pub settled : JobStatus → Option Text → ℕ → JobRow N → JobRow N
  settled status error now j = record j {
    status = status;
    error = coalesce error j.error;
    finished_at = if job_is_terminal status then some now else j.finished_at;
  }

  unfoldable pub set_job_status : Text → JobStatus → Option Text → ℕ → Db N → Db N
  set_job_status id status error now db = record db {
    jobs = update_where (is_job id) (settled status error now) db.jobs;
  }

  abbrev pub with_outputs : List (Text × Value N) → JobRow N → JobRow N
  with_outputs outputs j = record j { outputs = outputs }

  unfoldable pub set_job_outputs : Text → List (Text × Value N) → Db N → Db N
  set_job_outputs id outputs db = record db {
    jobs = update_where (is_job id) (with_outputs outputs) db.jobs;
  }

  -- `jobs_waiting_longer_than`: of runs that are not over, the jobs queued before `now - wait`.
  abbrev is_stuck : ℕ → ℕ → Db N → JobRow N → Bool
  is_stuck wait now db j =
      is_queued j.status
      && elim j.queued_at [ none ↦ false | some t ↦ ltb (t + wait) now ]
      && any (is_open_run j.run_id) db.runs

  unfoldable pub jobs_waiting_longer_than : ℕ → ℕ → Db N → List (JobRow N)
  jobs_waiting_longer_than wait now db = keep (is_stuck wait now db) db.jobs

  -- `runs_with_pending_jobs`.
  unfoldable pub runs_with_pending_jobs : Db N → List Run
  runs_with_pending_jobs db =
      keep
        (λ r.
          not (run_is_terminal r.status)
          && any (λ j. text_eq j.run_id r.id && is_pending j.status) db.jobs)
        db.runs
