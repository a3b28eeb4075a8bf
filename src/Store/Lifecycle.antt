-- ===== src/Store/Lifecycle.antt =====
-- What the statements of src/store.rs can do to a job, in whatever order several processes issue
-- them: a step is one statement, and a history is any sequence of steps.
use ci.Common.{
  ℕ, ◌≡◌, refl, Bool, true, false, List, [], ◌∷◌, Option, none, some, Text, map, any, if◌then◌else◌,
  arith, All, In, inl, inr,
}
use mathlib.Core.Path.{subst}
use ci.Json.{Value}
use ci.Plan.Jobs.{JobPlan, Plan}
use ci.Store.Status.{RunStatus, JobStatus, pending, skipped, job_is_terminal}
use ci.Store.Rows.{Run, JobRow, Db, is_open_run}
use ci.Store.Updates.{All-update_where, All-append}
use ci.Store.Tables.{
  create_run, new_job, set_run_status, roll_up_run, cancel_run, claim_job, note_job_error,
  start_job, queue_job, unqueue_job, set_job_status, set_job_outputs, is_open_job, is_open_job_of,
  cancel_job, is_pending_job, is_queued_job, is_job, claimed, started, noted, put_on_queue,
  taken_off_queue, settled, with_outputs,
}

abbrev pub is_some {ℓ} : {A : Type ℓ} → Option A → Bool
is_some none = false
is_some (some a) = true

module _ {N : Type 0} where
  -- The columns that go with each status.
  abbrev pub ColumnsFit : JobStatus → JobRow N → Type 0
  ColumnsFit pending j =
      (j.runner_hd_id ≡ none)
      × (j.sandbox_id ≡ none)
      × (j.queued_at ≡ none)
      × (j.started_at ≡ none)
      × (j.finished_at ≡ none)
  ColumnsFit JobStatus.queued j =
      (j.runner_hd_id ≡ none)
      × (j.sandbox_id ≡ none)
      × (is_some j.queued_at ≡ true)
      × (j.started_at ≡ none)
      × (j.finished_at ≡ none)
  ColumnsFit JobStatus.running j =
      (is_some j.runner_hd_id ≡ true) × (is_some j.started_at ≡ true) × (j.finished_at ≡ none)
  ColumnsFit JobStatus.success j = is_some j.finished_at ≡ true
  ColumnsFit JobStatus.failure j = is_some j.finished_at ≡ true
  ColumnsFit skipped j = is_some j.finished_at ≡ true
  ColumnsFit JobStatus.cancelled j = is_some j.finished_at ≡ true

  abbrev pub IsConsistent : JobRow N → Type 0
  IsConsistent j = ColumnsFit j.status j

  -- One statement. Every caller of `set_job_status` passes a terminal status.
  pub data Step (db : Db N) : Db N → Type 0 where
    create : (req : Run) (plan : Plan N) → Step db (create_run req plan db)
    set_run :
        (id : Text) (s : RunStatus) (e : Option Text) (now : ℕ)
        → Step db (set_run_status id s e now db)
    roll_up : (id : Text) (now : ℕ) → Step db (roll_up_run id now db).0
    cancel : (id : Text) (now : ℕ) → Step db (cancel_run id now db).0
    claim : (id runner : Text) (attempt now : ℕ) → Step db (claim_job id runner attempt now db).0
    note : (id error : Text) → Step db (note_job_error id error db).0
    start :
        (id runner sandbox fp : Text) (attempt now : ℕ)
        → Step db (start_job id runner sandbox fp attempt now db).0
    queue : (id : Text) (now : ℕ) → Step db (queue_job id now db).0
    unqueue : (id : Text) → Step db (unqueue_job id db).0
    settle :
        (id : Text) (s : JobStatus) (e : Option Text) (now : ℕ)
        → job_is_terminal s ≡ true
        → Step db (set_job_status id s e now db)
    outputs : (id : Text) (o : List (Text × Value N)) → Step db (set_job_outputs id o db)

  pub data History (db : Db N) : Db N → Type 0 where
    start_here : History db db
    then_step : {d e : Db N} → History db d → Step d e → History db e

  abbrev pub AllConsistent : Db N → Type 0
  AllConsistent db = All IsConsistent db.jobs

  claimed-IsConsistent :
      (id runner : Text) (attempt now : ℕ) (j : JobRow N)
      → IsConsistent j
      → is_open_job id j ≡ true
      → IsConsistent (claimed runner attempt now j)
  claimed-IsConsistent id runner attempt now j h e = ground arith

  started-IsConsistent :
      (id runner sandbox fp : Text) (attempt now : ℕ) (j : JobRow N)
      → IsConsistent j
      → is_open_job id j ≡ true
      → IsConsistent (started runner sandbox fp attempt now j)
  started-IsConsistent id runner sandbox fp attempt now j h e = ground arith

  put_on_queue-IsConsistent :
      (id : Text) (now : ℕ) (j : JobRow N)
      → IsConsistent j
      → is_pending_job id j ≡ true
      → IsConsistent (put_on_queue now j)
  put_on_queue-IsConsistent id now j h e = ground arith

  taken_off_queue-IsConsistent :
      (id : Text) (j : JobRow N)
      → IsConsistent j
      → is_queued_job id j ≡ true
      → IsConsistent (taken_off_queue j)
  taken_off_queue-IsConsistent id j h e = ground arith

  settled-IsConsistent :
      (s : JobStatus) (e : Option Text) (now : ℕ) (j : JobRow N)
      → job_is_terminal s ≡ true
      → IsConsistent (settled s e now j)
  settled-IsConsistent s e now j t = ground arith

  cancelled-IsConsistent :
      (run_id : Text) (now : ℕ) (j : JobRow N) → IsConsistent (cancel_job now j)
  cancelled-IsConsistent run_id now j = refl

  noted-IsConsistent : (error : Text) (j : JobRow N) → IsConsistent j → IsConsistent (noted error j)
  noted-IsConsistent error j h = ground arith

  with_outputs-IsConsistent :
      (o : List (Text × Value N)) (j : JobRow N) → IsConsistent j → IsConsistent (with_outputs o j)
  with_outputs-IsConsistent o j h = ground arith

  new_jobs-AllConsistent :
      (id : Text) (ps : List (JobPlan N)) → All IsConsistent (map (new_job id) ps)
  new_jobs-AllConsistent id [] = tt
  new_jobs-AllConsistent id (p ∷ ps) =
      ((refl, refl, refl, refl, refl), new_jobs-AllConsistent id ps)

  AllConsistent-branch :
      (b : Bool) (x y : Db N × Option ℕ)
      → AllConsistent x.0
      → AllConsistent y.0
      → AllConsistent (if b then x else y).0
  AllConsistent-branch true x y h k = h
  AllConsistent-branch false x y h k = k

  cancel_run-AllConsistent :
      (id : Text) (now : ℕ) (db : Db N) → AllConsistent db → AllConsistent (cancel_run id now db).0
  unfolding cancel_run
  cancel_run-AllConsistent id now db h =
      AllConsistent-branch (any (is_open_run id) db.runs) _ _
        (All-update_where IsConsistent (is_open_job_of id) (cancel_job now)
          (λ j c e. cancelled-IsConsistent id now j) db.jobs h)
        h

  -- Every statement keeps the columns of every job in agreement with its status.
  pub Step-AllConsistent : (d e : Db N) → Step d e → AllConsistent d → AllConsistent e
  unfolding create_run set_run_status roll_up_run claim_job note_job_error start_job queue_job
      unqueue_job set_job_status set_job_outputs
  Step-AllConsistent d _ (create req plan) h =
      All-append IsConsistent d.jobs (map (new_job req.id) plan.jobs) h
        (new_jobs-AllConsistent req.id plan.jobs)
  Step-AllConsistent d _ (set_run id s e now) h = h
  Step-AllConsistent d _ (roll_up id now) h = h
  Step-AllConsistent d _ (cancel id now) h = cancel_run-AllConsistent id now d h
  Step-AllConsistent d _ (claim id runner attempt now) h =
      All-update_where IsConsistent (is_open_job id) (claimed runner attempt now)
        (claimed-IsConsistent id runner attempt now) d.jobs h
  Step-AllConsistent d _ (note id error) h =
      All-update_where IsConsistent (is_open_job id) (noted error)
        (λ j c e. noted-IsConsistent error j c) d.jobs h
  Step-AllConsistent d _ (start id runner sandbox fp attempt now) h =
      All-update_where IsConsistent (is_open_job id) (started runner sandbox fp attempt now)
        (started-IsConsistent id runner sandbox fp attempt now) d.jobs h
  Step-AllConsistent d _ (queue id now) h =
      All-update_where IsConsistent (is_pending_job id) (put_on_queue now)
        (put_on_queue-IsConsistent id now) d.jobs h
  Step-AllConsistent d _ (unqueue id) h =
      All-update_where IsConsistent (is_queued_job id) taken_off_queue
        (taken_off_queue-IsConsistent id) d.jobs h
  Step-AllConsistent d _ (settle id s e now t) h =
      All-update_where IsConsistent (is_job id) (settled s e now)
        (λ j c q. settled-IsConsistent s e now j t) d.jobs h
  Step-AllConsistent d _ (outputs id o) h =
      All-update_where IsConsistent (is_job id) (with_outputs o)
        (λ j c q. with_outputs-IsConsistent o j c) d.jobs h

  -- Whatever statements are issued, in whatever order, where `set_job_status` sets a final
  -- status: the columns of every job agree with its status at the end if they did at the
  -- start.
  pub History-AllConsistent : (d e : Db N) → History d e → AllConsistent d → AllConsistent e
  History-AllConsistent d _ start_here h = h
  History-AllConsistent d e (then_step {d = m} past step) h =
      Step-AllConsistent m e step (History-AllConsistent d m past h)

  All-In :
      (P : JobRow N → Type 0) (js : List (JobRow N)) → All P js → (j : JobRow N) → In j js → P j
  All-In P [] h j m = absurd m
  All-In P (x ∷ xs) h j (inl e) = subst P e h.0
  All-In P (x ∷ xs) h j (inr m) = All-In P xs h.1 j m

  -- In a database that started empty, where `set_job_status` sets a final status, a job that
  -- waits on a queue names no runner and has not
  -- begun: `runner_hd_id` and `started_at` are both null.
  pub queued-has-no-runner :
      (e : Db N)
      → History (record { runs = []; jobs = [] }) e
      → (j : JobRow N) → In j e.jobs
      → j.status ≡ JobStatus.queued
      → (j.runner_hd_id ≡ none) × (j.started_at ≡ none)
  queued-has-no-runner e past j m q =
      let c =
        All-In IsConsistent e.jobs
          (History-AllConsistent (record { runs = []; jobs = [] }) e past tt) j m in
      ground arith
