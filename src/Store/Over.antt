-- ===== src/Store/Over.antt =====
-- Whether a job is over, and that no statement of src/store.rs changes that or removes the job.
use ci.Common.{
  ℕ, ◌≡◌, refl, Bool, true, false, List, [], ◌∷◌, ◌++◌, Option, none, some, Text, any, find,
  if_cases, arith,
}
use ci.Json.{Value}
use ci.Store.Status.{JobStatus, job_is_terminal}
use ci.Store.Rows.{JobRow, Db, update_where, is_open_run}
use ci.Store.Lifecycle.{
  Step, History, start_here, then_step, create, set_run, roll_up, cancel, claim, note, start, queue,
  unqueue, settle, outputs,
}
use ci.Store.Tables.{
  is_job, is_open_job, is_open_job_of, is_pending_job, is_queued_job, cancel_job, claimed, started,
  noted, put_on_queue, taken_off_queue, settled, with_outputs, create_run, set_run_status,
  roll_up_run, cancel_run, claim_job, note_job_error, start_job, queue_job, unqueue_job,
  set_job_status, set_job_outputs,
}

module _ {N : Type 0} where
  -- There is a job of this id, and it is over.
  abbrev pub row_over : Option (JobRow N) → Bool
  row_over none = false
  row_over (some j) = job_is_terminal j.status

  abbrev pub is_over : Text → Db N → Bool
  is_over id db = row_over (find (is_job id) db.jobs)

  abbrev pub has_job : Text → Db N → Bool
  has_job id db = any (is_job id) db.jobs

  -- A change of rows that keeps their ids and opens none.
  abbrev Closes : (JobRow N → Bool) → (JobRow N → JobRow N) → Type 0
  Closes test change =
      (j : JobRow N)
      → test j ≡ true
      → ((change j).id ≡ j.id)
        × (job_is_terminal j.status ≡ true → job_is_terminal (change j).status ≡ true)

  update_where-over :
      (id : Text) (test : JobRow N → Bool) (change : JobRow N → JobRow N)
      → Closes test change
      → (js : List (JobRow N)) → row_over (find (is_job id) js) ≡ true
      → row_over (find (is_job id) (update_where test change js)) ≡ true
  update_where-over id test change k [] h = h
  update_where-over id test change k (j ∷ js) h =
      ground (arith, k j, update_where-over id test change k js)

  update_where-has :
      (id : Text) (test : JobRow N → Bool) (change : JobRow N → JobRow N)
      → Closes test change
      → (js : List (JobRow N)) → any (is_job id) js ≡ true
      → any (is_job id) (update_where test change js) ≡ true
  update_where-has id test change k [] h = h
  update_where-has id test change k (j ∷ js) h =
      ground (arith, k j, update_where-has id test change k js)

  append-over :
      (id : Text) (js more : List (JobRow N))
      → row_over (find (is_job id) js) ≡ true
      → row_over (find (is_job id) (js ++ more)) ≡ true
  append-over id [] more h = cc
  append-over id (j ∷ js) more h = ground (arith, append-over id js more)

  append-has :
      (id : Text) (js more : List (JobRow N))
      → any (is_job id) js ≡ true
      → any (is_job id) (js ++ more) ≡ true
  append-has id [] more h = cc
  append-has id (j ∷ js) more h = ground (arith, append-has id js more)

  -- A job that is there and is not open is over.
  pub closed-over :
      (id : Text) (js : List (JobRow N))
      → any (is_job id) js ≡ true
      → any (is_open_job id) js ≡ false
      → row_over (find (is_job id) js) ≡ true
  closed-over id [] h k = cc
  closed-over id (j ∷ js) h k = ground (arith, closed-over id js)

  -- A final status ends the job.
  pub settled-over :
      (id : Text) (s : JobStatus) (e : Option Text) (now : ℕ) (js : List (JobRow N))
      → job_is_terminal s ≡ true
      → any (is_job id) js ≡ true
      → row_over (find (is_job id) (update_where (is_job id) (settled s e now) js)) ≡ true
  settled-over id s e now [] t h = cc
  settled-over id s e now (j ∷ js) t h = ground (arith, settled-over id s e now js t)

  has-over :
      (id : Text) (js : List (JobRow N))
      → row_over (find (is_job id) js) ≡ true
      → any (is_job id) js ≡ true
  has-over id [] h = cc
  has-over id (j ∷ js) h = ground (arith, has-over id js)

  pub is_over-has_job : (id : Text) (db : Db N) → is_over id db ≡ true → has_job id db ≡ true
  is_over-has_job id db h = has-over id db.jobs h

  cancel_run-over :
      (id : Text) (run : Text) (now : ℕ) (db : Db N)
      → is_over id db ≡ true
      → is_over id (cancel_run run now db).0 ≡ true
  unfolding cancel_run
  cancel_run-over id run now db h =
      if_cases (λ (r : Db N × Option ℕ). is_over id r.0 ≡ true) (any (is_open_run run) db.runs) _ _
        (λ e.
          update_where-over id (is_open_job_of run) (cancel_job now) (λ j t. (refl, λ o. refl))
            db.jobs h)
        (λ e. h)

  cancel_run-has :
      (id : Text) (run : Text) (now : ℕ) (db : Db N)
      → has_job id db ≡ true
      → has_job id (cancel_run run now db).0 ≡ true
  unfolding cancel_run
  cancel_run-has id run now db h =
      if_cases (λ (r : Db N × Option ℕ). has_job id r.0 ≡ true) (any (is_open_run run) db.runs) _ _
        (λ e.
          update_where-has id (is_open_job_of run) (cancel_job now) (λ j t. (refl, λ o. refl))
            db.jobs h)
        (λ e. h)

  -- What a statement does to the rows that it matches.
  claimed-Closes : (id r : Text) (n now : ℕ) → Closes (is_open_job id) (claimed r n now)
  claimed-Closes id r n now j t = (refl, λ o. ground arith)

  started-Closes : (id r s f : Text) (n now : ℕ) → Closes (is_open_job id) (started r s f n now)
  started-Closes id r s f n now j t = (refl, λ o. ground arith)

  noted-Closes : (id e : Text) → Closes (is_open_job id) (noted e)
  noted-Closes id e j t = (refl, λ o. o)

  queued-Closes : (id : Text) (now : ℕ) → Closes (is_pending_job id) (put_on_queue now)
  queued-Closes id now j t = (refl, λ o. ground arith)

  unqueued-Closes : (id : Text) → Closes (is_queued_job id) taken_off_queue
  unqueued-Closes id j t = (refl, λ o. ground arith)

  settled-Closes :
      (id : Text) (s : JobStatus) (e : Option Text) (now : ℕ)
      → job_is_terminal s ≡ true
      → Closes (is_job id) (settled s e now)
  settled-Closes id s e now f j t = (refl, λ o. f)

  outputs-Closes : (id : Text) (o : List (Text × Value N)) → Closes (is_job id) (with_outputs o)
  outputs-Closes id o j t = (refl, λ q. q)

  -- A job that is over stays over, whatever statement comes next.
  pub Step-is_over : (id : Text) (d e : Db N) → Step d e → is_over id d ≡ true → is_over id e ≡ true
  unfolding create_run set_run_status roll_up_run claim_job note_job_error start_job queue_job
      unqueue_job set_job_status set_job_outputs
  Step-is_over id d _ (create req plan) h = append-over id d.jobs _ h
  Step-is_over id d _ (set_run r s e now) h = h
  Step-is_over id d _ (roll_up r now) h = h
  Step-is_over id d _ (cancel r now) h = cancel_run-over id r now d h
  Step-is_over id d _ (claim i r n now) h =
      update_where-over id _ _ (claimed-Closes i r n now) d.jobs h
  Step-is_over id d _ (note i e) h = update_where-over id _ _ (noted-Closes i e) d.jobs h
  Step-is_over id d _ (start i r s f n now) h =
      update_where-over id _ _ (started-Closes i r s f n now) d.jobs h
  Step-is_over id d _ (queue i now) h = update_where-over id _ _ (queued-Closes i now) d.jobs h
  Step-is_over id d _ (unqueue i) h = update_where-over id _ _ (unqueued-Closes i) d.jobs h
  Step-is_over id d _ (settle i s e now t) h =
      update_where-over id _ _ (settled-Closes i s e now t) d.jobs h
  Step-is_over id d _ (outputs i o) h = update_where-over id _ _ (outputs-Closes i o) d.jobs h

  pub Step-has_job : (id : Text) (d e : Db N) → Step d e → has_job id d ≡ true → has_job id e ≡ true
  unfolding create_run set_run_status roll_up_run claim_job note_job_error start_job queue_job
      unqueue_job set_job_status set_job_outputs
  Step-has_job id d _ (create req plan) h = append-has id d.jobs _ h
  Step-has_job id d _ (set_run r s e now) h = h
  Step-has_job id d _ (roll_up r now) h = h
  Step-has_job id d _ (cancel r now) h = cancel_run-has id r now d h
  Step-has_job id d _ (claim i r n now) h =
      update_where-has id _ _ (claimed-Closes i r n now) d.jobs h
  Step-has_job id d _ (note i e) h = update_where-has id _ _ (noted-Closes i e) d.jobs h
  Step-has_job id d _ (start i r s f n now) h =
      update_where-has id _ _ (started-Closes i r s f n now) d.jobs h
  Step-has_job id d _ (queue i now) h = update_where-has id _ _ (queued-Closes i now) d.jobs h
  Step-has_job id d _ (unqueue i) h = update_where-has id _ _ (unqueued-Closes i) d.jobs h
  Step-has_job id d _ (settle i s e now t) h =
      update_where-has id _ _ (settled-Closes i s e now t) d.jobs h
  Step-has_job id d _ (outputs i o) h = update_where-has id _ _ (outputs-Closes i o) d.jobs h

  pub History-is_over :
      (id : Text) (d e : Db N) → History d e → is_over id d ≡ true → is_over id e ≡ true
  History-is_over id d _ start_here h = h
  History-is_over id d e (then_step {d = m} past step) h =
      Step-is_over id m e step (History-is_over id d m past h)

  pub History-has_job :
      (id : Text) (d e : Db N) → History d e → has_job id d ≡ true → has_job id e ≡ true
  History-has_job id d _ start_here h = h
  History-has_job id d e (then_step {d = m} past step) h =
      Step-has_job id m e step (History-has_job id d m past h)
