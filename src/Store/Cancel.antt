-- ===== src/Store/Cancel.antt =====
-- What `cancel_run` of src/store.rs does, and what can undo it.
use ci.Common.{
  ℕ, zero, suc, ◌++◌, ◌≡◌, refl, ap, sym, ◌∙◌, inl, inr, Bool, true, false, List, [], ◌∷◌, Option,
  none, some, Text, codes, any, get_elem?, if◌then◌else◌, if-true, if-false, arith, Bool-cases,
}
use mathlib.Core.Option
use mathlib.Core.Path.{subst}
use ci.Store.Lifecycle.{
  Step, create, set_run, roll_up, cancel, claim, note, start, queue, unqueue, settle, outputs,
}
use ci.Store.Status.{JobStatus, job_is_terminal}
use ci.Store.Rows.{Run, JobRow, Db, update_where, is_open_run, stop_run}
use ci.Store.Tables.{
  cancel_run, cancel_job, is_open_job_of, is_open_job, set_job_status, settled, is_job, create_run,
  set_run_status, roll_up_run, claim_job, claimed, start_job, note_job_error, queue_job,
  unqueue_job, noted, started, is_pending_job, is_queued_job, put_on_queue, taken_off_queue,
}

any-open_runs :
    (id : Text) (now : ℕ) (rs : List Run)
    → any (is_open_run id) (update_where (is_open_run id) (stop_run now) rs) ≡ false
any-open_runs id now [] = refl
any-open_runs id now (r ∷ rs) = ground (arith, any-open_runs id now rs)

module _ {A : Type 0} where
  -- A statement leaves a row that it does not match where it was.
  pub get_elem?-update_where :
      (p : A → Bool) (change : A → A) (xs : List A) (i : ℕ) (x : A)
      → get_elem? xs i ≡ some x
      → p x ≡ false
      → get_elem? (update_where p change xs) i ≡ some x
  get_elem?-update_where p change [] i x h n = ground arith
  get_elem?-update_where p change (y ∷ xs) zero x h n =
      let same : y ≡ x = ground arith in let ny : p y ≡ false = ap p same ∙ n in ground arith
  get_elem?-update_where p change (y ∷ xs) (suc i) x h n =
      get_elem?-update_where p change xs i x h n

  get_elem?-append :
      (xs ys : List A) (i : ℕ) (x : A) → get_elem? xs i ≡ some x → get_elem? (xs ++ ys) i ≡ some x
  get_elem?-append [] ys i x h = ground arith
  get_elem?-append (y ∷ xs) ys zero x h = h
  get_elem?-append (y ∷ xs) ys (suc i) x h = get_elem?-append xs ys i x h

module _ {N : Type 0} where
  any-open_jobs :
      (id : Text) (now : ℕ) (js : List (JobRow N))
      → any (is_open_job_of id) (update_where (is_open_job_of id) (cancel_job now) js) ≡ false
  any-open_jobs id now [] = refl
  any-open_jobs id now (j ∷ js) = ground (arith, any-open_jobs id now js)

  -- A cancel that is accepted leaves no job of the run open, and cancelling the run again, at any
  -- later time, is refused and changes nothing.
  cancel_run-closes :
      (id : Text) (now later n : ℕ) (db after : Db N)
      → cancel_run id now db ≡ (after, some n)
      → (any (is_open_job_of id) after.jobs ≡ false) × (cancel_run id later after ≡ (after, none))
  unfolding cancel_run
  cancel_run-closes id now later n db after h = elim (Bool-cases (any (is_open_run id) db.runs)) [
    | inl e ↦
        let js = any-open_jobs id now db.jobs in
        let rs = any-open_runs id now db.runs in
        let same_jobs : update_where (is_open_job_of id) (cancel_job now) db.jobs ≡ after.jobs =
          ground arith in
        let same_runs : update_where (is_open_run id) (stop_run now) db.runs ≡ after.runs =
          ground arith in
        (
          subst (λ x. any (is_open_job_of id) x ≡ false) same_jobs js,
          if-false _ _ _ (subst (λ x. any (is_open_run id) x ≡ false) same_runs rs),
        )
    | inr e ↦ ground arith
  ]

  Elem-branch :
      (b : Bool) (x y : Db N × Option ℕ) (i : ℕ) (j : JobRow N)
      → get_elem? x.0.jobs i ≡ some j
      → get_elem? y.0.jobs i ≡ some j
      → get_elem? (if b then x else y).0.jobs i ≡ some j
  Elem-branch true x y i j h k = h
  Elem-branch false x y i j h k = k

  cancel_run-keeps :
      (id : Text) (now i : ℕ) (db : Db N) (j : JobRow N)
      → get_elem? db.jobs i ≡ some j
      → job_is_terminal j.status ≡ true
      → get_elem? (cancel_run id now db).0.jobs i ≡ some j
  unfolding cancel_run
  cancel_run-keeps id now i db j h t =
      Elem-branch (any (is_open_run id) db.runs) _ _ i j
        (get_elem?-update_where (is_open_job_of id) (cancel_job now) db.jobs i j h (ground arith)) h

  -- The statements that look at a job's status before they write to it: all but the two that
  -- set its final status and its outputs.
  abbrev pub is_guarded : {d e : Db N} → Step d e → Bool
  is_guarded (settle id s e now t) = false
  is_guarded (outputs id o) = false
  is_guarded _ = true

  -- A job that is over stays as it is, column for column, whatever statement comes next, unless it
  -- is the one that sets a job's final status or the one that sets its outputs.
  pub Step-keeps-over :
      (d e : Db N) (step : Step d e) (i : ℕ) (j : JobRow N)
      → is_guarded step ≡ true
      → get_elem? d.jobs i ≡ some j
      → job_is_terminal j.status ≡ true
      → get_elem? e.jobs i ≡ some j
  unfolding create_run set_run_status roll_up_run claim_job note_job_error start_job queue_job
      unqueue_job
  Step-keeps-over d _ (create req plan) i j g h t = get_elem?-append d.jobs _ i j h
  Step-keeps-over d _ (set_run id s e now) i j g h t = h
  Step-keeps-over d _ (roll_up id now) i j g h t = h
  Step-keeps-over d _ (cancel id now) i j g h t = cancel_run-keeps id now i d j h t
  Step-keeps-over d _ (claim id runner attempt now) i j g h t =
      get_elem?-update_where (is_open_job id) (claimed runner attempt now) d.jobs i j h
        (ground arith)
  Step-keeps-over d _ (note id error) i j g h t =
      get_elem?-update_where (is_open_job id) (noted error) d.jobs i j h (ground arith)
  Step-keeps-over d _ (start id runner sandbox fp attempt now) i j g h t =
      get_elem?-update_where (is_open_job id) (started runner sandbox fp attempt now) d.jobs i j h
        (ground arith)
  Step-keeps-over d _ (queue id now) i j g h t =
      get_elem?-update_where (is_pending_job id) (put_on_queue now) d.jobs i j h (ground arith)
  Step-keeps-over d _ (unqueue id) i j g h t =
      get_elem?-update_where (is_queued_job id) (taken_off_queue) d.jobs i j h (ground arith)
  Step-keeps-over d _ (settle id s e now u) i j g h t = ground arith
  Step-keeps-over d _ (outputs id o) i j g h t = ground arith

  set_job_status-at :
      (id : Text) (s : JobStatus) (e : Option Text) (now i : ℕ) (js : List (JobRow N))
      (j : JobRow N)
      → get_elem? js i ≡ some j
      → is_job id j ≡ true
      → get_elem? (update_where (is_job id) (settled s e now) js) i ≡ some (settled s e now j)
  set_job_status-at id s e now i [] j h m = ground arith
  set_job_status-at id s e now zero (x ∷ js) j h m =
      let same : x ≡ j = ground arith in
      subst (λ y. some (if is_job id y then settled s e now y else y) ≡ some (settled s e now j))
        (sym same) (ap some (if-true _ _ _ m))
  set_job_status-at id s e now (suc i) (x ∷ js) j h m = set_job_status-at id s e now i js j h m

  cancelled-at :
      (run_id : Text) (now i : ℕ) (js : List (JobRow N)) (j : JobRow N)
      → get_elem? js i ≡ some j
      → is_open_job_of run_id j ≡ true
      → get_elem? (update_where (is_open_job_of run_id) (cancel_job now) js) i
        ≡ some (cancel_job now j)
  cancelled-at run_id now i [] j h m = ground arith
  cancelled-at run_id now zero (x ∷ js) j h m =
      let same : x ≡ j = ground arith in
      subst
        (λ y.
          some (if is_open_job_of run_id y then cancel_job now y else y) ≡ some (cancel_job now j))
        (sym same) (ap some (if-true _ _ _ m))
  cancelled-at run_id now (suc i) (x ∷ js) j h m = cancelled-at run_id now i js j h m

  cancel_run-at :
      (run_id : Text) (now i : ℕ) (db : Db N) (j : JobRow N)
      → any (is_open_run run_id) db.runs ≡ true
      → get_elem? db.jobs i ≡ some j
      → is_open_job_of run_id j ≡ true
      → get_elem? (cancel_run run_id now db).0.jobs i ≡ some (cancel_job now j)
  unfolding cancel_run
  cancel_run-at run_id now i db j open_run h m =
      ap (λ (r : Db N × Option ℕ). get_elem? r.0.jobs i)
        (if-true (any (is_open_run run_id) db.runs) _ _ open_run)
      ∙ cancelled-at run_id now i db.jobs j h m

  set_job_status-final :
      (s : JobStatus) (e : Option Text) (now later : ℕ) (j : JobRow N)
      → job_is_terminal s ≡ true
      → settled s e later (cancel_job now j) ≡ record j {
        status = s;
        error = some (Option.get_or e (Option.get_or j.error (codes "cancelled")));
        finished_at = some later;
      }
  set_job_status-final s e now later j t = ground (arith, t)

  -- A cancel does not decide the outcome of a job that still runs: if an open job of an open run is
  -- given a final status after the run is cancelled, then its row is the one before the cancel but
  -- for three columns. It has the new status, not the cancelled one; its time is that of the new
  -- status; and its error is the text that comes with the status, or else the text that it had
  -- before the cancel, or else the cancel's own.
  pub set_job_status-cancel_run :
      (run_id id : Text) (s : JobStatus) (e : Option Text) (now later i : ℕ) (db : Db N)
      (j : JobRow N)
      → any (is_open_run run_id) db.runs ≡ true
      → get_elem? db.jobs i ≡ some j
      → is_open_job_of run_id j ≡ true
      → is_job id j ≡ true
      → job_is_terminal s ≡ true
      → get_elem? (set_job_status id s e later (cancel_run run_id now db).0).jobs i
        ≡ some (record j {
          status = s;
          error = some (Option.get_or e (Option.get_or j.error (codes "cancelled")));
          finished_at = some later;
        })
  unfolding set_job_status
  set_job_status-cancel_run run_id id s e now later i db j open_run h mine same t =
      set_job_status-at id s e later i (cancel_run run_id now db).0.jobs (cancel_job now j)
        (cancel_run-at run_id now i db j open_run h mine) same
      ∙ ap some (set_job_status-final s e now later j t)
