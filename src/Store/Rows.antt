-- ===== src/Store/Rows.antt =====
-- The rows of `ci_run` and `ci_job` of src/store.rs and migrations/001_init.sql, the tests on them
-- that the statements make, and `UPDATE … WHERE` on a list of rows.
use ci.Common.{
  ℕ, suc, Bool, true, false, not, ◌&&◌, List, [], ◌∷◌, ◌++◌, Option, none, some, Text, codes,
  text_eq, any, all, is_empty, if◌then◌else◌,
}
use ci.Json.{Value}
use ci.Plan.Jobs.{JobPlan}
use ci.Paths.Changes.{Changes}
use ci.Store.Status.{RunStatus, JobStatus, pending, skipped, run_is_terminal}

pub record Run : Type 0 where
  pub id : Text
  pub workflow_id : Text
  pub repo_url : Text
  pub git_ref : Text
  pub sha : Text
  pub before_sha : Text
  pub changes : Changes
  pub status : RunStatus
  pub error : Option Text
  pub started_at : Option ℕ
  pub finished_at : Option ℕ

-- `plan` is `none` where the stored JSON does not read back as a plan.
pub record JobRow (N : Type 0) : Type 0 where
  pub id : Text
  pub run_id : Text
  pub job_key : Text
  pub base_id : Text
  pub network : Option Text
  pub runner_hd_id : Option Text
  pub fingerprint : Option Text
  pub sandbox_id : Option Text
  pub status : JobStatus
  pub attempt : ℕ
  pub outputs : List (Text × Value N)
  pub plan : Option (JobPlan N)
  pub error : Option Text
  pub queued_at : Option ℕ
  pub started_at : Option ℕ
  pub finished_at : Option ℕ

-- The rows stand in the order in which they were inserted; the `ORDER BY` of a query is not modelled.
pub record Db (N : Type 0) : Type 0 where
  pub runs : List Run
  pub jobs : List (JobRow N)

-- `UPDATE … SET … WHERE …`, and the number of rows that it affects.
module _ {ℓ} {A : Type ℓ} where
  abbrev pub update_where : (A → Bool) → (A → A) → List A → List A
  update_where test change [] = []
  update_where test change (x ∷ xs) = (if test x then change x else x) ∷ update_where test change xs

  abbrev pub count_where : (A → Bool) → List A → ℕ
  count_where test [] = 0
  count_where test (x ∷ xs) = let rest = count_where test xs in if test x then suc rest else rest

abbrev pub coalesce {ℓ} : {A : Type ℓ} → Option A → Option A → Option A
coalesce (some a) b = some a
coalesce none b = b

-- `format!("{run_id}.{job_key}")`.
unfoldable pub job_id : Text → Text → Text
job_id run_id job_key = run_id ++ (b'.' ∷ job_key)

abbrev pub is_run : Text → Run → Bool
is_run id r = text_eq r.id id

abbrev pub is_cancelled : JobStatus → Bool
is_cancelled JobStatus.cancelled = true
is_cancelled _ = false

abbrev pub is_failure : JobStatus → Bool
is_failure JobStatus.failure = true
is_failure _ = false

abbrev pub is_passed : JobStatus → Bool
is_passed JobStatus.success = true
is_passed skipped = true
is_passed _ = false

-- The decision of `roll_up_run`.
unfoldable pub rolled_up : List JobStatus → RunStatus
rolled_up statuses =
    if is_empty statuses
    then RunStatus.success
    else if any is_cancelled statuses
    then RunStatus.cancelled
    else if any is_failure statuses
    then RunStatus.failure
    else if all is_passed statuses
    then RunStatus.success
    else RunStatus.running

abbrev pub is_pending : JobStatus → Bool
is_pending pending = true
is_pending _ = false

abbrev pub is_queued : JobStatus → Bool
is_queued JobStatus.queued = true
is_queued _ = false

abbrev pub stamp_run : RunStatus → Option Text → ℕ → Run → Run
stamp_run status error now r = record r {
  status = status;
  error = coalesce error r.error;
  started_at = elim status [
    | RunStatus.running ↦ coalesce r.started_at (some now)
    | _ ↦ r.started_at
  ];
  finished_at = if run_is_terminal status then some now else r.finished_at;
}

abbrev pub is_open_run : Text → Run → Bool
is_open_run id r = text_eq r.id id && not (run_is_terminal r.status)

abbrev pub stop_run : ℕ → Run → Run
stop_run now r = record r {
  status = RunStatus.cancelled;
  finished_at = some now;
  error = coalesce r.error (some (codes "cancelled"));
}
