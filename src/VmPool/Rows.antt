-- ===== src/VmPool/Rows.antt =====
-- The rows of `ci_vm_pool` (src/pool.rs with migrations/001, 004, 005 and 007), and the tests that
-- the statements make on a row. Times and lease lengths are in seconds.
use ci.Common.{
  ℕ, Bool, true, false, not, ◌&&◌, List, [], ◌∷◌, ◌++◌, Option, none, some, Text, text_eq, ltb, any,
  if◌then◌else◌,
}
use ci.Plan.Order.{member}
use ci.Store.Status.{RunStatus, JobStatus, pending}
use ci.Store.Rows.{Db, update_where}

-- The texts that the column `status` admits.
pub data VmStatus : Type 0 where
  idle claimed building draining : VmStatus

pub record Lease : Type 0 where
  pub instance_id : Text
  pub ttl : ℕ

pub record Vm : Type 0 where
  pub sandbox_id : Text
  pub runner_hd_id : Text
  pub fingerprint : Text
  pub workflow_id : Text
  pub status : VmStatus
  pub claimed_by_job : Option Text
  pub last_job : Option Text
  pub leased_by : Option Text
  pub leased_until : Option ℕ
  pub created_at : ℕ
  pub last_used_at : ℕ

abbrev pub is_vm : Text → Vm → Bool
is_vm id v = text_eq v.sandbox_id id

abbrev pub is_idle : VmStatus → Bool
is_idle idle = true
is_idle _ = false

abbrev pub is_claimed : VmStatus → Bool
is_claimed claimed = true
is_claimed _ = false

abbrev pub is_building : VmStatus → Bool
is_building building = true
is_building _ = false

-- `leased_until IS NULL OR leased_until < now()`, and `leased_by IS DISTINCT FROM $2`.
abbrev pub lease_over : Option ℕ → ℕ → Bool
lease_over none now = true
lease_over (some t) now = ltb t now

abbrev pub is_other : Option Text → Text → Bool
is_other none who = true
is_other (some x) who = not (text_eq x who)

-- `ORDER BY last_used_at DESC LIMIT 1`.
abbrev pub later_of : Vm → Option Vm → Vm
later_of v none = v
later_of v (some w) = if ltb v.last_used_at w.last_used_at then w else v

abbrev pub latest : List Vm → Option Vm
latest [] = none
latest (v ∷ vs) = some (later_of v (latest vs))

-- `INSERT … ON CONFLICT (sandbox_id) DO UPDATE`.
abbrev pub upsert : Vm → (Vm → Vm) → List Vm → List Vm
upsert fresh change vms =
    if any (is_vm fresh.sandbox_id) vms
    then update_where (is_vm fresh.sandbox_id) change vms
    else vms ++ fresh ∷ []

-- `status IN ('pending','queued','running')`.
abbrev pub is_unfinished : JobStatus → Bool
is_unfinished pending = true
is_unfinished JobStatus.queued = true
is_unfinished JobStatus.running = true
is_unfinished _ = false

-- `r.status IN ('failure','cancelled')`.
abbrev pub is_bad_run : RunStatus → Bool
is_bad_run RunStatus.failure = true
is_bad_run RunStatus.cancelled = true
is_bad_run _ = false

module _ {N : Type 0} where
  -- `EXISTS (SELECT 1 FROM ci_job …)` of an unfinished job with the id of the row's holder.
  abbrev pub has_live_job : Db N → Option Text → Bool
  has_live_job db none = false
  has_live_job db (some id) = any (λ j. text_eq j.id id && is_unfinished j.status) db.jobs

  -- The joins with `ci_job` and `ci_run` on the row's last job.
  abbrev pub last_run_failed : Db N → Option Text → Bool
  last_run_failed db none = false
  last_run_failed db (some id) =
      any (λ j. text_eq j.id id && any (λ r. text_eq r.id j.run_id && is_bad_run r.status) db.runs)
        db.jobs

  -- The condition of `release_orphans`.
  abbrev pub is_orphan : Db N → List Text → Text → ℕ → Vm → Bool
  is_orphan db runners me now v =
      is_claimed v.status
      && member v.runner_hd_id runners
      && is_other v.leased_by me
      && elim v.leased_until [ none ↦ not (has_live_job db v.claimed_by_job) | some t ↦ ltb t now ]
