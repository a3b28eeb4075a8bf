-- ===== src/VmPool.antt =====
-- The statements of `Pool` in src/pool.rs on the rows of `ci_vm_pool`. A statement is atomic; `now`
-- is the database's clock. `FOR UPDATE SKIP LOCKED` passes over the rows that other transactions
-- hold: `locked` says which, and is any set. `sandbox_id` is the primary key, so that
-- `sandbox_id IN (SELECT sandbox_id … WHERE test)` is the test itself.
pub mod Rows
pub mod Steps
pub mod Invariant
pub mod Held
pub mod Exclusive
pub mod HolderTable
pub mod Holders
pub mod Recovery
pub mod Fingerprint
use ci.Common.{
  ℕ, ◌+◌, Bool, true, false, not, ◌&&◌, ◌||◌, List, [], ◌∷◌, ◌++◌, Option, none, some, Text, codes,
  text_eq, ltb, any, find, keep, map, is_empty, sort_by, if◌then◌else◌,
}
use ci.Plan.Order.{member}
use ci.Store.Rows.{Run, Db, update_where, count_where, coalesce}
use ci.Store.Status.{RunStatus}
use Rows.{
  VmStatus, idle, claimed, building, draining, Lease, Vm, is_vm, is_idle, is_claimed, is_building,
  lease_over, is_other, latest, upsert, last_run_failed, is_orphan,
}

abbrev pub is_candidate : (Text → Bool) → Text → Text → Vm → Bool
is_candidate locked runner fingerprint v =
    text_eq v.runner_hd_id runner
    && text_eq v.fingerprint fingerprint
    && is_idle v.status
    && not (locked v.sandbox_id)

abbrev pub taken : Text → Lease → ℕ → Vm → Vm
taken job lease now v = record v {
  status = claimed;
  claimed_by_job = some job;
  last_used_at = now;
  last_job = some job;
  leased_by = some lease.instance_id;
  leased_until = some (now + lease.ttl);
}

abbrev pub grant : Text → Lease → ℕ → List Vm → Option Vm → List Vm × Option Text
grant job lease now vms none = (vms, none)
grant job lease now vms (some v) =
    (update_where (is_vm v.sandbox_id) (taken job lease now) vms, some v.sandbox_id)

unfoldable pub claim :
    (Text → Bool) → Text → Text → Text → Lease → ℕ → List Vm → List Vm × Option Text
claim locked runner fingerprint job lease now vms =
    grant job lease now vms (latest (keep (is_candidate locked runner fingerprint) vms))

abbrev pub building_id : Text → Text
building_id job = codes "building-" ++ job

-- The row that `begin_build` and `register` insert.
abbrev pub fresh_row : Text → Text → Text → Text → VmStatus → Text → Lease → ℕ → Vm
fresh_row id runner fingerprint workflow status job lease now = record {
  sandbox_id = id;
  runner_hd_id = runner;
  fingerprint = fingerprint;
  workflow_id = workflow;
  status = status;
  claimed_by_job = some job;
  last_job = some job;
  leased_by = some lease.instance_id;
  leased_until = some (now + lease.ttl);
  created_at = now;
  last_used_at = now;
}

abbrev pub rebuilt : Text → Text → Text → Text → Lease → ℕ → Vm → Vm
rebuilt runner fingerprint workflow job lease now v = record (taken job lease now v) {
  status = building;
  runner_hd_id = runner;
  fingerprint = fingerprint;
  workflow_id = workflow;
}

unfoldable pub begin_build : Text → Text → Text → Text → Lease → ℕ → List Vm → List Vm × Text
begin_build job runner fingerprint workflow lease now vms = (
  upsert (fresh_row (building_id job) runner fingerprint workflow building job lease now)
      (rebuilt runner fingerprint workflow job lease now) vms,
  building_id job,
)

-- A conflict leaves the row's runner, fingerprint and workflow as they were.
unfoldable pub register : Text → Text → Text → Text → Text → Lease → ℕ → List Vm → List Vm
register id runner fingerprint workflow job lease now =
    upsert (fresh_row id runner fingerprint workflow claimed job lease now) (taken job lease now)

abbrev pub is_stale_build : List Text → Text → ℕ → Vm → Bool
is_stale_build runners me now v =
    is_building v.status
    && member v.runner_hd_id runners
    && is_other v.leased_by me
    && lease_over v.leased_until now

unfoldable pub sweep_stale_builds : List Text → Text → ℕ → List Vm → List Vm × ℕ
sweep_stale_builds runners me now vms = if is_empty runners then (vms, 0) else (
  keep (λ v. not (is_stale_build runners me now v)) vms,
  count_where (is_stale_build runners me now) vms,
)

abbrev pub freed : Vm → Vm
freed v = record v { status = idle; claimed_by_job = none; leased_by = none; leased_until = none }

abbrev pub handed_back : ℕ → Vm → Vm
handed_back now v = record (freed v) { last_used_at = now }

unfoldable pub release : Text → ℕ → List Vm → List Vm
release id now = update_where (is_vm id) (handed_back now)

unfoldable pub forget : Text → List Vm → List Vm
forget id = keep (λ v. not (is_vm id v))

-- What the readers return: `PooledVm` and `PooledVmView`.
pub record PooledVm : Type 0 where
  pub sandbox_id : Text
  pub runner_hd_id : Text
  pub fingerprint : Text
  pub workflow_id : Text
  pub status : VmStatus
  pub claimed_by_job : Option Text

unfoldable pub from_row : Vm → PooledVm
from_row v = record {
  sandbox_id = v.sandbox_id;
  runner_hd_id = v.runner_hd_id;
  fingerprint = v.fingerprint;
  workflow_id = v.workflow_id;
  status = v.status;
  claimed_by_job = v.claimed_by_job;
}

abbrev pub map_row {ℓ κ} : {A : Type ℓ} {B : Type κ} → (A → B) → Option A → Option B
map_row f none = none
map_row f (some a) = some (f a)

unfoldable pub get : Text → List Vm → Option PooledVm
unfolding from_row
get id vms = map_row from_row (find (is_vm id) vms)

abbrev newer : Vm → Vm → Bool
newer v w = ltb w.last_used_at v.last_used_at

unfoldable pub on_runner : Text → List Vm → List PooledVm
unfolding from_row
on_runner runner vms = map from_row (sort_by newer (keep (λ v. text_eq v.runner_hd_id runner) vms))

-- `before` is the collation of the database.
unfoldable pub all_vms : (Text → Text → Bool) → List Vm → List PooledVm
unfolding from_row
all_vms before vms = map from_row (sort_by first vms)
  where
    first : Vm → Vm → Bool
    first v w =
        before v.runner_hd_id w.runner_hd_id || text_eq v.runner_hd_id w.runner_hd_id && newer v w

abbrev drained : Vm → Vm
drained v = record v { status = draining }

-- `UPDATE … SET status = 'draining' … RETURNING *`.
abbrev pub drain : (Vm → Bool) → List Vm → List Vm × List PooledVm
unfolding from_row
drain test vms = (update_where test drained vms, map (λ v. from_row (drained v)) (keep test vms))

abbrev pub none_taken : List Vm → List Vm × List PooledVm
none_taken vms = (vms, [])

abbrev pub is_sweepable : Text → List Text → Vm → Bool
is_sweepable id runners v =
    is_vm id v && member v.runner_hd_id runners && not (is_claimed v.status || is_building v.status)

-- `fetch_optional`.
abbrev first_row {ℓ} : {A : Type ℓ} → List A → Option A
first_row [] = none
first_row (a ∷ rows) = some a

unfoldable pub take_one_for_sweep : Text → List Text → List Vm → List Vm × Option PooledVm
take_one_for_sweep id runners vms =
    let (after, rows) = drain (is_sweepable id runners) vms in
    if is_empty runners then (vms, none) else (after, first_row rows)

module _ {N : Type 0} where
  abbrev pub is_failed_idle : Db N → (Text → Bool) → List Text → Vm → Bool
  is_failed_idle db locked runners v =
      is_idle v.status
      && member v.runner_hd_id runners
      && last_run_failed db v.last_job
      && not (locked v.sandbox_id)

  unfoldable pub take_failed_for_sweep :
      Db N → (Text → Bool) → List Text → List Vm → List Vm × List PooledVm
  take_failed_for_sweep db locked runners vms =
      if is_empty runners then none_taken vms else drain (is_failed_idle db locked runners) vms

abbrev pub is_unwanted : (Text → Bool) → List Text → List Text → ℕ → ℕ → Vm → Bool
is_unwanted locked runners live_fingerprints idle_for now v =
    is_idle v.status
    && member v.runner_hd_id runners
    && (not (member v.fingerprint live_fingerprints) || ltb (v.last_used_at + idle_for) now)
    && not (locked v.sandbox_id)

-- `idle_for` is not negative.
unfoldable pub take_for_sweep :
    (Text → Bool) → List Text → List Text → ℕ → ℕ → List Vm → List Vm × List PooledVm
take_for_sweep locked runners live_fingerprints idle_for now vms =
    if is_empty runners
    then none_taken vms
    else drain (is_unwanted locked runners live_fingerprints idle_for now) vms

abbrev pub is_renewed : Text → Vm → Bool
is_renewed me v = not (is_other v.leased_by me) && (is_claimed v.status || is_building v.status)

unfoldable pub renew_leases : Lease → ℕ → List Vm → List Vm × ℕ
renew_leases lease now vms = (
  update_where (is_renewed lease.instance_id)
      (λ v. record v { leased_until = some (now + lease.ttl) }) vms,
  count_where (is_renewed lease.instance_id) vms,
)

unfoldable pub leased_by : Text → List Vm → List (Text × Text)
leased_by me vms =
    map (λ v. (v.sandbox_id, v.runner_hd_id))
      (keep (λ v. not (is_other v.leased_by me) && is_claimed v.status) vms)

-- `PooledVmView`: the row with the run of the job that holds it, or else that used it last.
pub record PooledVmView : Type 0 where
  pub row : Vm
  pub last_run_id : Option Text
  pub last_run_status : Option RunStatus

abbrev view_of : Vm → Option Run → PooledVmView
view_of v none = record { row = v; last_run_id = none; last_run_status = none }
view_of v (some r) = record { row = v; last_run_id = some r.id; last_run_status = some r.status }

module _ {N : Type 0} where
  -- `LEFT JOIN ci_run r ON r.id = j.run_id`, after `LEFT JOIN ci_job j`.
  abbrev run_of : Db N → Option Text → Option Run
  run_of db none = none
  run_of db (some job) = elim (find (λ j. text_eq j.id job) db.jobs) [
    | none ↦ none
    | some j ↦ find (λ r. text_eq r.id j.run_id) db.runs
  ]

  -- `before` is the collation of the database.
  unfoldable pub inventory : (Text → Text → Bool) → Db N → List Text → List Vm → List PooledVmView
  inventory before db runners vms =
      if is_empty runners
      then []
      else map (λ v. view_of v (run_of db (coalesce v.claimed_by_job v.last_job)))
          (sort_by listed_before (keep (λ v. member v.runner_hd_id runners) vms))
    where
      listed_before : Vm → Vm → Bool
      listed_before v w =
          before v.runner_hd_id w.runner_hd_id
          || text_eq v.runner_hd_id w.runner_hd_id
            && (before v.fingerprint w.fingerprint
                || text_eq v.fingerprint w.fingerprint && newer v w)

  unfoldable pub release_orphans : Db N → List Text → Text → ℕ → List Vm → List Vm × ℕ
  release_orphans db runners me now vms = if is_empty runners then (vms, 0) else (
    update_where (is_orphan db runners me now) freed vms,
    count_where (is_orphan db runners me now) vms,
  )
