-- ===== src/VmPool/Steps.antt =====
-- Any process may issue any statement of src/pool.rs at any time: a call is one statement with its
-- arguments, and a history is a list of calls, each with the clock and the job tables at its time.
use ci.Common.{ℕ, Bool, List, [], ◌∷◌, Text}
use ci.Store.Rows.{Db}
use ci.VmPool.Rows.{Lease, Vm}
use ci.VmPool.{
  claim, begin_build, register, sweep_stale_builds, release, forget, take_one_for_sweep,
  take_failed_for_sweep, take_for_sweep, renew_leases, release_orphans,
}

pub data Call : Type 0 where
  claims : (Text → Bool) → (runner fingerprint job : Text) → Lease → Call
  builds : (job runner fingerprint workflow : Text) → Lease → Call
  registers : (id runner fingerprint workflow job : Text) → Lease → Call
  releases : (id : Text) → Call
  forgets : (id : Text) → Call
  sweeps_builds : List Text → (me : Text) → Call
  sweeps_one : (id : Text) → List Text → Call
  sweeps_failed : (Text → Bool) → List Text → Call
  sweeps : (Text → Bool) → (runners live_fingerprints : List Text) → ℕ → Call
  renews : Lease → Call
  reclaims : List Text → (me : Text) → Call

pub record Event (N : Type 0) : Type 0 where
  pub db : Db N
  pub now : ℕ
  pub call : Call

module _ {N : Type 0} where
  unfoldable pub perform : Db N → ℕ → Call → List Vm → List Vm
  unfolding claim begin_build register sweep_stale_builds release forget take_one_for_sweep
      take_failed_for_sweep take_for_sweep renew_leases release_orphans
  perform db now (claims locked runner fp job lease) vms =
      (claim locked runner fp job lease now vms).0
  perform db now (builds job runner fp wf lease) vms =
      (begin_build job runner fp wf lease now vms).0
  perform db now (registers id runner fp wf job lease) vms =
      register id runner fp wf job lease now vms
  perform db now (releases id) vms = release id now vms
  perform db now (forgets id) vms = forget id vms
  perform db now (sweeps_builds runners me) vms = (sweep_stale_builds runners me now vms).0
  perform db now (sweeps_one id runners) vms = (take_one_for_sweep id runners vms).0
  perform db now (sweeps_failed locked runners) vms =
      (take_failed_for_sweep db locked runners vms).0
  perform db now (sweeps locked runners live idle_for) vms =
      (take_for_sweep locked runners live idle_for now vms).0
  perform db now (renews lease) vms = (renew_leases lease now vms).0
  perform db now (reclaims runners me) vms = (release_orphans db runners me now vms).0

  abbrev pub history : List (Event N) → List Vm → List Vm
  history [] vms = vms
  history (e ∷ es) vms = history es (perform e.db e.now e.call vms)
