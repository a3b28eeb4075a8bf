-- ===== src/VmPool/Holders.antt =====
-- What the pool promises of which job holds which machine, and that the statements keep it.
use mathlib.Core.Path.{subst}
use ci.Common.{
  ℕ, ◌≡◌, refl, ap, ◌∙◌, sym, Bool, true, not, List, [], ◌∷◌, Option, none, some, Text, text_eq→eq,
  text_eq_refl, any, find, keep, is_empty, arith, All, Bool-cases, ◌⊎◌, inl, inr,
}
use ci.Store.Rows.{Db}
use ci.Store.Updates.{All-map, All-both, All-keep_tested}
use ci.VmPool.Rows.{claimed, building, Lease, Vm, is_vm, latest, is_orphan}
use ci.VmPool.{
  grant, taken, freed, is_renewed, drain, building_id, fresh_row, rebuilt, handed_back,
  is_stale_build, is_sweepable, is_failed_idle, is_unwanted, is_candidate, claim, begin_build,
  register, sweep_stale_builds, release, forget, take_one_for_sweep, take_failed_for_sweep,
  take_for_sweep, renew_leases, release_orphans,
}
use ci.VmPool.Steps.{
  Call, claims, builds, registers, releases, forgets, sweeps_builds, sweeps_one, sweeps_failed,
  sweeps, renews, reclaims, perform,
}
use ci.VmPool.Invariant.{IsKeyed, IsSound, Inv, unheld-IsFree, idle-unheld, scoped}
use ci.VmPool.Held.{latest-All}
use ci.VmPool.HolderTable.{
  Holders, job_of, holder, Same, Assigns, OnlyFrees, update_where-Same, update_where-OnlyFrees,
  update_id-Assigns, upsert-Assigns, find-none, keep-OnlyFrees, forget-Assigns,
}

-- What each statement may do to the holders.
abbrev pub Meets : Call → Holders → Holders → Type 0
Meets (claims locked runner fp job lease) h h' =
    Same h h' ⊎ ((id : Text) × (h id ≡ none) × Assigns id (some job) h h')
Meets (builds job runner fp wf lease) h h' = Assigns (building_id job) (some job) h h'
Meets (registers id runner fp wf job lease) h h' = Assigns id (some job) h h'
Meets (releases id) h h' = Assigns id none h h'
Meets (forgets id) h h' = Assigns id none h h'
Meets (sweeps_builds runners me) h h' = OnlyFrees h h'
Meets (reclaims runners me) h h' = OnlyFrees h h'
Meets _ h h' = Same h h'

clash : {w : Vm} {o : Option Vm} → o ≡ some w → o ≡ none → ⊥
clash p q = cc

rows-found : (vms : List Vm) → IsKeyed vms → All (λ v. find (is_vm v.sandbox_id) vms ≡ some v) vms
rows-found [] h = tt
rows-found (v ∷ vs) h = (
  ground (arith, text_eq_refl v.sandbox_id),
  All-map (λ w. find (is_vm w.sandbox_id) vs ≡ some w) _ later vs (rows-found vs h.1),
)
  where
    later :
        (w : Vm)
        → find (is_vm w.sandbox_id) vs ≡ some w
        → find (is_vm w.sandbox_id) (v ∷ vs) ≡ some w
    later w f = elim (Bool-cases (is_vm w.sandbox_id v)) [
      | inl e ↦
          let same : v.sandbox_id ≡ w.sandbox_id = text_eq→eq v.sandbox_id w.sandbox_id e in
          absurd (
            clash (subst (λ y. find (is_vm y) vs ≡ some w) (sym same) f)
              (find-none v.sandbox_id vs h.0))
      | inr e ↦ ground arith
    ]

find-any :
    (test : Vm → Bool) (vms : List Vm) (w : Vm) → find test vms ≡ some w → any test vms ≡ true
find-any test [] w h = cc
find-any test (v ∷ vs) w h = elim (Bool-cases (test v)) [
  | inl e ↦ ground arith
  | inr e ↦ ground (arith, find-any test vs w (ground arith))
]

-- What a claim finds is a row without a job.
candidate-free :
    (locked : Text → Bool) (runner fp : Text) (vms : List Vm) (w : Vm)
    → Inv vms
    → latest (keep (is_candidate locked runner fp) vms) ≡ some w
    → (holder vms w.sandbox_id ≡ none) × (any (is_vm w.sandbox_id) vms ≡ true)
candidate-free locked runner fp vms w h e =
    let ((found, sound), candidate) =
      latest-All _ (keep (is_candidate locked runner fp) vms) w
        (All-keep_tested _ (is_candidate locked runner fp) vms (
          All-both (λ v. find (is_vm v.sandbox_id) vms ≡ some v) IsSound vms
            (rows-found vms h.keyed) h.sound))
        e in
    let unheld = unheld-IsFree w.status w sound (idle-unheld w.status (ground arith)) in
    (ap job_of found ∙ unheld.0, find-any (is_vm w.sandbox_id) vms w found)

grant-Meets :
    (job : Text) (lease : Lease) (now : ℕ) (vms : List Vm) (found : Option Vm)
    → ((w : Vm)
        → found ≡ some w
        → (holder vms w.sandbox_id ≡ none) × (any (is_vm w.sandbox_id) vms ≡ true))
    → let h' = holder (grant job lease now vms found).0 in
      Same (holder vms) h'
      ⊎ ((id : Text) × (holder vms id ≡ none) × Assigns id (some job) (holder vms) h')
grant-Meets job lease now vms none free = inl (λ x. refl)
grant-Meets job lease now vms (some w) free =
    let (unheld, present) = free w refl in
    inr (
      w.sandbox_id,
      unheld,
      update_id-Assigns w.sandbox_id (some job) (taken job lease now) (λ v. refl) (λ v. refl) vms
          (inl present),
    )

drain-Same : (test : Vm → Bool) (vms : List Vm) → Same (holder vms) (holder (drain test vms).0)
unfolding drain
drain-Same test = update_where-Same test _ (λ v. refl) (λ v. refl)

module _ {N : Type 0} where
  -- If the table of rows satisfies the invariant, each statement does to the table of which job holds
  -- which machine what its name says, and no more. A claim changes nothing or gives a machine that no job held to the claiming job; a build
  -- or a registration gives the named machine to the job; a release or a forget frees the named
  -- machine; a reclaim or a sweep of stale builds only frees machines; a sweep of idle machines and
  -- a renewal change nothing.
  pub perform-Meets :
      (db : Db N) (now : ℕ) (call : Call) (vms : List Vm)
      → Inv vms
      → Meets call (holder vms) (holder (perform db now call vms))
  unfolding perform claim begin_build register sweep_stale_builds release forget take_one_for_sweep
      take_failed_for_sweep take_for_sweep renew_leases release_orphans
  perform-Meets db now (claims locked runner fp job lease) vms h =
      grant-Meets job lease now vms (latest (keep (is_candidate locked runner fp) vms))
        (λ w. candidate-free locked runner fp vms w h)
  perform-Meets db now (builds job runner fp wf lease) vms h =
      upsert-Assigns (fresh_row (building_id job) runner fp wf building job lease now) (some job)
        (rebuilt runner fp wf job lease now) refl (λ v. refl) (λ v. refl) vms
  perform-Meets db now (registers id runner fp wf job lease) vms h =
      upsert-Assigns (fresh_row id runner fp wf claimed job lease now) (some job)
        (taken job lease now) refl (λ v. refl) (λ v. refl) vms
  perform-Meets db now (releases id) vms h =
      update_id-Assigns id none (handed_back now) (λ v. refl) (λ v. refl) vms (inr refl)
  perform-Meets db now (forgets id) vms h = forget-Assigns id vms
  perform-Meets db now (sweeps_builds runners me) vms h =
      scoped (λ after. OnlyFrees (holder vms) (holder after)) (is_empty runners) _ _ (λ x. inl refl)
        (keep-OnlyFrees (λ v. not (is_stale_build runners me now v)) vms h.keyed)
  perform-Meets db now (sweeps_one id runners) vms h =
      scoped (λ after. Same (holder vms) (holder after)) (is_empty runners) _ _ (λ x. refl)
        (drain-Same (is_sweepable id runners) vms)
  perform-Meets db now (sweeps_failed locked runners) vms h =
      scoped (λ after. Same (holder vms) (holder after)) (is_empty runners) _ _ (λ x. refl)
        (drain-Same (is_failed_idle db locked runners) vms)
  perform-Meets db now (sweeps locked runners live idle_for) vms h =
      scoped (λ after. Same (holder vms) (holder after)) (is_empty runners) _ _ (λ x. refl)
        (drain-Same (is_unwanted locked runners live idle_for now) vms)
  perform-Meets db now (renews lease) vms h =
      update_where-Same (is_renewed lease.instance_id) _ (λ v. refl) (λ v. refl) vms
  perform-Meets db now (reclaims runners me) vms h =
      scoped (λ after. OnlyFrees (holder vms) (holder after)) (is_empty runners) _ _ (λ x. inl refl)
        (update_where-OnlyFrees (is_orphan db runners me now) freed (λ v. refl) vms (λ v. refl))
