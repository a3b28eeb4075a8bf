-- ===== src/VmPool/Invariant.antt =====
-- Every row of the pool has the columns that go with its status, and no id stands in two rows.
use ci.Common.{
  ℕ, ◌+◌, ◌≡◌, refl, ap, ◌∙◌, Bool, true, false, not, List, [], ◌∷◌, ◌++◌, Option, none, some, Text,
  text_eq, text_eq→eq, text_eq_refl, any, keep, is_empty, if◌then◌else◌, if_cases, ◌||◌, arith, All,
  Bool-cases, inl, inr,
}
use ci.Store.Rows.{Db, update_where}
use ci.Store.Updates.{
  All-update_where, All-keep, All-append, any-update_where, any-append, any-keep,
}
use ci.Store.Lifecycle.{is_some}
use ci.VmPool.Rows.{
  VmStatus, idle, claimed, building, draining, Lease, Vm, is_vm, is_idle, is_claimed, is_building,
  is_orphan, latest, upsert,
}
use ci.VmPool.{
  grant, taken, freed, is_renewed, drain, building_id, fresh_row, rebuilt, handed_back,
  is_stale_build, is_sweepable, is_failed_idle, is_unwanted, is_candidate, claim, begin_build,
  register, sweep_stale_builds, release, forget, take_one_for_sweep, take_failed_for_sweep,
  take_for_sweep, renew_leases, release_orphans,
}
use ci.VmPool.Steps.{
  Call, claims, builds, registers, releases, forgets, sweeps_builds, sweeps_one, sweeps_failed,
  sweeps, renews, reclaims, Event, perform, history,
}

abbrev pub IsHeld : Vm → Type 0
IsHeld v =
    (is_some v.claimed_by_job ≡ true)
    × (is_some v.leased_by ≡ true)
    × (is_some v.leased_until ≡ true)

abbrev pub IsFree : Vm → Type 0
IsFree v = (v.claimed_by_job ≡ none) × (v.leased_by ≡ none) × (v.leased_until ≡ none)

abbrev pub ColumnsFit : VmStatus → Vm → Type 0
ColumnsFit idle v = IsFree v
ColumnsFit draining v = IsFree v
ColumnsFit claimed v = IsHeld v
ColumnsFit building v = IsHeld v

abbrev pub IsSound : Vm → Type 0
IsSound v = ColumnsFit v.status v

abbrev pub IsKeyed : List Vm → Type 0
IsKeyed [] = Unit {0}
IsKeyed (v ∷ vs) = (any (is_vm v.sandbox_id) vs ≡ false) × IsKeyed vs

pub record Inv (vms : List Vm) : Type 0 where
  pub sound : All IsSound vms
  pub keyed : IsKeyed vms

update_where-IsKeyed :
    (test : Vm → Bool) (change : Vm → Vm)
    → ((v : Vm) → (change v).sandbox_id ≡ v.sandbox_id)
    → (vms : List Vm) → IsKeyed vms
    → IsKeyed (update_where test change vms)
update_where-IsKeyed test change same [] h = tt
update_where-IsKeyed test change same (v ∷ vs) h = (
  if_cases (λ w. any (is_vm w.sandbox_id) (update_where test change vs) ≡ false) (test v) (change v)
      v (λ e. unseen (change v).sandbox_id ∙ ap (λ i. any (is_vm i) vs) (same v) ∙ h.0)
      (λ e. unseen v.sandbox_id ∙ h.0),
  update_where-IsKeyed test change same vs h.1,
)
  where
    unseen : (id : Text) → any (is_vm id) (update_where test change vs) ≡ any (is_vm id) vs
    unseen id = any-update_where (is_vm id) test change (λ w. ap (λ i. text_eq i id) (same w)) vs

keep-IsKeyed : (test : Vm → Bool) (vms : List Vm) → IsKeyed vms → IsKeyed (keep test vms)
keep-IsKeyed test [] h = tt
keep-IsKeyed test (v ∷ vs) h =
    let rest = keep-IsKeyed test vs h.1 in
    if_cases IsKeyed (test v) (v ∷ keep test vs) (keep test vs)
      (λ e. (any-keep (is_vm v.sandbox_id) test vs h.0, rest)) (λ e. rest)

text_eq_sym : (a b : Text) → text_eq a b ≡ false → text_eq b a ≡ false
text_eq_sym a b h = elim (Bool-cases (text_eq b a)) [
  | inl e ↦ absurd (ground (arith, text_eq_refl b, text_eq→eq b a e))
  | inr e ↦ e
]

append-IsKeyed :
    (new : Vm) (vms : List Vm)
    → any (is_vm new.sandbox_id) vms ≡ false
    → IsKeyed vms
    → IsKeyed (vms ++ new ∷ [])
append-IsKeyed new [] absent h = (refl, tt)
append-IsKeyed new (v ∷ vs) absent h = (
  any-append (is_vm v.sandbox_id) vs (new ∷ [])
      ∙ ground (arith, text_eq_sym v.sandbox_id new.sandbox_id, h.0),
  append-IsKeyed new vs (ground arith) h.1,
)

-- An `UPDATE` that leaves ids and keeps the columns that go with the status.
update_where-Inv :
    (test : Vm → Bool) (change : Vm → Vm)
    → ((v : Vm) → (change v).sandbox_id ≡ v.sandbox_id)
    → ((v : Vm) → IsSound v → test v ≡ true → IsSound (change v))
    → (vms : List Vm) → Inv vms
    → Inv (update_where test change vms)
update_where-Inv test change same keeps vms h = record {
  sound = All-update_where IsSound test change keeps vms h.sound;
  keyed = update_where-IsKeyed test change same vms h.keyed;
}

keep-Inv : (test : Vm → Bool) (vms : List Vm) → Inv vms → Inv (keep test vms)
keep-Inv test vms h = record {
  sound = All-keep IsSound test vms h.sound;
  keyed = keep-IsKeyed test vms h.keyed;
}

upsert-Inv :
    (new : Vm) (change : Vm → Vm)
    → IsSound new
    → ((v : Vm) → (change v).sandbox_id ≡ v.sandbox_id)
    → ((v : Vm) → IsSound (change v))
    → (vms : List Vm) → Inv vms
    → Inv (upsert new change vms)
upsert-Inv new change fits same keeps vms h =
    if_cases Inv (any (is_vm new.sandbox_id) vms) (update_where (is_vm new.sandbox_id) change vms)
      (vms ++ new ∷ [])
      (λ e. update_where-Inv (is_vm new.sandbox_id) change same (λ v c t. keeps v) vms h)
      (λ e. record {
        sound = All-append IsSound vms (new ∷ []) h.sound (fits, tt);
        keyed = append-IsKeyed new vms e h.keyed;
      })

free-Inv : (test : Vm → Bool) → (vms : List Vm) → Inv vms → Inv (update_where test freed vms)
free-Inv test = update_where-Inv test freed (λ v. refl) (λ v c t. (refl, refl, refl))

grant-Inv :
    (job : Text) (lease : Lease) (now : ℕ) (vms : List Vm) (found : Option Vm)
    → Inv vms
    → Inv (grant job lease now vms found).0
grant-Inv job lease now vms none h = h
grant-Inv job lease now vms (some v) h =
    update_where-Inv (is_vm v.sandbox_id) (taken job lease now) (λ w. refl)
      (λ w c t. (refl, refl, refl)) vms h

renewed-ColumnsFit :
    (s : VmStatus) (v : Vm) (until : ℕ)
    → ColumnsFit s v
    → (is_claimed s || is_building s) ≡ true
    → ColumnsFit s (record v { leased_until = some until })
renewed-ColumnsFit idle v until c t = ground arith
renewed-ColumnsFit claimed v until c t = (c.0, c.1, refl)
renewed-ColumnsFit building v until c t = (c.0, c.1, refl)
renewed-ColumnsFit draining v until c t = ground arith

pub unheld-IsFree :
    (s : VmStatus) (v : Vm) → ColumnsFit s v → (is_claimed s || is_building s) ≡ false → IsFree v
unheld-IsFree idle v c t = c
unheld-IsFree claimed v c t = ground arith
unheld-IsFree building v c t = ground arith
unheld-IsFree draining v c t = c

drain-Inv :
    (test : Vm → Bool)
    → ((v : Vm) → test v ≡ true → (is_claimed v.status || is_building v.status) ≡ false)
    → (vms : List Vm) → Inv vms
    → Inv (drain test vms).0
unfolding drain
drain-Inv test spares =
    update_where-Inv test _ (λ v. refl) (λ v c t. unheld-IsFree v.status v c (spares v t))

pub idle-unheld : (s : VmStatus) → is_idle s ≡ true → (is_claimed s || is_building s) ≡ false
idle-unheld idle h = refl
idle-unheld claimed h = ground arith
idle-unheld building h = ground arith
idle-unheld draining h = refl

-- A statement for certain runners, which does nothing when there are none.
pub scoped :
    {R : Type 0} (P : List Vm → Type 0) (b : Bool) (x y : List Vm × R)
    → P x.0
    → P y.0
    → P (if b then x else y).0
scoped P true x y h k = h
scoped P false x y h k = k

module _ {N : Type 0} where
  -- Every statement keeps the invariant.
  pub perform-Inv :
      (db : Db N) (now : ℕ) (call : Call) (vms : List Vm) → Inv vms → Inv (perform db now call vms)
  unfolding perform claim begin_build register sweep_stale_builds release forget take_one_for_sweep
      take_failed_for_sweep take_for_sweep renew_leases release_orphans
  perform-Inv db now (claims locked runner fp job lease) vms h =
      grant-Inv job lease now vms (latest (keep (is_candidate locked runner fp) vms)) h
  perform-Inv db now (builds job runner fp wf lease) vms h =
      upsert-Inv (fresh_row (building_id job) runner fp wf building job lease now)
        (rebuilt runner fp wf job lease now) (refl, refl, refl) (λ v. refl)
        (λ v. (refl, refl, refl)) vms h
  perform-Inv db now (registers id runner fp wf job lease) vms h =
      upsert-Inv (fresh_row id runner fp wf claimed job lease now) (taken job lease now)
        (refl, refl, refl) (λ v. refl) (λ v. (refl, refl, refl)) vms h
  perform-Inv db now (releases id) vms h =
      update_where-Inv (is_vm id) (handed_back now) (λ v. refl) (λ v c t. (refl, refl, refl)) vms h
  perform-Inv db now (forgets id) vms h = keep-Inv (λ v. not (is_vm id v)) vms h
  perform-Inv db now (sweeps_builds runners me) vms h =
      scoped Inv (is_empty runners) _ _ h
        (keep-Inv (λ v. not (is_stale_build runners me now v)) vms h)
  perform-Inv db now (sweeps_one id runners) vms h =
      scoped Inv (is_empty runners) _ _ h
        (drain-Inv (is_sweepable id runners) (λ v t. ground arith) vms h)
  perform-Inv db now (sweeps_failed locked runners) vms h = scoped Inv (is_empty runners) _ _ h (
      drain-Inv (is_failed_idle db locked runners) (λ v t. idle-unheld v.status (ground arith)) vms
        h)
  perform-Inv db now (sweeps locked runners live idle_for) vms h =
      scoped Inv (is_empty runners) _ _ h (
        drain-Inv (is_unwanted locked runners live idle_for now)
          (λ v t. idle-unheld v.status (ground arith)) vms h)
  perform-Inv db now (renews lease) vms h =
      update_where-Inv (is_renewed lease.instance_id) _ (λ v. refl)
        (λ v c t. renewed-ColumnsFit v.status v (now + lease.ttl) c (ground arith)) vms h
  perform-Inv db now (reclaims runners me) vms h =
      scoped Inv (is_empty runners) _ _ h (free-Inv (is_orphan db runners me now) vms h)

  -- Whatever statements are issued, in whatever order, from an empty table: no two rows have the
  -- same sandbox id, a claimed or building row has a job and a lease with an end, and an idle or
  -- draining row has none of the three.
  pub history-Inv : (events : List (Event N)) → Inv (history events [])
  history-Inv events = from events [] (record { sound = tt; keyed = tt })
    where
      from : (es : List (Event N)) (vms : List Vm) → Inv vms → Inv (history es vms)
      from [] vms h = h
      from (e ∷ es) vms h =
          from es (perform e.db e.now e.call vms) (perform-Inv e.db e.now e.call vms h)
