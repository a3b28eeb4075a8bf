-- ===== src/VmPool/Held.antt =====
-- A claimed machine stays with its job for as long as its lease runs: whatever statements are issued,
-- the row of a held machine stays as it is.
use mathlib.Core.Path.{subst}
use ci.Common.{
  ℕ, ◌+◌, ◌≤◌, ◌≡◌, refl, ap, ◌∙◌, Bool, true, false, not, ◌&&◌, List, [], ◌∷◌, ◌++◌, Option, none,
  some, Text, text_eq, text_eq→eq, leb, ltb, any, keep, is_empty, if_cases, arith, All, Bool-cases,
  inl, inr,
}
use ci.Store.Rows.{Db, update_where}
use ci.Store.Updates.{
  All-update_where, All-keep, All-keep_tested, All-append, any-update_where, any-append,
  any-keep_spared, All-map,
}
use ci.VmPool.Rows.{
  VmStatus, idle, claimed, building, draining, Lease, Vm, is_vm, is_claimed, is_idle, is_building,
  latest, later_of, upsert, is_orphan, has_live_job,
}
use ci.VmPool.{
  grant, taken, freed, is_renewed, drain, building_id, fresh_row, rebuilt, handed_back,
  is_stale_build, is_sweepable, is_failed_idle, is_unwanted, is_candidate, claim, begin_build,
  register, sweep_stale_builds, release, forget, take_one_for_sweep, take_failed_for_sweep,
  take_for_sweep, renew_leases, release_orphans,
}
use ci.VmPool.Steps.{
  Call, claims, builds, registers, releases, forgets, sweeps_builds, sweeps_one, sweeps_failed,
  sweeps, renews, reclaims, Event, perform, history,
}
use ci.VmPool.Invariant.{scoped}

abbrev pub names : Option Text → Text → Bool
names none job = false
names (some x) job = text_eq x job

abbrev pub covers : Option ℕ → ℕ → Bool
covers none until = false
covers (some t) until = leb until t

-- The row is claimed by the job, on a lease that ends no earlier than `until`.
abbrev pub is_held : Text → ℕ → Vm → Bool
is_held job until v =
    is_claimed v.status && names v.claimed_by_job job && covers v.leased_until until

-- The table has a row with the id, and the job holds it until then.
pub record Holds (id job : Text) (until : ℕ) (vms : List Vm) : Type 0 where
  pub present : any (is_vm id) vms ≡ true
  pub held : All (λ v. is_vm id v ≡ true → is_held job until v ≡ true) vms

-- The call does not name the machine, as only its holder does; a renewal does not shorten the
-- lease, and a reclaim comes before the lease is over.
abbrev pub Spares : Text → ℕ → ℕ → Call → Type 0
Spares id until now (builds job runner fp wf lease) = text_eq (building_id job) id ≡ false
Spares id until now (registers x runner fp wf job lease) = text_eq x id ≡ false
Spares id until now (releases x) = text_eq x id ≡ false
Spares id until now (forgets x) = text_eq x id ≡ false
Spares id until now (renews lease) = until ≤ now + lease.ttl
Spares id until now (reclaims runners me) = now ≤ until
Spares id until now _ = Unit {0}

-- The row that `latest` finds is one of the list.
OptionAll : (Vm → Type 0) → Option Vm → Type 0
OptionAll P none = Unit {0}
OptionAll P (some v) = P v

later_of-All : (P : Vm → Type 0) (v : Vm) (o : Option Vm) → P v → OptionAll P o → P (later_of v o)
unfolding OptionAll
later_of-All P v none p q = p
later_of-All P v (some w) p q = if_cases P (ltb v.last_used_at w.last_used_at) w v (λ e. q) (λ e. p)

latest-OptionAll : (P : Vm → Type 0) (vms : List Vm) → All P vms → OptionAll P (latest vms)
unfolding OptionAll
latest-OptionAll P [] h = tt
latest-OptionAll P (v ∷ vs) h = later_of-All P v (latest vs) h.0 (latest-OptionAll P vs h.1)

pub latest-All : (P : Vm → Type 0) (vms : List Vm) (w : Vm) → All P vms → latest vms ≡ some w → P w
unfolding OptionAll
latest-All P vms w h e = subst (OptionAll P) e (latest-OptionAll P vms h)

clash : (s : VmStatus) → is_claimed s ≡ true → is_idle s ≡ true → ⊥
clash idle c i = ground arith
clash claimed c i = ground arith
clash building c i = ground arith
clash draining c i = ground arith

idle-unclaimed : (s : VmStatus) → is_idle s ≡ true → is_claimed s ≡ false
idle-unclaimed idle i = refl
idle-unclaimed claimed i = ground arith
idle-unclaimed building i = refl
idle-unclaimed draining i = refl

claimed-unbuilt : (s : VmStatus) → is_claimed s ≡ true → is_building s ≡ false
claimed-unbuilt idle c = refl
claimed-unbuilt claimed c = refl
claimed-unbuilt building c = ground arith
claimed-unbuilt draining c = refl

live_lease :
    (live : Bool) {now until : ℕ} (end : Option ℕ)
    → covers end until ≡ true
    → elim end [ none ↦ live | some t ↦ ltb t now ] ≡ true
    → now ≤ until
    → ⊥
live_lease live none c l q = ground arith
live_lease live (some t) c l q = ground arith

module _ (id job : Text) (until : ℕ) where
  update_where-Holds :
      (test : Vm → Bool) (change : Vm → Vm)
      → ((v : Vm) → (change v).sandbox_id ≡ v.sandbox_id)
      → ((v : Vm)
          → is_vm id v ≡ true
          → is_held job until v ≡ true
          → test v ≡ true
          → is_held job until (change v) ≡ true)
      → (vms : List Vm) → Holds id job until vms
      → Holds id job until (update_where test change vms)
  update_where-Holds test change same keeps vms h = record {
    present =
        any-update_where (is_vm id) test change (λ v. ap (λ i. text_eq i id) (same v)) vms
        ∙ h.present;
    held =
        All-update_where (λ v. is_vm id v ≡ true → is_held job until v ≡ true) test change
          (λ v p t m.
            let n : is_vm id v ≡ true = subst (λ i. text_eq i id ≡ true) (same v) m in
            keeps v n (p n) t)
          vms h.held;
  }

  keep-Holds :
      (test : Vm → Bool)
      → ((v : Vm) → is_vm id v ≡ true → is_held job until v ≡ true → test v ≡ true)
      → (vms : List Vm) → Holds id job until vms
      → Holds id job until (keep test vms)
  keep-Holds test spares vms h = record {
    present =
        any-keep_spared (is_vm id) test vms
          (All-map _ (λ v. is_vm id v ≡ true → test v ≡ true) (λ v p m. spares v m (p m)) vms
            h.held)
          h.present;
    held = All-keep _ test vms h.held;
  }

  others : (x : Text) (v : Vm) → text_eq x id ≡ false → is_vm id v ≡ true → is_vm x v ≡ false
  others x v d m = elim (Bool-cases (is_vm x v)) [
    | inl e ↦ absurd (ground (arith, text_eq→eq v.sandbox_id x e))
    | inr e ↦ e
  ]

  upsert-Holds :
      (new : Vm) (change : Vm → Vm)
      → text_eq new.sandbox_id id ≡ false
      → ((v : Vm) → (change v).sandbox_id ≡ v.sandbox_id)
      → (vms : List Vm) → Holds id job until vms
      → Holds id job until (upsert new change vms)
  upsert-Holds new change other same vms h =
      if_cases (Holds id job until) (any (is_vm new.sandbox_id) vms)
        (update_where (is_vm new.sandbox_id) change vms) (vms ++ new ∷ [])
        (λ e.
          update_where-Holds (is_vm new.sandbox_id) change same
            (λ v m k t. absurd (ground (arith, others new.sandbox_id v other m))) vms h)
        (λ e. record {
          present = any-append (is_vm id) vms (new ∷ []) ∙ ground (arith, h.present);
          held = All-append _ vms (new ∷ []) h.held ((λ m. ground arith), tt);
        })

  -- A held machine is no candidate.
  pub candidate-other :
      (locked : Text → Bool) (runner fp : Text) (vms : List Vm) (w : Vm)
      → Holds id job until vms
      → latest (keep (is_candidate locked runner fp) vms) ≡ some w
      → text_eq w.sandbox_id id ≡ false
  candidate-other locked runner fp vms w h e =
      let (kept, free) =
        latest-All _ (keep (is_candidate locked runner fp) vms) w
          (All-keep_tested _ (is_candidate locked runner fp) vms h.held) e in
      elim (Bool-cases (text_eq w.sandbox_id id)) [
        | inl m ↦ absurd (clash w.status (ground (arith, kept m)) (ground arith))
        | inr m ↦ m
      ]

  grant-Holds :
      (who : Text) (lease : Lease) (now : ℕ) (vms : List Vm) (found : Option Vm)
      → ((w : Vm) → found ≡ some w → text_eq w.sandbox_id id ≡ false)
      → Holds id job until vms
      → Holds id job until (grant who lease now vms found).0
  grant-Holds who lease now vms none other h = h
  grant-Holds who lease now vms (some w) other h =
      update_where-Holds (is_vm w.sandbox_id) (taken who lease now) (λ v. refl)
        (λ v m k t. absurd (ground (arith, others w.sandbox_id v (other w refl) m))) vms h

  drain-Holds :
      (test : Vm → Bool)
      → ((v : Vm) → test v ≡ true → is_claimed v.status ≡ false)
      → (vms : List Vm) → Holds id job until vms
      → Holds id job until (drain test vms).0
  unfolding drain
  drain-Holds test spares =
      update_where-Holds test _ (λ v. refl) (λ v m k t. absurd (ground (arith, spares v t)))

  module _ {N : Type 0} where
    perform-Holds :
        (db : Db N) (now : ℕ) (call : Call) (vms : List Vm)
        → Spares id until now call
        → Holds id job until vms
        → Holds id job until (perform db now call vms)
    unfolding perform claim begin_build register sweep_stale_builds release forget
        take_one_for_sweep take_failed_for_sweep take_for_sweep renew_leases release_orphans
    perform-Holds db now (claims locked runner fp who lease) vms q h =
        grant-Holds who lease now vms (latest (keep (is_candidate locked runner fp) vms))
          (λ w. candidate-other locked runner fp vms w h) h
    perform-Holds db now (builds who runner fp wf lease) vms q h =
        upsert-Holds (fresh_row (building_id who) runner fp wf building who lease now)
          (rebuilt runner fp wf who lease now) q (λ v. refl) vms h
    perform-Holds db now (registers x runner fp wf who lease) vms q h =
        upsert-Holds (fresh_row x runner fp wf claimed who lease now) (taken who lease now) q
          (λ v. refl) vms h
    perform-Holds db now (releases x) vms q h =
        update_where-Holds (is_vm x) (handed_back now) (λ v. refl)
          (λ v m k t. absurd (ground (arith, others x v q m))) vms h
    perform-Holds db now (forgets x) vms q h =
        keep-Holds (λ v. not (is_vm x v)) (λ v m k. ground (arith, others x v q m)) vms h
    perform-Holds db now (sweeps_builds runners me) vms q h =
        scoped (Holds id job until) (is_empty runners) _ _ h (
          keep-Holds (λ v. not (is_stale_build runners me now v))
            (λ v m k. ground (arith, claimed-unbuilt v.status (ground arith))) vms h)
    perform-Holds db now (sweeps_one x runners) vms q h =
        scoped (Holds id job until) (is_empty runners) _ _ h
          (drain-Holds (is_sweepable x runners) (λ v t. ground arith) vms h)
    perform-Holds db now (sweeps_failed locked runners) vms q h =
        scoped (Holds id job until) (is_empty runners) _ _ h (
          drain-Holds (is_failed_idle db locked runners)
            (λ v t. idle-unclaimed v.status (ground arith)) vms h)
    perform-Holds db now (sweeps locked runners live idle_for) vms q h =
        scoped (Holds id job until) (is_empty runners) _ _ h (
          drain-Holds (is_unwanted locked runners live idle_for now)
            (λ v t. idle-unclaimed v.status (ground arith)) vms h)
    perform-Holds db now (renews lease) vms q h =
        update_where-Holds (is_renewed lease.instance_id) _ (λ v. refl) (λ v m k t. ground arith)
          vms h
    perform-Holds db now (reclaims runners me) vms q h =
        scoped (Holds id job until) (is_empty runners) _ _ h (
          update_where-Holds (is_orphan db runners me now) freed (λ v. refl)
            (λ v m k t. absurd (
              live_lease (not (has_live_job db v.claimed_by_job)) v.leased_until (ground arith)
                (ground arith) q))
            vms h)

    pub history-Holds :
        (events : List (Event N)) (vms : List Vm)
        → All (λ e. Spares id until e.now e.call) events
        → Holds id job until vms
        → Holds id job until (history events vms)
    history-Holds [] vms q h = h
    history-Holds (e ∷ es) vms q h =
        history-Holds es (perform e.db e.now e.call vms) q.1
          (perform-Holds e.db e.now e.call vms q.0 h)
