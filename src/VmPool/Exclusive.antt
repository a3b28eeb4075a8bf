-- ===== src/VmPool/Exclusive.antt =====
-- A machine that a claim has handed out is not handed out again while its lease runs.
use mathlib.Core.Path.{subst}
use ci.Common.{
  ℕ, ◌+◌, ◌≡◌, refl, ◌∙◌, Bool, true, false, List, [], ◌∷◌, Option, none, some, Text, text_eq,
  text_eq_refl, any, keep, if_cases, arith, All,
}
use ci.Store.Rows.{update_where}
use ci.Store.Updates.{All-keep, any-update_where, All-map}
use ci.VmPool.Rows.{Lease, Vm, is_vm, latest}
use ci.VmPool.{grant, taken, is_candidate, claim}
use ci.VmPool.Steps.{Event, history}
use ci.VmPool.Held.{Holds, is_held, Spares, latest-All, candidate-other, history-Holds}

claimed_row-Holds :
    (id job : Text) (lease : Lease) (now : ℕ) (vms : List Vm)
    → any (is_vm id) vms ≡ true
    → Holds id job (now + lease.ttl) (update_where (is_vm id) (taken job lease now) vms)
claimed_row-Holds id job lease now vms p = record {
  present = any-update_where (is_vm id) (is_vm id) (taken job lease now) (λ v. refl) vms ∙ p;
  held = rows vms;
}
  where
    rows :
        (vs : List Vm)
        → All
            (λ v. is_vm id v ≡ true → is_held job (now + lease.ttl) v ≡ true)
            (update_where (is_vm id) (taken job lease now) vs)
    rows [] = tt
    rows (v ∷ vs) = (
      if_cases (λ w. is_vm id w ≡ true → is_held job (now + lease.ttl) w ≡ true) (is_vm id v)
          (taken job lease now v) v (λ e m. ground (arith, text_eq_refl job)) (λ e m. ground arith),
      rows vs,
    )

-- Every row of a table is found under its id.
rows-present : (vms : List Vm) → All (λ v. any (is_vm v.sandbox_id) vms ≡ true) vms
rows-present [] = tt
rows-present (v ∷ vs) = (
  ground (arith, text_eq_refl v.sandbox_id),
  All-map (λ w. any (is_vm w.sandbox_id) vs ≡ true) _ (λ w p. ground arith) vs (rows-present vs),
)

Granted : Text → ℕ → List Vm × Option Text → Type 0
Granted job until (vms, none) = Unit {0}
Granted job until (vms, some id) = Holds id job until vms

grant-Granted :
    (job : Text) (lease : Lease) (now : ℕ) (vms : List Vm) (found : Option Vm)
    → ((w : Vm) → found ≡ some w → any (is_vm w.sandbox_id) vms ≡ true)
    → Granted job (now + lease.ttl) (grant job lease now vms found)
unfolding Granted
grant-Granted job lease now vms none present = tt
grant-Granted job lease now vms (some w) present =
    claimed_row-Holds w.sandbox_id job lease now vms (present w refl)

-- What `claim` hands out is held by its job from then on.
pub claim-Holds :
    (locked : Text → Bool) (runner fp job : Text) (lease : Lease) (now : ℕ) (vms : List Vm)
    → {id : Text} {after : List Vm} → claim locked runner fp job lease now vms ≡ (after, some id)
    → Holds id job (now + lease.ttl) after
unfolding claim Granted
claim-Holds locked runner fp job lease now vms e = subst (Granted job (now + lease.ttl)) e (
    grant-Granted job lease now vms (latest (keep (is_candidate locked runner fp) vms)) (λ w.
      latest-All (λ v. any (is_vm v.sandbox_id) vms ≡ true)
        (keep (is_candidate locked runner fp) vms) w
        (All-keep _ (is_candidate locked runner fp) vms (rows-present vms))))

Differs : Text → List Vm × Option Text → Type 0
Differs id (vms, none) = Unit {0}
Differs id (vms, some other) = text_eq other id ≡ false

grant-Differs :
    (id job : Text) (lease : Lease) (now : ℕ) (vms : List Vm) (found : Option Vm)
    → ((w : Vm) → found ≡ some w → text_eq w.sandbox_id id ≡ false)
    → Differs id (grant job lease now vms found)
unfolding Differs
grant-Differs id job lease now vms none other = tt
grant-Differs id job lease now vms (some w) other = other w refl

pub Holds-claim :
    (id holder : Text) (until : ℕ)
    → (locked : Text → Bool) (runner fp job : Text) (lease : Lease) (now : ℕ) (vms : List Vm)
    → {other : Text} {after : List Vm} → Holds id holder until vms
    → claim locked runner fp job lease now vms ≡ (after, some other)
    → text_eq other id ≡ false
unfolding claim Differs
Holds-claim id holder until locked runner fp job lease now vms h e = subst (Differs id) e (
    grant-Differs id job lease now vms (latest (keep (is_candidate locked runner fp) vms))
      (λ w. candidate-other id holder until locked runner fp vms w h))

module _ {N : Type 0} where
  -- Once a claim has handed out a machine, no claim hands out the same machine while the lease runs,
  -- whoever asks, from whatever runner and fingerprint, after whatever statements in between: these
  -- may not release, forget, register or build under that very id, a renewal among them does not
  -- shorten the lease, and a reclaim among them comes before the lease is over.
  pub claim-exclusive :
      (locked : Text → Bool) (runner fp job : Text) (lease : Lease) (now : ℕ) (vms : List Vm)
      → {id : Text} {after : List Vm} → claim locked runner fp job lease now vms ≡ (after, some id)
      → (events : List (Event N)) → All (λ e. Spares id (now + lease.ttl) e.now e.call) events
      → (locked' : Text → Bool) (runner' fp' job' : Text) (lease' : Lease) (now' : ℕ)
      → {other : Text} {final : List Vm}
      → claim locked' runner' fp' job' lease' now' (history events after) ≡ (final, some other)
      → text_eq other id ≡ false
  claim-exclusive locked runner fp job lease now vms {id} {after} e events spared l r f j s t e' =
      Holds-claim id job (now + lease.ttl) l r f j s t (history events after)
        (history-Holds id job (now + lease.ttl) events after spared
          (claim-Holds locked runner fp job lease now vms e))
        e'
