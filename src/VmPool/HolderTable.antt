-- ===== src/VmPool/HolderTable.antt =====
-- The table of which job holds which machine, and what an update, an insertion or a deletion of rows
-- does to it.
use mathlib.Core.Path.{subst}
use ci.Common.{
  ◌≡◌, refl, ap, sym, Bool, true, false, not, List, [], ◌∷◌, ◌++◌, Option, none, some, Text,
  text_eq, text_eq→eq, text_eq_refl, text_eq_apart, any, find, keep, if◌then◌else◌, if_cases, arith,
  Bool-cases, ◌⊎◌, inl, inr,
}
use ci.Store.Rows.{update_where}
use ci.Store.Updates.{any-keep}
use ci.VmPool.Rows.{Vm, is_vm, upsert}
use ci.VmPool.{map_row}
use ci.VmPool.Invariant.{IsKeyed}

-- The abstract state: the job that holds a machine, by the machine's id.
abbrev pub Holders : Type 0
Holders = Text → Option Text

abbrev pub job_of : Option Vm → Option Text
job_of none = none
job_of (some v) = v.claimed_by_job

abbrev pub holder : List Vm → Holders
holder vms id = job_of (find (is_vm id) vms)

abbrev pub Same : Holders → Holders → Type 0
Same h h' = (x : Text) → h' x ≡ h x

-- `id` goes to `who` and nothing else changes.
abbrev pub Assigns : Text → Option Text → Holders → Holders → Type 0
Assigns id who h h' = (h' id ≡ who) × ((x : Text) → text_eq id x ≡ false → h' x ≡ h x)

abbrev pub OnlyFrees : Holders → Holders → Type 0
OnlyFrees h h' = (x : Text) → (h' x ≡ h x) ⊎ (h' x ≡ none)

module _ (test : Vm → Bool) (change : Vm → Vm)
    (same : (v : Vm) → (change v).sandbox_id ≡ v.sandbox_id) where
  find-update_where :
      (id : Text) (vms : List Vm)
      → find (is_vm id) (update_where test change vms)
        ≡ map_row (λ v. if test v then change v else v) (find (is_vm id) vms)
  find-update_where id [] = refl
  find-update_where id (v ∷ vs) = ground (arith, find-update_where id vs, same v)

  -- An update that keeps the jobs of the rows that it changes.
  pub update_where-Same :
      ((v : Vm) → (change v).claimed_by_job ≡ v.claimed_by_job)
      → (vms : List Vm) → Same (holder vms) (holder (update_where test change vms))
  update_where-Same h [] x = refl
  update_where-Same h (v ∷ vs) x = ground (arith, update_where-Same h vs x, same v, h v)

  -- One that leaves the rows that it changes without a job.
  pub update_where-OnlyFrees :
      (vms : List Vm)
      → ((v : Vm) → (change v).claimed_by_job ≡ none)
      → OnlyFrees (holder vms) (holder (update_where test change vms))
  update_where-OnlyFrees [] h x = inl refl
  update_where-OnlyFrees (v ∷ vs) h x = ground (arith, update_where-OnlyFrees vs h x, same v, h v)

-- An update of the rows with one id, which gives it to `who`.
module _ (id : Text) (who : Option Text) where
  module _ (change : Vm → Vm) (same : (v : Vm) → (change v).sandbox_id ≡ v.sandbox_id)
      (gives : (v : Vm) → (change v).claimed_by_job ≡ who) where
    update_id-given :
        (vms : List Vm)
        → (any (is_vm id) vms ≡ true) ⊎ (who ≡ none)
        → holder (update_where (is_vm id) change vms) id ≡ who
    update_id-given [] (inl q) = ground arith
    update_id-given [] (inr q) = sym q
    update_id-given (v ∷ vs) (inl q) = elim (Bool-cases (is_vm id v)) [
      | inl e ↦ ground (arith, same v, gives v)
      | inr e ↦ ground (arith, update_id-given vs (inl (ground arith)))
    ]
    update_id-given (v ∷ vs) (inr q) = ground (arith, update_id-given vs (inr q), same v, gives v)

    update_id-elsewhere :
        (x : Text)
        → text_eq id x ≡ false
        → (vms : List Vm) → holder (update_where (is_vm id) change vms) x ≡ holder vms x
    update_id-elsewhere x d [] = refl
    update_id-elsewhere x d (v ∷ vs) = elim (Bool-cases (is_vm id v)) [
      | inl e ↦
          ground (arith, update_id-elsewhere x d vs, same v, text_eq_apart v.sandbox_id id x e d)
      | inr e ↦ ground (arith, update_id-elsewhere x d vs)
    ]

    pub update_id-Assigns :
        (vms : List Vm)
        → (any (is_vm id) vms ≡ true) ⊎ (who ≡ none)
        → Assigns id who (holder vms) (holder (update_where (is_vm id) change vms))
    update_id-Assigns vms p = (update_id-given vms p, λ x d. update_id-elsewhere x d vms)

  append-given :
      (new : Vm)
      → new.sandbox_id ≡ id
      → new.claimed_by_job ≡ who
      → (vms : List Vm) → any (is_vm id) vms ≡ false
      → holder (vms ++ new ∷ []) id ≡ who
  append-given new i g [] q = ground (arith, text_eq_refl id, ap (λ y. text_eq y id) i)
  append-given new i g (v ∷ vs) q = ground (arith, append-given new i g vs)

  append-elsewhere :
      (new : Vm)
      → new.sandbox_id ≡ id
      → (x : Text) → text_eq id x ≡ false
      → (vms : List Vm) → holder (vms ++ new ∷ []) x ≡ holder vms x
  append-elsewhere new i x d [] = ground (arith, ap (λ y. text_eq y x) i)
  append-elsewhere new i x d (v ∷ vs) = ground (arith, append-elsewhere new i x d vs)

pub upsert-Assigns :
    (new : Vm) (who : Option Text) (change : Vm → Vm)
    → new.claimed_by_job ≡ who
    → ((v : Vm) → (change v).sandbox_id ≡ v.sandbox_id)
    → ((v : Vm) → (change v).claimed_by_job ≡ who)
    → (vms : List Vm) → Assigns new.sandbox_id who (holder vms) (holder (upsert new change vms))
upsert-Assigns new who change g same gives vms =
    if_cases (λ after. Assigns id who (holder vms) (holder after)) (any (is_vm id) vms)
      (update_where (is_vm id) change vms) (vms ++ new ∷ [])
      (λ e. update_id-Assigns id who change same gives vms (inl e))
      (λ e. (append-given id who new refl g vms e, λ x d. append-elsewhere id who new refl x d vms))
  where
    id : Text
    id = new.sandbox_id

pub find-none : (x : Text) (vms : List Vm) → any (is_vm x) vms ≡ false → find (is_vm x) vms ≡ none
find-none x [] h = refl
find-none x (v ∷ vs) h = ground (arith, find-none x vs)

pub keep-OnlyFrees :
    (test : Vm → Bool) (vms : List Vm)
    → IsKeyed vms
    → OnlyFrees (holder vms) (holder (keep test vms))
keep-OnlyFrees test [] h x = inl refl
keep-OnlyFrees test (v ∷ vs) h x = elim (Bool-cases (is_vm x v)) [
  | inl e ↦
      let gone : any (is_vm x) vs ≡ false =
        subst (λ y. any (is_vm y) vs ≡ false) (text_eq→eq v.sandbox_id x e) h.0 in
      ground (arith, find-none x (keep test vs) (any-keep (is_vm x) test vs gone))
  | inr e ↦ ground (arith, keep-OnlyFrees test vs h.1 x)
]

pub forget-Assigns :
    (id : Text) (vms : List Vm)
    → Assigns id none (holder vms) (holder (keep (λ v. not (is_vm id v)) vms))
forget-Assigns id [] = (refl, λ x d. refl)
forget-Assigns id (v ∷ vs) =
    let rest = forget-Assigns id vs in
    (
      ground (arith, rest.0),
      λ x d. elim (Bool-cases (is_vm id v)) [
        | inl e ↦ ground (arith, rest.1 x d, text_eq_apart v.sandbox_id id x e d)
        | inr e ↦ ground (arith, rest.1 x d)
      ],
    )
