-- ===== src/VmPool/Recovery.antt =====
-- Which machine a claim finds, and that a machine whose holder died is found again.
use mathlib.Core.Path.{subst}
use ci.Common.{
  ℕ, ◌≤◌, ◌<◌, ◌≡◌, refl, ap, sym, if-false, lt→ltb, Bool, true, false, List, [], ◌∷◌, Option, none,
  some, Text, text_eq_refl, ltb, keep, is_empty, if_cases, arith, In, inl, inr,
}
use ci.Plan.Order.{member}
use ci.Store.Rows.{Db, update_where, count_where}
use ci.VmPool.Rows.{claimed, Lease, Vm, latest, later_of, is_other, is_orphan}
use ci.VmPool.{grant, freed, is_candidate, claim, release_orphans}

module _ {A : Type 0} where
  In-keep : (test : A → Bool) (a : A) (xs : List A) → In a xs → test a ≡ true → In a (keep test xs)
  In-keep test a [] m t = m
  In-keep test a (x ∷ xs) (inl e) t =
      if_cases (In a) (test x) (x ∷ keep test xs) (keep test xs) (λ b. inl e)
        (λ b. absurd (ground (arith, ap test e)))
  In-keep test a (x ∷ xs) (inr m) t =
      let rest = In-keep test a xs m t in
      if_cases (In a) (test x) (x ∷ keep test xs) (keep test xs) (λ b. inr rest) (λ b. rest)

  In-update_where :
      (test : A → Bool) (change : A → A) (a : A) (xs : List A)
      → In a xs
      → test a ≡ true
      → In (change a) (update_where test change xs)
  In-update_where test change a [] m t = m
  In-update_where test change a (x ∷ xs) (inl e) t = inl (
      if_cases (λ y. y ≡ change a) (test x) (change x) x (λ b. ap change e)
        (λ b. absurd (ground (arith, ap test e))))
  In-update_where test change a (x ∷ xs) (inr m) t = inr (In-update_where test change a xs m t)

-- `w` is in the list, and nothing in the list was used after it.
pub record IsLatest (w : Vm) (vms : List Vm) : Type 0 where
  pub among : In w vms
  pub newest : (v : Vm) → In v vms → v.last_used_at ≤ w.last_used_at

latest-some : (v : Vm) (vs : List Vm) → (w : Vm) × (latest (v ∷ vs) ≡ some w)
latest-some v vs = (later_of v (latest vs), refl)

later_of-IsLatest :
    (v : Vm) (vs : List Vm) (w : Vm) → IsLatest w vs → IsLatest (later_of v (some w)) (v ∷ vs)
later_of-IsLatest v vs w h =
    if_cases (λ u. IsLatest u (v ∷ vs)) (ltb v.last_used_at w.last_used_at) w v
      (λ e. record {
        among = inr h.among;
        newest = λ u m. elim m [
          | inl q ↦ ground (arith, ap (λ x. x.last_used_at) q)
          | inr n ↦ h.newest u n
        ];
      })
      (λ e. record {
        among = inl refl;
        newest = λ u m. elim m [
          | inl q ↦ ground (arith, ap (λ x. x.last_used_at) q)
          | inr n ↦ ground (arith, h.newest u n)
        ];
      })

-- What `latest` finds: nothing in an empty list, and else the newest row.
Latest : List Vm → Option Vm → Type 0
Latest vms none = vms ≡ []
Latest vms (some w) = IsLatest w vms

later_of-Latest :
    (v : Vm) (vs : List Vm) (o : Option Vm) → Latest vs o → IsLatest (later_of v o) (v ∷ vs)
unfolding Latest
later_of-Latest v vs none h = record {
  among = inl refl;
  newest = λ u m. elim m [
    | inl q ↦ ground (arith, ap (λ x. x.last_used_at) q)
    | inr n ↦ absurd (subst (In u) h n)
  ];
}
later_of-Latest v vs (some w) h = later_of-IsLatest v vs w h

latest-Latest : (vms : List Vm) → Latest vms (latest vms)
unfolding Latest
latest-Latest [] = refl
latest-Latest (v ∷ vs) = later_of-Latest v vs (latest vs) (latest-Latest vs)

-- What a claim that returns `id`, or nothing, says of the candidates.
abbrev pub Finds : List Vm → Option Text → Type 0
Finds candidates none = candidates ≡ []
Finds candidates (some id) = (w : Vm) × (w.sandbox_id ≡ id) × IsLatest w candidates

grant-Finds :
    (job : Text) (lease : Lease) (now : ℕ) (vms candidates : List Vm) (found : Option Vm)
    → Latest candidates found
    → Finds candidates (grant job lease now vms found).1
unfolding Latest
grant-Finds job lease now vms candidates none h = h
grant-Finds job lease now vms candidates (some w) h = (w, refl, h)

-- A claim returns nothing only where no row is idle on that runner with that fingerprint and not
-- locked by another transaction; else it returns the one of them that was used last.
pub claim-Finds :
    (locked : Text → Bool) (runner fp job : Text) (lease : Lease) (now : ℕ) (vms : List Vm)
    → Finds (keep (is_candidate locked runner fp) vms) (claim locked runner fp job lease now vms).1
unfolding claim
claim-Finds locked runner fp job lease now vms =
    let candidates = keep (is_candidate locked runner fp) vms in
    grant-Finds job lease now vms candidates (latest candidates) (latest-Latest candidates)

Finds-some :
    (candidates : List Vm) (o : Option Text) (w : Vm)
    → Finds candidates o
    → In w candidates
    → (id : Text) × (o ≡ some id)
Finds-some candidates none w h m = absurd (subst (In w) h m)
Finds-some candidates (some id) w h m = (id, refl)

member-nonempty : (x : Text) (xs : List Text) → member x xs ≡ true → is_empty xs ≡ false
member-nonempty x [] h = ground arith
member-nonempty x (y ∷ ys) h = refl

module _ {N : Type 0} where
  is_orphan-lapsed :
      (db : Db N) (runners : List Text) (me : Text) (now : ℕ) (v : Vm) (t : ℕ)
      → v.status ≡ claimed
      → member v.runner_hd_id runners ≡ true
      → is_other v.leased_by me ≡ true
      → v.leased_until ≡ some t
      → t < now
      → is_orphan db runners me now v ≡ true
  is_orphan-lapsed db runners me now v t st serves other until over =
      rw (st, serves, other, until) (lt→ltb t now over)

  -- A claimed machine whose lease has run out is not lost: after another instance that serves its
  -- runner has reclaimed, a claim for its runner and fingerprint returns a machine, unless another
  -- transaction has that row locked.
  pub release_orphans-claim :
      (db : Db N) (runners : List Text) (me : Text) (now : ℕ) (vms : List Vm)
      → (v : Vm) → In v vms
      → v.status ≡ claimed
      → member v.runner_hd_id runners ≡ true
      → is_other v.leased_by me ≡ true
      → (t : ℕ) → v.leased_until ≡ some t
      → t < now
      → (locked : Text → Bool) → locked v.sandbox_id ≡ false
      → (job : Text) (lease : Lease) (later : ℕ)
      → (id : Text) × ((claim locked v.runner_hd_id v.fingerprint job lease later
            (release_orphans db runners me now vms).0).1
          ≡ some id)
  unfolding release_orphans
  release_orphans-claim db runners me now vms v m st serves other t until over locked free job lease
        later =
      let test : Vm → Bool = is_candidate locked v.runner_hd_id v.fingerprint in
      let after : List Vm = update_where (is_orphan db runners me now) freed vms in
      let orphan : is_orphan db runners me now v ≡ true =
        is_orphan-lapsed db runners me now v t st serves other until over in
      let found : In (freed v) (keep test after) =
        In-keep test (freed v) after
          (In-update_where (is_orphan db runners me now) freed v vms m orphan)
          (ground (arith, text_eq_refl v.runner_hd_id, text_eq_refl v.fingerprint)) in
      subst
        (λ (r : List Vm × ℕ).
          (id : Text) × ((claim locked v.runner_hd_id v.fingerprint job lease later r.0).1
            ≡ some id))
        (sym (
          if-false (is_empty runners) (vms, 0)
            (after, count_where (is_orphan db runners me now) vms)
            (member-nonempty v.runner_hd_id runners serves)))
        (Finds-some (keep test after) _ (freed v)
          (claim-Finds locked v.runner_hd_id v.fingerprint job lease later after) found)
