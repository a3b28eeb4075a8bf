-- ===== src/Plan/Order/Waves.antt =====
-- What the order of a plan promises: it is the jobs of the plan, each after all that it needs.
use ci.Common.{
  ℕ, zero, suc, ◌+◌, ◌≤◌, ◌≡◌, ◌≢◌, refl, ap, sym, ◌∙◌, Bool, true, false, not, List, [], ◌∷◌, ◌++◌,
  Text, all, keep, is_empty, length, if◌then◌else◌, if-true, if-false, Result, ok, err, arith,
  Bool-cases, inl, inr,
}
use mathlib.Core.Path.{subst}
use mathlib.Core.List.{Perm, perm_middle, append_assoc, append-nil}
use mathlib.Core.List.Perm
use ci.Plan.Jobs.{JobPlan}
use ci.Plan.Order.{
  OrderStop, unsatisfiable, out_of_fuel, member, stuck, is_ready, bases, order_loop,
  topological_order,
}

pub member-append : (n : Text) (d e : List Text) → member n d ≡ true → member n (d ++ e) ≡ true
member-append n [] e h = ground arith
member-append n (x ∷ d) e h = ground (arith, member-append n d e)

pub ready-append :
    (d e ns : List Text) → all (λ n. member n d) ns ≡ true → all (λ n. member n (d ++ e)) ns ≡ true
ready-append d e [] h = refl
ready-append d e (n ∷ ns) h = ground (arith, member-append n d e, ready-append d e ns)

module _ {N : Type 0} where
  -- Every job needs only base ids of `done` or of the jobs before it.
  abbrev pub NeedsFirst : List Text → List (JobPlan N) → Type 0
  NeedsFirst done [] = Unit
  NeedsFirst done (j ∷ js) = (is_ready done j ≡ true) × NeedsFirst (done ++ j.base_id ∷ []) js

  length-keep :
      (p : JobPlan N → Bool) (xs : List (JobPlan N))
      → length (keep p xs) + length (keep (λ x. not (p x)) xs) ≡ length xs
  length-keep p [] = refl
  length-keep p (x ∷ xs) = ground (arith, length-keep p xs)

  length-pos : (xs : List (JobPlan N)) → is_empty xs ≡ false → 1 ≤ length xs
  length-pos [] h = ground arith
  length-pos (x ∷ xs) h = omega arith

  -- One wave and then the rest.
  pub order_loop-step :
      (fuel : ℕ) (all_bases done : List Text) (ordered : List (JobPlan N)) (j : JobPlan N)
      (js : List (JobPlan N))
      → is_empty (keep (is_ready done) (j ∷ js)) ≡ false
      → order_loop (suc fuel) all_bases done ordered (j ∷ js)
        ≡ order_loop fuel all_bases
            (done ++ bases (keep (is_ready done) (j ∷ js)))
            (ordered ++ keep (is_ready done) (j ∷ js))
            (keep (λ x. not (is_ready done x)) (j ∷ js))
  unfolding order_loop
  order_loop-step fuel ab done ordered j js b = if-false _ _ _ b

  pub order_loop-stuck :
      (fuel : ℕ) (all_bases done : List Text) (ordered : List (JobPlan N)) (j : JobPlan N)
      (js : List (JobPlan N))
      → is_empty (keep (is_ready done) (j ∷ js)) ≡ true
      → order_loop (suc fuel) all_bases done ordered (j ∷ js)
        ≡ err (unsatisfiable (stuck all_bases (j ∷ js)))
  unfolding order_loop
  order_loop-stuck fuel ab done ordered j js b = if-true _ _ _ b

  pub order_loop-ne-out_of_fuel :
      (fuel : ℕ) (all_bases done : List Text) (ordered jobs : List (JobPlan N))
      → length jobs ≤ fuel
      → order_loop fuel all_bases done ordered jobs ≢ err out_of_fuel
  unfolding order_loop
  order_loop-ne-out_of_fuel zero ab done ordered [] h e = ground arith
  order_loop-ne-out_of_fuel zero ab done ordered (j ∷ js) h e = ground arith
  order_loop-ne-out_of_fuel (suc fuel) ab done ordered [] h e = ground arith
  order_loop-ne-out_of_fuel (suc fuel) ab done ordered (j ∷ js) h e =
      let wave = keep (is_ready done) (j ∷ js) in
      let left = keep (λ x. not (is_ready done x)) (j ∷ js) in
      let split = length-keep (is_ready done) (j ∷ js) in
      elim (Bool-cases (is_empty wave)) [
        | inl b ↦ let u = order_loop-stuck fuel ab done ordered j js b in ground arith
        | inr b ↦
            order_loop-ne-out_of_fuel fuel ab (done ++ bases wave) (ordered ++ wave) left
              (omega (arith, split, h, length-pos wave b))
              (sym (order_loop-step fuel ab done ordered j js b) ∙ e)
      ]

  Perm-place :
      (b : Bool) (x : JobPlan N) (ins outs xs : List (JobPlan N))
      → Perm (ins ++ outs) xs
      → Perm ((if b then x ∷ ins else ins) ++ (if not b then x ∷ outs else outs)) (x ∷ xs)
  Perm-place true x ins outs xs h = Perm.cons x h
  Perm-place false x ins outs xs h = Perm.trans (perm_middle ins outs) (Perm.cons x h)

  pub Perm-keep :
      (p : JobPlan N → Bool) (xs : List (JobPlan N))
      → Perm (keep p xs ++ keep (λ x. not (p x)) xs) xs
  Perm-keep p [] = Perm.refl []
  Perm-keep p (x ∷ xs) =
      Perm-place (p x) x (keep p xs) (keep (λ x. not (p x)) xs) xs (Perm-keep p xs)

  all-placed :
      (ordered out : List (JobPlan N))
      → ◌≡◌ {A = Result OrderStop (List (JobPlan N))} (ok ordered) (ok out)
      → Perm out (ordered ++ [])
  all-placed ordered out e =
      let same : ordered ≡ out = ground arith in
      subst (λ o. Perm o (ordered ++ [])) same
        (subst (Perm ordered) (sym (append-nil ordered)) (Perm.refl ordered))

  order_loop-Perm :
      (fuel : ℕ) (all_bases done : List Text) (ordered jobs out : List (JobPlan N))
      → order_loop fuel all_bases done ordered jobs ≡ ok out
      → Perm out (ordered ++ jobs)
  unfolding order_loop
  order_loop-Perm zero ab done ordered [] out e = all-placed ordered out e
  order_loop-Perm zero ab done ordered (j ∷ js) out e = ground arith
  order_loop-Perm (suc fuel) ab done ordered [] out e = all-placed ordered out e
  order_loop-Perm (suc fuel) ab done ordered (j ∷ js) out e =
      let wave = keep (is_ready done) (j ∷ js) in
      let left = keep (λ x. not (is_ready done x)) (j ∷ js) in
      elim (Bool-cases (is_empty wave)) [
        | inl b ↦ let u = order_loop-stuck fuel ab done ordered j js b in ground arith
        | inr b ↦
            let ih =
              order_loop-Perm fuel ab (done ++ bases wave) (ordered ++ wave) left out
                (sym (order_loop-step fuel ab done ordered j js b) ∙ e) in
            let split = Perm.append_left ordered (Perm-keep (is_ready done) (j ∷ js)) in
            Perm.trans (subst (Perm out) (append_assoc ordered wave left) ih) split
      ]

  NeedsFirst-wave :
      (d e : List Text) (js : List (JobPlan N)) → NeedsFirst (d ++ e) (keep (is_ready d) js)
  NeedsFirst-wave d e [] = tt
  NeedsFirst-wave d e (j ∷ js) = elim (Bool-cases (is_ready d j)) [
    | inl b ↦ subst (NeedsFirst (d ++ e)) (sym (if-true _ _ _ b)) (
      ready-append d e j.needs b,
      subst (λ z. NeedsFirst z (keep (is_ready d) js)) (sym (append_assoc d e (j.base_id ∷ [])))
          (NeedsFirst-wave d (e ++ j.base_id ∷ []) js),
    )
    | inr b ↦ subst (NeedsFirst (d ++ e)) (sym (if-false _ _ _ b)) (NeedsFirst-wave d e js)
  ]

  NeedsFirst-append :
      (d : List Text) (xs ys : List (JobPlan N))
      → NeedsFirst d xs
      → NeedsFirst (d ++ bases xs) ys
      → NeedsFirst d (xs ++ ys)
  NeedsFirst-append d [] ys h k = subst (λ e. NeedsFirst e ys) (append-nil d) k
  NeedsFirst-append d (x ∷ xs) ys h k = (
    h.0,
    NeedsFirst-append (d ++ x.base_id ∷ []) xs ys h.1
        (subst (λ e. NeedsFirst e ys) (sym (append_assoc d (x.base_id ∷ []) (bases xs))) k),
  )

  pub bases-append : (xs ys : List (JobPlan N)) → bases (xs ++ ys) ≡ bases xs ++ bases ys
  bases-append [] ys = refl
  bases-append (x ∷ xs) ys = ap (λ t. x.base_id ∷ t) (bases-append xs ys)

  order_loop-NeedsFirst :
      (fuel : ℕ) (all_bases done : List Text) (ordered jobs out : List (JobPlan N))
      → bases ordered ≡ done
      → NeedsFirst [] ordered
      → order_loop fuel all_bases done ordered jobs ≡ ok out
      → NeedsFirst [] out
  unfolding order_loop
  order_loop-NeedsFirst zero ab done ordered [] out d h e =
      let same : ordered ≡ out = ground arith in subst (NeedsFirst []) same h
  order_loop-NeedsFirst zero ab done ordered (j ∷ js) out d h e = ground arith
  order_loop-NeedsFirst (suc fuel) ab done ordered [] out d h e =
      let same : ordered ≡ out = ground arith in subst (NeedsFirst []) same h
  order_loop-NeedsFirst (suc fuel) ab done ordered (j ∷ js) out d h e =
      let wave = keep (is_ready done) (j ∷ js) in
      let left = keep (λ x. not (is_ready done x)) (j ∷ js) in
      elim (Bool-cases (is_empty wave)) [
        | inl b ↦ let u = order_loop-stuck fuel ab done ordered j js b in ground arith
        | inr b ↦
            let placed : NeedsFirst done wave =
              subst (λ z. NeedsFirst z wave) (append-nil done) (NeedsFirst-wave done [] (j ∷ js)) in
            order_loop-NeedsFirst fuel ab (done ++ bases wave) (ordered ++ wave) left out
              (bases-append ordered wave ∙ ap (λ z. z ++ bases wave) d)
              (NeedsFirst-append [] ordered wave h (subst (λ z. NeedsFirst z wave) (sym d) placed))
              (sym (order_loop-step fuel ab done ordered j js b) ∙ e)
      ]

  -- The fuel is enough: the loop ends with an order or with the jobs that cannot be placed.
  pub topological_order-ne-out_of_fuel :
      (jobs : List (JobPlan N)) → topological_order jobs ≢ err out_of_fuel
  unfolding topological_order
  topological_order-ne-out_of_fuel jobs =
      order_loop-ne-out_of_fuel (length jobs) (bases jobs) [] [] jobs (omega arith)

  -- An order that is returned holds the same jobs, the same number of times each, and every job in
  -- it stands after jobs whose base ids are all that it needs.
  pub topological_order-Perm :
      (jobs out : List (JobPlan N))
      → topological_order jobs ≡ ok out
      → Perm out jobs × NeedsFirst [] out
  unfolding topological_order
  topological_order-Perm jobs out e = (
    order_loop-Perm (length jobs) (bases jobs) [] [] jobs out e,
    order_loop-NeedsFirst (length jobs) (bases jobs) [] [] jobs out refl tt e,
  )
