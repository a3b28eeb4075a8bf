-- ===== src/Plan/Order/Complete.antt =====
-- That an order is found whenever there is one.
use ci.Common.{
  ℕ, zero, suc, ◌≡◌, ◌≢◌, refl, ap, sym, ◌∙◌, Bool, true, false, not, ◌&&◌, ◌||◌, List, [], ◌∷◌,
  ◌++◌, Text, text_eq, any, all, keep, is_empty, length, Result, ok, err, arith, Bool-cases, inl,
  inr, text_eq→eq, text_eq_refl,
}
use mathlib.Core.Path.{subst}
use mathlib.Core.Bool.{Bool-set}
use mathlib.Core.Logic.{∥∥₁_elim}
use mathlib.Core.List.{Perm, Permᴰ, append_assoc}
use mathlib.Core.List.Perm
use ci.Plan.Jobs.{JobPlan}
use ci.Plan.Order.{
  OrderStop, unsatisfiable, out_of_fuel, member, is_ready, bases, order_loop, topological_order,
}
use ci.Plan.Order.Waves.{
  NeedsFirst, Perm-keep, bases-append, order_loop-step, topological_order-ne-out_of_fuel,
}

ready-weaken :
    (d e ns : List Text)
    → ((n : Text) → member n d ≡ true → member n e ≡ true)
    → all (λ n. member n d) ns ≡ true
    → all (λ n. member n e) ns ≡ true
ready-weaken d e [] f h = refl
ready-weaken d e (n ∷ ns) f h = ground (arith, f n, ready-weaken d e ns f)

any-append : (p : Text → Bool) (d e : List Text) → any p (d ++ e) ≡ (any p d || any p e)
any-append p [] e = refl
any-append p (x ∷ d) e = ground (arith, any-append p d e)

-- A set that holds `d` and one more name holds their union.
member-snoc :
    (d e : List Text) (x n : Text)
    → ((m : Text) → member m d ≡ true → member m e ≡ true)
    → member x e ≡ true
    → member n (d ++ x ∷ []) ≡ true
    → member n e ≡ true
member-snoc d e x n f p h = elim (Bool-cases (text_eq x n)) [
  | inl t ↦ subst (λ z. member z e ≡ true) (text_eq→eq x n t) p
  | inr t ↦ f n (ground (arith, any-append (λ u. text_eq u n) d (x ∷ [])))
]

module _ {N : Type 0} where
  all-Permᴰ : (p : JobPlan N → Bool) (xs ys : List (JobPlan N)) → Permᴰ xs ys → all p xs ≡ all p ys
  all-Permᴰ p _ _ Permᴰ.nil = refl
  all-Permᴰ p _ _ (Permᴰ.cons {a = a} {b = b} {l₁ = xs} {l₂ = ys} e d) =
      let h = ap p e in let t = all-Permᴰ p xs ys d in ground arith
  all-Permᴰ p _ _ (Permᴰ.swap {a = a} {b = b} {a' = c} {b' = d} {l = l} e f) =
      let h = ap p e in let k = ap p f in ground arith
  all-Permᴰ p _ _ (Permᴰ.trans {l₁ = xs} {l₂ = ys} {l₃ = zs} d e) =
      all-Permᴰ p xs ys d ∙ all-Permᴰ p ys zs e

  all-append :
      (p : JobPlan N → Bool) (xs ys : List (JobPlan N)) → all p (xs ++ ys) ≡ (all p xs && all p ys)
  all-append p [] ys = refl
  all-append p (x ∷ xs) ys = ground (arith, all-append p xs ys)

  none-ready :
      (p : JobPlan N → Bool) (xs : List (JobPlan N))
      → is_empty (keep p xs) ≡ true
      → all (λ x. not (p x)) xs ≡ true
  none-ready p [] h = refl
  none-ready p (x ∷ xs) h = ground (arith, none-ready p xs)

  all-weaken :
      (p q : JobPlan N → Bool) (xs : List (JobPlan N))
      → ((x : JobPlan N) → p x ≡ true → q x ≡ true)
      → all p xs ≡ true
      → all q xs ≡ true
  all-weaken p q [] f h = refl
  all-weaken p q (x ∷ xs) f h = ground (arith, f x, all-weaken p q xs f)

  -- In an order that puts needs first, every job is ready once each job that is ready is placed.
  all-ready :
      (d done : List Text) (order : List (JobPlan N))
      → ((n : Text) → member n d ≡ true → member n done ≡ true)
      → NeedsFirst d order
      → all (λ x. not (is_ready done x) || member x.base_id done) order ≡ true
      → all (is_ready done) order ≡ true
  all-ready d done [] f h k = refl
  all-ready d done (x ∷ xs) f h k =
      let r = ready-weaken d done x.needs f h.0 in
      let placed : member x.base_id done ≡ true = ground arith in
      let rest =
        all-ready (d ++ x.base_id ∷ []) done xs (λ n m. member-snoc d done x.base_id n f placed m)
          h.1 (ground arith) in
      ground arith

  all-Perm : (p : JobPlan N → Bool) (xs ys : List (JobPlan N)) → Perm xs ys → all p xs ≡ all p ys
  all-Perm p xs ys h = ∥∥₁_elim h (Bool-set (all p xs) (all p ys)) (all-Permᴰ p xs ys)

  base-placed :
      (done : List Text) (xs : List (JobPlan N))
      → ((x : Text) → member x (bases xs) ≡ true → member x done ≡ true)
      → all (λ x. member x.base_id done) xs ≡ true
  base-placed done [] f = refl
  base-placed done (x ∷ xs) f =
      let here = f x.base_id (ground (arith, text_eq_refl x.base_id)) in
      let rest = base-placed done xs (λ n h. f n (ground arith)) in ground arith

  -- With an order at hand, the loop is never left with jobs of which none is ready.
  some-ready :
      (done : List Text) (ordered : List (JobPlan N)) (j : JobPlan N) (js order : List (JobPlan N))
      → bases ordered ≡ done
      → Perm order (ordered ++ (j ∷ js))
      → NeedsFirst [] order
      → is_empty (keep (is_ready done) (j ∷ js)) ≡ false
  some-ready done ordered j js order d perm first =
      elim (Bool-cases (is_empty (keep (is_ready done) (j ∷ js)))) [
        | inr e ↦ e
        | inl e ↦
            let waits : JobPlan N → Bool = λ x. not (is_ready done x) || member x.base_id done in
            let left =
              all-weaken (λ x. not (is_ready done x)) waits (j ∷ js) (λ x h. ground arith)
                (none-ready (is_ready done) (j ∷ js) e) in
            let put =
              all-weaken (λ x. member x.base_id done) waits ordered (λ x h. ground arith)
                (base-placed done ordered (λ n h. subst (λ z. member n z ≡ true) d h)) in
            let both : all waits (ordered ++ (j ∷ js)) ≡ true =
              ground (arith, all-append waits ordered (j ∷ js)) in
            let ready =
              all-ready [] done order (λ n h. ground arith) first
                (all-Perm waits order (ordered ++ (j ∷ js)) perm ∙ both) in
            let again : all (is_ready done) (ordered ++ (j ∷ js)) ≡ true =
              sym (all-Perm (is_ready done) order (ordered ++ (j ∷ js)) perm) ∙ ready in
            let no = none-ready (is_ready done) (j ∷ js) e in
            ground (arith, all-append (is_ready done) ordered (j ∷ js))
      ]

  Perm-wave :
      (done : List Text) (ordered jobs order : List (JobPlan N))
      → Perm order (ordered ++ jobs)
      → Perm order
          ((ordered ++ keep (is_ready done) jobs) ++ keep (λ x. not (is_ready done x)) jobs)
  Perm-wave done ordered jobs order h =
      let wave = keep (is_ready done) jobs in
      let left = keep (λ x. not (is_ready done x)) jobs in
      Perm.trans h (
        subst (Perm (ordered ++ jobs)) (sym (append_assoc ordered wave left))
          (Perm.append_left ordered (Perm.symm (Perm-keep (is_ready done) jobs))))

  order_loop-never-stuck :
      (fuel : ℕ) (all_bases done : List Text) (ordered jobs order : List (JobPlan N))
      (names : List Text)
      → bases ordered ≡ done
      → Perm order (ordered ++ jobs)
      → NeedsFirst [] order
      → order_loop fuel all_bases done ordered jobs ≢ err (unsatisfiable names)
  unfolding order_loop
  order_loop-never-stuck zero ab done ordered [] order names d perm first e = ground arith
  order_loop-never-stuck zero ab done ordered (j ∷ js) order names d perm first e = ground arith
  order_loop-never-stuck (suc fuel) ab done ordered [] order names d perm first e = ground arith
  order_loop-never-stuck (suc fuel) ab done ordered (j ∷ js) order names d perm first e =
      let wave = keep (is_ready done) (j ∷ js) in
      let b = some-ready done ordered j js order d perm first in
      order_loop-never-stuck fuel ab (done ++ bases wave) (ordered ++ wave)
        (keep (λ x. not (is_ready done x)) (j ∷ js)) order names
        (bases-append ordered wave ∙ ap (λ z. z ++ bases wave) d)
        (Perm-wave done ordered (j ∷ js) order perm) first
        (sym (order_loop-step fuel ab done ordered j js b) ∙ e)

  -- Jobs that can be put in an order with needs first are put in one: the plan is refused only
  -- where no such order exists.
  pub topological_order_complete :
      (jobs order : List (JobPlan N))
      → Perm order jobs
      → NeedsFirst [] order
      → (out : List (JobPlan N)) × (topological_order jobs ≡ ok out)
  topological_order_complete jobs order perm first = go (topological_order jobs) refl
    where
      go :
          (r : Result OrderStop (List (JobPlan N)))
          → topological_order jobs ≡ r
          → (out : List (JobPlan N)) × (topological_order jobs ≡ ok out)
      go (ok out) e = (out, e)
      go (err out_of_fuel) e = absurd (topological_order-ne-out_of_fuel jobs e)
      go (err (unsatisfiable names)) e = absurd (
          order_loop-never-stuck (length jobs) (bases jobs) [] [] jobs order names refl perm first
            (unfold topological_order in e))
