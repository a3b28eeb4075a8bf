-- ===== src/Workflow/Validate/Fuel.antt =====
-- The search for a cycle ends within its fuel.
use mathlib.Core.Path.{subst}
use ci.Common.{
  ◌⊎◌, ℕ, zero, suc, ◌≤◌, ◌<◌, ◌≡◌, ◌≢◌, refl, sym, ap, ◌∙◌, Bool, true, false, List, [], ◌∷◌, ◌++◌,
  Option, none, some, Text, text_eq, text_eq→eq, map, keep, length, arith, Bool-cases, inl, inr,
  Result, ok, err, ◌>>=◌,
}
use ci.Json.{map_insert, map_get}
use ci.Json.Maps.{map_get-map_insert-same}
use ci.Plan.Order.{member}
use ci.Workflow.Validate.Visits.{map_get-insert}
use ci.Workflow.Validate.Cycle.{
  Mark, open_mark, done_mark, Marks, CycleStop, cycle_of, out_of_fuel, visit_each, needs_in, marked,
  close_node, visit, find_cycle, deps_from, finished,
}

abbrev is_none : Option Mark → Bool
is_none none = true
is_none (some mark) = false

abbrev is_unmarked : Marks → Text → Bool
is_unmarked marks id = is_none (map_get id marks)

-- Nothing loses its mark.
Keeps : Marks → Marks → Type 0
Keeps m m' = (x : Text) → is_unmarked m' x ≡ true → is_unmarked m x ≡ true

abbrev unmarked : List Text → Marks → ℕ
unmarked ids m = length (keep (is_unmarked m) ids)

unmarked-le : (ids : List Text) (m m' : Marks) → Keeps m m' → unmarked ids m' ≤ unmarked ids m
unfolding Keeps
unmarked-le [] m m' k = omega arith
unmarked-le (x ∷ xs) m m' k = ground (arith, k x, unmarked-le xs m m' k)

-- One more mark on an id lowers the number.
unmarked-lt :
    (ids : List Text) (m m' : Marks) (node : Text)
    → Keeps m m'
    → is_unmarked m node ≡ true
    → is_unmarked m' node ≡ false
    → member node ids ≡ true
    → unmarked ids m' < unmarked ids m
unfolding Keeps
unmarked-lt [] m m' node k before after mem = ground arith
unmarked-lt (x ∷ xs) m m' node k before after mem = elim (Bool-cases (text_eq x node)) [
  | inl e ↦
      let was : is_unmarked m x ≡ true =
        subst (λ y. is_unmarked m y ≡ true) (sym (text_eq→eq x node e)) before in
      let now : is_unmarked m' x ≡ false =
        subst (λ y. is_unmarked m' y ≡ false) (sym (text_eq→eq x node e)) after in
      ground (arith, unmarked-le xs m m' k)
  | inr e ↦ ground (arith, k x, unmarked-lt xs m m' node k before after (ground arith))
]

insert-Keeps : (node : Text) (mark : Mark) (m : Marks) → Keeps m (map_insert node mark m)
unfolding Keeps
insert-Keeps node mark m x u = elim (map_get-insert node x mark m) [
  | inl (i, q) ↦ absurd (clash (sym (ap is_none q) ∙ u))
  | inr (i, q) ↦ sym (ap is_none q) ∙ u
]
  where
    clash : false ≡ true → ⊥
    clash e = ground arith

-- The result is no lack of fuel, and where it is marks, nothing lost its mark.
Ends : Marks → Result CycleStop Marks → Type 0
Ends m (err out_of_fuel) = ⊥
Ends m (err (cycle_of c)) = Unit {0}
Ends m (ok m') = Keeps m m'

widen-Ends : (m m' : Marks) (r : Result CycleStop Marks) → Keeps m m' → Ends m' r → Ends m r
unfolding Ends Keeps
widen-Ends m m' (err out_of_fuel) k h = h
widen-Ends m m' (err (cycle_of c)) k h = tt
widen-Ends m m' (ok m'') k h = λ x u. k x (h x u)

then-Ends :
    (m : Marks) (r : Result CycleStop Marks) (next : Marks → Result CycleStop Marks)
    → Ends m r
    → ((m' : Marks) → Keeps m m' → Ends m' (next m'))
    → Ends m (r >>= next)
unfolding Ends
then-Ends m (err out_of_fuel) next h k = h
then-Ends m (err (cycle_of c)) next h k = tt
then-Ends m (ok m') next h k = widen-Ends m m' (next m') h (k m' h)

module _ (deps : List (Text × List Text)) (ids : List Text)
    (known : (n : Text) (needs : List Text)
      → map_get n deps ≡ some needs
      → member n ids ≡ true) where
  module _ (go : Text → Marks → Result CycleStop Marks) (bound : ℕ)
      (ends : (n : Text) (m : Marks)
        → member n ids ≡ true
        → unmarked ids m < bound
        → Ends m (go n m)) where
    visit_each-Ends :
        (needs : List Text) (m : Marks)
        → unmarked ids m < bound
        → Ends m (visit_each go deps needs m)
    unfolding Ends Keeps
    visit_each-Ends [] m h = λ x u. u
    visit_each-Ends (n ∷ ns) m h = by_id (map_get n deps) refl (visit_each-Ends ns)
      where
        by_id :
            (o : Option (List Text))
            → map_get n deps ≡ o
            → ((m' : Marks) → unmarked ids m' < bound → Ends m' (visit_each go deps ns m'))
            → Ends m (elim o [
              | none ↦ visit_each go deps ns m
              | some needs ↦ go n m >>= visit_each go deps ns
            ])
        by_id none e rest = rest m h
        by_id (some needs) e rest =
            then-Ends m (go n m) (visit_each go deps ns) (ends n m (known n needs e) h)
              (λ m' k. rest m' (omega (arith, unmarked-le ids m m' k)))

  marked-Ends :
      (node : Text) (stack : List Text) (m : Marks) (mark : Mark)
      → Ends m (marked node stack m mark)
  unfolding Ends Keeps
  marked-Ends node stack m open_mark = tt
  marked-Ends node stack m done_mark = λ x u. u

  visit-Ends :
      (fuel : ℕ) (stack : List Text) (node : Text) (m : Marks)
      → member node ids ≡ true
      → unmarked ids m < fuel
      → Ends m (visit fuel deps stack node m)
  unfolding visit
  visit-Ends zero stack node m i h = absurd (omega arith)
  visit-Ends (suc fuel) stack node m i h =
      by_mark (map_get node m) refl (visit-Ends fuel (stack ++ node ∷ []))
    where
      go : Text → Marks → Result CycleStop Marks
      go = visit fuel deps (stack ++ node ∷ [])

      by_mark :
          (o : Option Mark)
          → map_get node m ≡ o
          → ((n : Text) (m' : Marks)
              → member n ids ≡ true
              → unmarked ids m' < fuel
              → Ends m' (go n m'))
          → Ends m (elim o [
            | some mark ↦ marked node stack m mark
            | none ↦
                visit_each go deps (needs_in deps node) (map_insert node open_mark m)
                >>= close_node node
          ])
      by_mark none e deeper =
          let opened = map_insert node open_mark m in
          let fewer =
            unmarked-lt ids m opened node (insert-Keeps node open_mark m) (ap is_none e)
              (ap is_none (map_get-map_insert-same node open_mark m)) i in
          widen-Ends m opened _ (insert-Keeps node open_mark m) (
            then-Ends opened (visit_each go deps (needs_in deps node) opened) (close_node node)
              (visit_each-Ends go fuel deeper (needs_in deps node) opened (omega (arith, fewer)))
              (λ m' k. unfold Ends in insert-Keeps node done_mark m'))
      by_mark (some mark) e deeper = marked-Ends node stack m mark

-- The ids of `deps` are those of the jobs.
deps_from-known :
    (n : Text) (needs : List Text) (jobs deps : List (Text × List Text))
    → map_get n (deps_from deps jobs) ≡ some needs
    → (member n (map (λ j. j.0) jobs) ≡ true) ⊎ (map_get n deps ≡ some needs)
deps_from-known n needs [] deps e = inr e
deps_from-known n needs ((id, ns) ∷ jobs) deps e =
    elim (deps_from-known n needs jobs (map_insert id ns deps) e) [
      | inl m ↦ inl (ground arith)
      | inr f ↦ elim (map_get-insert id n ns deps) [
        | inl (i, q) ↦ inl (ground arith)
        | inr (i, q) ↦ inr (sym q ∙ f)
      ]
    ]

nothing-known : (n : Text) (needs : List Text) → map_get n [] ≡ some needs → ⊥
unfolding map_get
nothing-known n needs e = cc

length-map : {A : Type 0} (f : A → Text) (xs : List A) → length (map f xs) ≡ length xs
length-map f [] = refl
length-map f (x ∷ xs) = omega (arith, length-map f xs)

length-keep-le : (test : Text → Bool) (xs : List Text) → length (keep test xs) ≤ length xs
length-keep-le test [] = omega arith
length-keep-le test (x ∷ xs) = ground (arith, length-keep-le test xs)

-- The search ends, with a cycle or without one, and not for a lack of fuel.
pub find_cycle-ne-out_of_fuel : (jobs : List (Text × List Text)) → find_cycle jobs ≢ err out_of_fuel
unfolding find_cycle
find_cycle-ne-out_of_fuel jobs = ends (visit_each go deps ids []) searched
  where
    deps : List (Text × List Text)
    deps = deps_from [] jobs

    ids : List Text
    ids = map (λ j. j.0) jobs

    go : Text → Marks → Result CycleStop Marks
    go = visit (suc (length jobs)) deps []

    known : (n : Text) (needs : List Text) → map_get n deps ≡ some needs → member n ids ≡ true
    known n needs e = elim (deps_from-known n needs jobs [] e) [
      | inl m ↦ m
      | inr f ↦ absurd (nothing-known n needs f)
    ]

    searched : Ends [] (visit_each go deps ids [])
    searched =
        visit_each-Ends deps ids known go (suc (length jobs))
          (visit-Ends deps ids known (suc (length jobs)) []) ids []
          (omega (arith, length-keep-le (is_unmarked []) ids, length-map (λ j. j.0) jobs))

    ends : (r : Result CycleStop Marks) → Ends [] r → (r >>= finished) ≢ err out_of_fuel
    ends (err out_of_fuel) h e = absurd (unfold Ends in h)
    ends (err (cycle_of c)) h e = cc
    ends (ok m) h e = cc
