-- ===== src/Workflow/Validate/Finish.antt =====
-- A search that finds no cycle leaves its nodes in an order that has the needs of each before it.
use mathlib.Core.Path.{subst}
use ci.Common.{
  suc, ◌≡◌, refl, Bool, true, List, [], ◌∷◌, some, Text, map, length, arith, All, inl, inr, Result,
  ok, >>=-eq-ok,
}
use ci.Json.{map_insert, map_get}
use ci.Json.Maps.{map_get-map_insert-same}
use ci.Plan.Order.{member}
use ci.Workflow.Validate.Cycle.{
  Mark, done_mark, Marks, CycleStop, visit_each, visit, find_cycle, deps_from, finished,
}
use ci.Workflow.Validate.Visits.{
  Good, Finished, LeadsAll, is_id, map_get-insert, unmarked-clash, visit_each-LeadsAll, visit-Leads,
}

empty-Good : (deps : List (Text × List Text)) → Good deps [] []
unfolding Finished map_get
empty-Good deps = record {
  finished = tt;
  listed = λ x e. absurd (nothing x e);
  marked_done = λ x e. absurd (ground arith);
}
  where
    nothing : (x : Text) → map_get {V = Mark} x [] ≡ some done_mark → ⊥
    nothing x e = unmarked-clash refl e

deps_from-is_id :
    (x : Text) (jobs deps : List (Text × List Text))
    → is_id deps x ≡ true
    → is_id (deps_from deps jobs) x ≡ true
deps_from-is_id x [] deps h = h
deps_from-is_id x ((id, needs) ∷ jobs) deps h =
    deps_from-is_id x jobs (map_insert id needs deps) (elim (map_get-insert id x needs deps) [
      | inl (i, q) ↦ rw (q, is_id) refl
      | inr (i, q) ↦ rw (q, is_id) h
    ])

-- Every job is found under its id.
deps_from-ids :
    (jobs deps : List (Text × List Text))
    → All (λ id. is_id (deps_from deps jobs) id ≡ true) (map (λ j. j.0) jobs)
deps_from-ids [] deps = tt
deps_from-ids ((id, needs) ∷ jobs) deps = (
  deps_from-is_id id jobs (map_insert id needs deps)
      (rw (map_get-map_insert-same id needs deps, is_id) refl),
  deps_from-ids jobs (map_insert id needs deps),
)

All-apply :
    (P Q : Text → Bool) (xs : List Text)
    → All (λ x. P x ≡ true → Q x ≡ true) xs
    → All (λ x. P x ≡ true) xs
    → All (λ x. Q x ≡ true) xs
All-apply P Q [] h k = tt
All-apply P Q (x ∷ xs) h k = (h.0 k.0, All-apply P Q xs h.1 k.1)

-- Where the search finds no cycle, there is an order of ids, the last one first, in which no id
-- stands twice, every job has its id, and all needs of an id that are ids of jobs come before it.
pub find_cycle-Finished :
    (jobs : List (Text × List Text))
    → find_cycle jobs ≡ ok tt
    → (order : List Text) × Finished (deps_from [] jobs) order
      × All (λ id. member id order ≡ true) (map (λ j. j.0) jobs)
unfolding find_cycle LeadsAll
find_cycle-Finished jobs e =
    let deps = deps_from [] jobs in
    let ids = map (λ j. j.0) jobs in
    let go : Text → Marks → Result CycleStop Marks = visit (suc (length jobs)) deps [] in
    let (marks, searched, rest) = >>=-eq-ok (visit_each go deps ids []) finished e in
    let (order, grown, each) = subst (LeadsAll deps [] [] ids) searched (
      visit_each-LeadsAll deps go (visit-Leads deps (suc (length jobs)) []) ids [] []
        (empty-Good deps)) in
    (
      order,
      grown.good.finished,
      All-apply (is_id deps) (λ id. member id order) ids each (deps_from-ids jobs []),
    )
