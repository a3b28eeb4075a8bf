-- ===== src/Workflow/Validate/Cycle.antt =====
-- `find_cycle` of src/workflow.rs: a depth-first search with marks. `deps` is the map from ids to
-- needs. A visit that goes deeper has marked one more id, so that one unit of fuel more than there
-- are ids is enough.
use ci.Common.{
  ℕ, zero, suc, List, [], ◌∷◌, ◌++◌, Option, none, some, Text, text_eq, length, map, if◌then◌else◌,
  Result, ok, err, ◌>>=◌,
}
use ci.Json.{map_insert, map_get}

pub data Mark : Type 0 where
  open_mark done_mark : Mark

abbrev pub Marks : Type 0
Marks = List (Text × Mark)

-- A cycle, or the end of this model's fuel.
pub data CycleStop : Type 0 where
  cycle_of : List Text → CycleStop
  out_of_fuel : CycleStop

-- The part of the stack from the node on; all of it where the node is not in it.
abbrev from_node : Text → List Text → Option (List Text)
from_node node [] = none
from_node node (x ∷ xs) =
    let rest = from_node node xs in if text_eq x node then some (x ∷ xs) else rest

abbrev cycle_at : Text → List Text → List Text
cycle_at node stack = elim (from_node node stack) [
  | none ↦ stack ++ node ∷ []
  | some path ↦ path ++ node ∷ []
]

-- `deps`, which holds the last of two equal ids.
abbrev pub deps_from : List (Text × List Text) → List (Text × List Text) → List (Text × List Text)
deps_from deps [] = deps
deps_from deps ((id, needs) ∷ rest) = deps_from (map_insert id needs deps) rest

-- The loop over the needs of a node, or over all jobs: ids that no job has are passed over.
abbrev pub visit_each :
    (Text → Marks → Result CycleStop Marks)
    → List (Text × List Text)
    → List Text
    → Marks
    → Result CycleStop Marks
visit_each go deps [] marks = ok marks
visit_each go deps (n ∷ ns) marks = elim (map_get n deps) [
  | none ↦ visit_each go deps ns marks
  | some needs ↦ go n marks >>= visit_each go deps ns
]

abbrev pub needs_in : List (Text × List Text) → Text → List Text
needs_in deps node = elim (map_get node deps) [ none ↦ [] | some needs ↦ needs ]

-- A node that is marked ends the visit, as done or as the end of a cycle.
abbrev pub marked : Text → List Text → Marks → Mark → Result CycleStop Marks
marked node stack marks done_mark = ok marks
marked node stack marks open_mark = err (cycle_of (cycle_at node stack))

abbrev pub close_node : Text → Marks → Result CycleStop Marks
close_node node marks = ok (map_insert node done_mark marks)

-- `stack` has the oldest node first.
unfoldable pub visit :
    ℕ → List (Text × List Text) → List Text → Text → Marks → Result CycleStop Marks
visit zero deps stack node marks = elim (map_get node marks) [
  | some mark ↦ marked node stack marks mark
  | none ↦ err out_of_fuel
]
visit (suc fuel) deps stack node marks =
    let go = visit fuel deps (stack ++ node ∷ []) in
    elim (map_get node marks) [
      | some mark ↦ marked node stack marks mark
      | none ↦
          visit_each go deps (needs_in deps node) (map_insert node open_mark marks)
          >>= close_node node
    ]

abbrev pub finished : Marks → Result CycleStop (Unit {0})
finished marks = ok tt

unfoldable pub find_cycle : List (Text × List Text) → Result CycleStop (Unit {0})
unfolding visit
find_cycle jobs =
    let deps = deps_from [] jobs in
    visit_each (visit (suc (length jobs)) deps []) deps (map (λ j. j.0) jobs) [] >>= finished
