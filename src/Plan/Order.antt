-- ===== src/Plan/Order.antt =====
-- `topological_order` of src/plan.rs: Kahn's algorithm by waves. `done` is a set of base ids, kept
-- as a list; a turn of the loop takes at least one job, so the number of jobs is enough fuel.
pub mod Waves
pub mod Complete
use ci.Common.{
  ℕ, zero, suc, ◌≡◌, Bool, true, false, not, ◌&&◌, ◌||◌, List, [], ◌∷◌, ◌++◌, Text, text_eq, map,
  any, all, keep, is_empty, length, if◌then◌else◌, Result, ok, err,
}
use ci.Plan.Jobs.{JobPlan}

-- `PlanError::Unsatisfiable`, or the end of this model's fuel.
pub data OrderStop : Type 0 where
  unsatisfiable : List Text → OrderStop
  out_of_fuel : OrderStop

abbrev pub member : Text → List Text → Bool
member t ts = any (λ u. text_eq u t) ts

module _ {N : Type 0} where
  abbrev pub is_ready : List Text → JobPlan N → Bool
  is_ready done j = all (λ n. member n done) j.needs

  abbrev pub bases : List (JobPlan N) → List Text
  bases jobs = map (λ j. j.base_id) jobs

  -- Of every job, the needs that no job has as its base id.
  abbrev missing_needs : List Text → List (JobPlan N) → List Text
  missing_needs all_bases [] = []
  missing_needs all_bases (j ∷ js) =
      keep (λ n. not (member n all_bases)) j.needs ++ missing_needs all_bases js

  abbrev pub stuck : List Text → List (JobPlan N) → List Text
  stuck all_bases remaining =
      let missing = missing_needs all_bases remaining in
      if is_empty missing then map (λ j. j.key) remaining else missing

  unfoldable pub order_loop :
      ℕ
      → List Text
      → List Text
      → List (JobPlan N)
      → List (JobPlan N)
      → Result OrderStop (List (JobPlan N))
  order_loop zero all_bases done ordered [] = ok ordered
  order_loop zero all_bases done ordered (j ∷ js) = err out_of_fuel
  order_loop (suc fuel) all_bases done ordered [] = ok ordered
  order_loop (suc fuel) all_bases done ordered (j ∷ js) =
      let wave = keep (is_ready done) (j ∷ js) in
      let rest =
        order_loop fuel all_bases (done ++ bases wave) (ordered ++ wave)
          (keep (λ x. not (is_ready done x)) (j ∷ js)) in
      if is_empty wave then err (unsatisfiable (stuck all_bases (j ∷ js))) else rest

  unfoldable pub topological_order : List (JobPlan N) → Result OrderStop (List (JobPlan N))
  unfolding order_loop
  topological_order jobs = order_loop (length jobs) (bases jobs) [] [] jobs
