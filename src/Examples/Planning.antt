-- ===== src/Examples/Planning.antt =====
-- The planner at concrete inputs.
use mathlib.Core.List.{Mem, Nodup}
use ci.Common.{
  ℕ, ◌≡◌, ◌≢◌, refl, map, Bool, true, false, List, [], ◌∷◌, Option, none, some, Text, codes,
  text_eq, length, In, All, Result, ok, err, ◌++◌,
}
use ci.Json.{
  Value, Items, Fields, string, array, object, nil, cons, end, field, map_get, map_insert,
}
use ci.Bus.{is_subject_token}
use ci.Expr.Lexer.{utf8}
use ci.Expr.Substitute.{substitute}
use ci.Expr.Substitute.Expressions.{IsBody, literal, ends, replaced, substitute-replaced}
use ci.Workflow.Jobs.{Job, Workflow, Step, stay}
use ci.Workflow.Validate.{validate, ids_of, needs_of, all_differ}
use ci.Workflow.Validate.Cycle.{deps_from, find_cycle, out_of_fuel}
use ci.Workflow.Validate.Visits.{Finished}
use ci.Workflow.Validate.Fuel.{find_cycle-ne-out_of_fuel}
use ci.Workflow.Validate.Sound.{IsJob, validate-Ordered}
use ci.Plan.Jobs.{Plan}
use ci.Plan.Order.{member}
use ci.Plan.Matrix.{Yaml, product}
use ci.Plan.Matrix.Cells.{choices, product-choices}
use ci.Plan.Build.{build}
use ci.Plan.Build.Distinct.{keys, build-keys}
use ci.Plan.Context.{base_context}
use ci.Examples.Data.{world, vm, ship}

abbrev axes : List (Text × List (Value ℕ))
axes =
    (codes "arch", string (codes "x") ∷ string (codes "y") ∷ [])
    ∷ (codes "os", string (codes "l") ∷ [])
    ∷ []

abbrev cells : List (List (Text × Value ℕ))
cells =
    ((codes "arch", string (codes "x")) ∷ (codes "os", string (codes "l")) ∷ [])
    ∷ ((codes "arch", string (codes "y")) ∷ (codes "os", string (codes "l")) ∷ [])
    ∷ []

product-choices_example :
    (length cells ≡ choices axes)
    × ((f : Text → Value ℕ)
        → All (λ axis. In (f axis.0) axis.1) axes
        → (c : List (Text × Value ℕ)) × In c cells
          × All (λ axis. map_get axis.0 c ≡ some (f axis.0)) axes)
unfolding product map_insert
product-choices_example = product-choices axes {cells = cells} refl

-- An expression with a mark in its literal, in front of one that does not parse.
body : IsBody (codes "'a}}'")
body = literal 39 (codes "a}}") [] refl refl ends

substitute-replaced_example :
    (substitute world (base_context world ship) (codes "v ${{'a}}'}} w ${{")
      ≡ codes "v "
        ++ (replaced world (base_context world ship) (codes "'a}}'")
            ++ substitute world (base_context world ship) (codes " w ${{")))
    × (substitute world (base_context world ship) (codes "v ") ≡ codes "v ")
substitute-replaced_example =
    substitute-replaced world (base_context world ship) (codes "v ") (codes "'a}}'")
      (codes " w ${{") refl body

-- YAML as JSON values.
abbrev entries : Fields ℕ → List (Value ℕ × Value ℕ)
entries end = []
entries (field k v fs) = (string k, v) ∷ entries fs

abbrev mapping_of : Value ℕ → Option (List (Value ℕ × Value ℕ))
mapping_of (object fs) = some (entries fs)
mapping_of _ = none

abbrev items : Items ℕ → List (Value ℕ)
items nil = []
items (cons v vs) = v ∷ items vs

abbrev sequence_of : Value ℕ → Option (List (Value ℕ))
sequence_of (array vs) = some (items vs)
sequence_of _ = none

abbrev text_in : Value ℕ → Option Text
text_in (string s) = some s
text_in _ = none

abbrev yaml : Yaml ℕ
yaml = record {
  Y = Value ℕ;
  as_mapping = mapping_of;
  as_sequence = sequence_of;
  as_str = text_in;
  to_json = λ v. v;
}

abbrev same_value : Value ℕ → Value ℕ → Bool
same_value (string a) (string b) = text_eq a b
same_value _ _ = false

abbrev step : Step
step = record {
  name = none;
  id = none;
  condition = none;
  uses = none;
  arguments = [];
  run = some (codes "make");
  shell = none;
  working_directory = none;
  env = [];
  timeout_minutes = none;
  continue_on_error = false;
}

abbrev test_job : Job (Value ℕ)
test_job = record {
  name = none;
  uses = none;
  vm = vm;
  needs = [];
  condition = none;
  strategy = some (record {
    matrix = some (
        object (
          field (codes "os") (array (cons (string (codes "a/b")) (cons (string (codes "a-b")) nil)))
            end));
    max_parallel = none;
    fail_fast = true;
  });
  env = [];
  outputs = [];
  continue_on_error = false;
  timeout_minutes = none;
  fallback = stay;
  steps = step ∷ [];
}

-- It needs the matrix job.
abbrev ship_job : Job (Value ℕ)
ship_job = record test_job { needs = codes "t" ∷ []; strategy = none }

abbrev workflow : Workflow (Value ℕ)
workflow = record {
  path = codes "ci.yml";
  name = none;
  on = codes "submit" ∷ [];
  on_submit = record { branches = []; branches_ignore = []; paths = []; paths_ignore = [] };
  env = [];
  jobs = (codes "s", ship_job) ∷ (codes "t", test_job) ∷ [];
}

abbrev no_plan : Plan ℕ
no_plan = record { workflow_path = []; workflow_name = none; env = []; jobs = [] }

abbrev plan_in : {E : Type 0} → Result E (Plan ℕ) → Plan ℕ
plan_in (err e) = no_plan
plan_in (ok p) = p

abbrev matrix_plan : Plan ℕ
unfolding build
matrix_plan = plan_in (build world yaml same_value workflow)

build-keys_example :
    Nodup (keys matrix_plan.jobs)
    × ((k : Text) → Mem k (keys matrix_plan.jobs) → is_subject_token k ≡ true)
unfolding build matrix_plan is_subject_token utf8 map_insert
build-keys_example =
    build-keys world yaml same_value workflow (refl, (refl, tt)) {plan = matrix_plan} refl

validate-Ordered_example :
    (all_differ (ids_of workflow.jobs) ≡ true)
    × All (IsJob (ids_of workflow.jobs)) workflow.jobs
    × ((order : List Text) × Finished (deps_from [] (needs_of workflow.jobs)) order
        × All (λ id. member id order ≡ true) (map (λ d. d.0) (needs_of workflow.jobs)))
unfolding validate utf8 map_get map_insert
validate-Ordered_example = validate-Ordered workflow refl

circular : List (Text × List Text)
circular = (codes "a", codes "b" ∷ []) ∷ (codes "b", codes "a" ∷ []) ∷ []

find_cycle-ne-out_of_fuel_example : find_cycle circular ≢ err out_of_fuel
find_cycle-ne-out_of_fuel_example = find_cycle-ne-out_of_fuel circular
