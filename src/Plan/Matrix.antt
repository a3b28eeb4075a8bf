-- ===== src/Plan/Matrix.antt =====
-- `expand_matrix` of src/plan.rs: the cells of a job's `strategy.matrix`. YAML is read by a library:
-- `Yaml` is what the code asks of a value, and `value_eq` is the `==` of JSON values.
pub mod Cells
use ci.Common.{
  Bool, true, false, not, ◌&&◌, List, [], ◌∷◌, ◌++◌, Option, none, some, Text, codes, text_eq, map,
  any, all, keep, is_empty, sort_by, if◌then◌else◌, Result, ok, err, ◌>>=◌, ◌>>◌, require, map_err,
}
use ci.Json.{Value, map_insert, map_get, insert_all, text_lt}

pub record Yaml (N : Type 0) : Type 1 where
  pub Y : Type 0
  pub as_mapping : Y → Option (List (Y × Y))
  pub as_sequence : Y → Option (List Y)
  pub as_str : Y → Option Text
  -- `serde_json::to_value(v).unwrap_or(Value::Null)`.
  pub to_json : Y → Value N

-- The details of `BadMatrix`.
pub data MatrixProblem : Type 0 where
  not_a_mapping bad_axis_name : MatrixProblem
  not_mappings not_values empty_axis : Text → MatrixProblem

-- The axes, `include` and `exclude`, as the loop over the mapping collects them.
pub record Axes (N : Type 0) : Type 0 where
  pub axes : List (Text × List (Value N))
  pub include : List (List (Text × Value N))
  pub exclude : List (List (Text × Value N))

module _ {N : Type 0} (yaml : Yaml N) where
  open yaml use {Y, as_mapping, as_sequence, as_str, to_json}

  -- `iter().filter_map(…).collect()` into a `BTreeMap`: a later entry replaces an earlier one.
  abbrev collect_map : List (Text × Value N) → List (Y × Y) → List (Text × Value N)
  collect_map acc [] = acc
  collect_map acc ((k, v) ∷ rest) =
      collect_map (elim (as_str k) [ none ↦ acc | some name ↦ map_insert name (to_json v) acc ])
        rest

  unfoldable pub yaml_map_to_json : Y → Option (List (Text × Value N))
  yaml_map_to_json v = elim (as_mapping v) [ none ↦ none | some m ↦ some (collect_map [] m) ]

  abbrev add_entry :
      Option (List (Text × Value N)) → List (List (Text × Value N)) → List (List (Text × Value N))
  add_entry none rest = rest
  add_entry (some entry) rest = entry ∷ rest

  abbrev entries_in : List Y → List (List (Text × Value N))
  unfolding yaml_map_to_json
  entries_in [] = []
  entries_in (v ∷ vs) = add_entry (yaml_map_to_json v) (entries_in vs)

  -- One turn of the loop over the mapping, for a key that is a string.
  abbrev read_axis : Text → Option (List Y) → Axes N → Result MatrixProblem (Axes N)
  unfolding yaml_map_to_json
  read_axis name none found =
      if text_eq name (codes "include")
      then err (not_mappings name)
      else if text_eq name (codes "exclude")
      then err (not_mappings name)
      else err (not_values name)
  read_axis name (some items) found =
      if text_eq name (codes "include")
      then ok (record found { include = entries_in items })
      else if text_eq name (codes "exclude")
      then ok (record found { exclude = entries_in items })
      else ok (record found { axes = found.axes ++ (name, map to_json items) ∷ [] })

  unfoldable pub read_axes : List (Y × Y) → Axes N → Result MatrixProblem (Axes N)
  unfolding yaml_map_to_json
  read_axes [] found = ok found
  read_axes ((k, v) ∷ rest) found = elim (as_str k) [
    | none ↦ err bad_axis_name
    | some name ↦ read_axis name (as_sequence v) found >>= read_axes rest
  ]

module _ {N : Type 0} where
  -- One axis of the product: every cell with every value.
  abbrev pub with_values :
      Text → List (Value N) → List (Text × Value N) → List (List (Text × Value N))
  with_values name [] base = []
  with_values name (v ∷ vs) base = map_insert name v base ∷ with_values name vs base

  abbrev pub cross :
      Text → List (Value N) → List (List (Text × Value N)) → List (List (Text × Value N))
  cross name values [] = []
  cross name values (base ∷ bases) = with_values name values base ++ cross name values bases

  unfoldable pub product :
      List (Text × List (Value N))
      → List (List (Text × Value N))
      → Result MatrixProblem (List (List (Text × Value N)))
  product [] cells = ok cells
  product ((name, values) ∷ axes) cells =
      require (not (is_empty values)) (empty_axis name) >> product axes (cross name values cells)

  module _ (value_eq : Value N → Value N → Bool) where
    -- `combo.get(k) == Some(v)`, for a key that the cell has.
    abbrev pub agrees : Option (Value N) → Value N → Bool
    agrees none v = true
    agrees (some u) v = value_eq u v

    unfoldable pub matches_subset : List (Text × Value N) → List (Text × Value N) → Bool
    matches_subset cell entry = all (λ kv. agrees (map_get kv.0 cell) kv.1) entry

    abbrev pub excluded : List (List (Text × Value N)) → List (Text × Value N) → Bool
    unfolding matches_subset
    excluded exclude cell = any (matches_subset cell) exclude

    -- The body of the loop over `include`.
    unfoldable pub include_entry :
        List (Text × Value N) → List (List (Text × Value N)) → List (List (Text × Value N))
    unfolding matches_subset
    include_entry entry cells =
        if any (λ c. matches_subset c entry) cells
        then map (λ c. if matches_subset c entry then insert_all c entry else c) cells
        else cells ++ entry ∷ []

    unfoldable pub include_all :
        List (List (Text × Value N)) → List (List (Text × Value N)) → List (List (Text × Value N))
    unfolding include_entry
    include_all [] cells = cells
    include_all (entry ∷ rest) cells = include_all rest (include_entry entry cells)

-- `BadMatrix` and `EmptyMatrix`, without the job that they name.
pub data CellsError : Type 0 where
  bad_matrix : MatrixProblem → CellsError
  empty_matrix : CellsError

module _ {N : Type 0} (yaml : Yaml N) (value_eq : Value N → Value N → Bool) where
  open yaml use {Y, as_mapping}

  abbrev some_cells :
      List (List (Text × Value N)) → Result CellsError (List (List (Text × Value N)))
  some_cells [] = err empty_matrix
  some_cells (c ∷ cells) = ok (c ∷ cells)

  -- `strategy.matrix` as it is written, or none.
  unfoldable pub expand_matrix : Option Y → Result CellsError (List (List (Text × Value N)))
  unfolding read_axes product include_all matches_subset
  expand_matrix none = ok ([] ∷ [])
  expand_matrix (some matrix) = elim (as_mapping matrix) [
    | none ↦ err (bad_matrix not_a_mapping)
    | some mapping ↦ do
      found ←
          map_err bad_matrix
            (read_axes yaml mapping (record { axes = []; include = []; exclude = [] }))
      cells ← map_err bad_matrix (product (sort_by (λ a b. text_lt a.0 b.0) found.axes) ([] ∷ []))
      some_cells (
          include_all value_eq found.include
            (keep (λ c. not (excluded value_eq found.exclude c)) cells))
  ]
