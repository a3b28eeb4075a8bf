-- ===== src/Dispatch/Guard/Defaults.antt =====
-- What the default guard of a job comes to, through the `needs` object of src/store.rs.
use ci.Common.{
  ◌≡◌, refl, ap, sym, ◌∙◌, Bool, false, not, ◌&&◌, ◌||◌, List, [], ◌∷◌, Option, none, some, Text,
  text_eq, text_eq→eq, any, ok, arith, Bool-cases, inl, inr,
}
use mathlib.Core.Option
use ci.Json.{insert_all, Value, get_field, map_insert, map_get}
use ci.Json.Maps.{map_get-map_insert-same, map_get-map_insert-other}
use ci.Expr.Values.{World}
use ci.Plan.Jobs.{JobPlan}
use ci.Store.Status.{JobStatus, job_status_text, worse_of, rank}
use ci.Store.Rows.{JobRow, is_failure, is_cancelled}
use ci.Dispatch.Guard.{
  Cells, cell_of, note_cell, note_cells, entries_of, need_entry, needs_context, is_bad, result_of,
  any_failed, should_run,
}

-- A result that stops the jobs that need it.
abbrev pub is_stop : JobStatus → Bool
is_stop s = is_failure s || is_cancelled s

is_stop-worse_of : (a b : JobStatus) → is_stop (worse_of a b) ≡ (is_stop a || is_stop b)
unfolding worse_of rank
is_stop-worse_of a b = ground arith

or_false : (a : Bool) → a ≡ (a || false)
or_false a = ground arith

is_bad-text : (s : JobStatus) → is_bad (some (job_status_text s)) ≡ is_stop s
unfolding job_status_text
is_bad-text s = ground arith

pub any-ext :
    {A : Type 0} (p q : A → Bool) → ((a : A) → p a ≡ q a) → (xs : List A) → any p xs ≡ any q xs
any-ext p q h [] = refl
any-ext p q h (x ∷ xs) = ground (arith, h x, any-ext p q h xs)

module _ {N : Type 0} where
  abbrev stops : Text → Cells N → Bool
  stops n m = is_stop (cell_of n m).0

  abbrev pub cell_stops : Text → JobRow N → Bool
  cell_stops n j = text_eq j.base_id n && is_stop j.status

  cell_of-insert :
      (k : Text) (v : JobStatus × List (Text × Value N)) (m : Cells N)
      → cell_of k (map_insert k v m) ≡ v
  cell_of-insert k v m =
      ap (λ o. Option.get_or o (JobStatus.success, [])) (map_get-map_insert-same k v m)

  cell_of-insert-other :
      (k n : Text) (v : JobStatus × List (Text × Value N)) (m : Cells N)
      → text_eq k n ≡ false
      → cell_of n (map_insert k v m) ≡ cell_of n m
  cell_of-insert-other k n v m h =
      ap (λ o. Option.get_or o (JobStatus.success, [])) (map_get-map_insert-other k n v m h)

  stops-note_cell :
      (n : Text) (m : Cells N) (j : JobRow N)
      → stops n (note_cell m j) ≡ (stops n m || cell_stops n j)
  unfolding note_cell
  stops-note_cell n m j = elim (Bool-cases (text_eq j.base_id n)) [
    | inl e ↦
        let q = text_eq→eq j.base_id n e in
        let c = cell_of j.base_id m in
        let v : JobStatus × List (Text × Value N) =
          (worse_of c.0 j.status, insert_all c.1 j.outputs) in
        let here : stops j.base_id (map_insert j.base_id v m) ≡ is_stop (worse_of c.0 j.status) =
          ap (λ r. is_stop r.0) (cell_of-insert j.base_id v m) in
        let there : stops n (map_insert j.base_id v m)
            ≡ stops j.base_id (map_insert j.base_id v m) =
          ap (λ x. stops x (map_insert j.base_id v m)) (sym q) in
        let from : stops j.base_id m ≡ stops n m = ap (λ x. stops x m) q in
        let w = is_stop-worse_of c.0 j.status in
        there
        ∙ here
        ∙ w
        ∙ ap (λ b. b || is_stop j.status) from
        ∙ ap (λ b. stops n m || (b && is_stop j.status)) (sym e)
    | inr e ↦
        let c = cell_of j.base_id m in
        let v : JobStatus × List (Text × Value N) =
          (worse_of c.0 j.status, insert_all c.1 j.outputs) in
        let u : stops n (map_insert j.base_id v m) ≡ stops n m =
          ap (λ r. is_stop r.0) (cell_of-insert-other j.base_id n v m e) in
        u ∙ or_false (stops n m) ∙ ap (λ b. stops n m || (b && is_stop j.status)) (sym e)
  ]

  stops-note_cells :
      (n : Text) (m : Cells N) (js : List (JobRow N))
      → stops n (note_cells m js) ≡ (stops n m || any (cell_stops n) js)
  unfolding note_cells
  stops-note_cells n m [] = ground arith
  stops-note_cells n m (j ∷ js) =
      ground (arith, stops-note_cell n m j, stops-note_cells n (note_cell m j) js)

  get_field-entries_of :
      (n : Text) (m : Cells N) → get_field n (entries_of m) ≡ Option.map need_entry (map_get n m)
  unfolding get_field entries_of map_get
  get_field-entries_of n [] = refl
  get_field-entries_of n ((k, c) ∷ m) = ground (arith, get_field-entries_of n m)

  is_bad-entries :
      (n : Text) (m : Cells N) → is_bad (result_of (get_field n (entries_of m))) ≡ stops n m
  unfolding get_field
  is_bad-entries n m =
      ap (λ o. is_bad (result_of o)) (get_field-entries_of n m) ∙ entry (map_get n m)
    where
      entry :
          (o : Option (JobStatus × List (Text × Value N)))
          → is_bad (result_of (Option.map need_entry o))
            ≡ is_stop (Option.get_or o (JobStatus.success, [])).0
      entry none = refl
      entry (some c) = is_bad-text c.0

  any_failed-needs_context :
      (names : List Text) (js : List (JobRow N))
      → any_failed names (needs_context js) ≡ any (λ n. any (cell_stops n) js) names
  unfolding any_failed needs_context map_get
  any_failed-needs_context names js =
      any-ext _ _ (λ n. is_bad-entries n (note_cells [] js) ∙ stops-note_cells n [] js) names

-- A job without an `if:` runs exactly when no cell of a job that it needs failed or was cancelled.
pub should_run-default :
    (w : World) (plan : JobPlan (w.numerics.Number)) (jobs : List (JobRow (w.numerics.Number)))
    (ci : Value (w.numerics.Number))
    → plan.condition ≡ none
    → should_run w plan (needs_context jobs) ci
      ≡ ok (not (any (λ n. any (cell_stops n) jobs) plan.needs))
unfolding should_run
should_run-default w plan jobs ci h = ground (arith, any_failed-needs_context plan.needs jobs)
