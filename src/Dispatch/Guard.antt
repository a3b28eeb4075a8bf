-- ===== src/Dispatch/Guard.antt =====
-- Whether a job runs: the scopes of a job's `if:` and the default when it has none. From
-- src/dispatch.rs (`should_run`, `ci_scope`), src/store.rs (`needs_context`).
pub mod Defaults
use ci.Common.{
  ℕ, ◌+◌, Bool, true, false, not, ◌&&◌, ◌||◌, List, [], ◌∷◌, ◌++◌, Option, none, some, Text, codes,
  text_eq, map, any, strip_prefix, if◌then◌else◌, Result, ok, err, ◌>>=◌,
}
use mathlib.Core.Option
use ci.Json
use ci.Json.{
  Value, Fields, Items, bool, string, array, object, end, field, nil, cons, get_field, map_insert,
  map_get, insert_all, fields_of,
}
use ci.Expr.Values.{World}
use ci.Expr.Lexer.{Stop}
use ci.Expr.Call.{Context, set_scope, set_status}
use ci.Expr.Eval.{eval_condition}
use ci.Paths.Changes.{Changes, changed_paths, is_known, reason, reason_text}
use ci.Plan.Jobs.{JobPlan}
use ci.Plan.Context.{base_context}
use ci.Store.Status.{JobStatus, job_status_text, worse_of}
use ci.Store.Rows.{Run, JobRow}

-- What the cells of each base id come to.
abbrev pub Cells : Type 0 → Type 0
Cells N = List (Text × (JobStatus × List (Text × Value N)))

abbrev branch_of : Text → Text
branch_of r = Option.get_or (strip_prefix (codes "refs/heads/") r) r

abbrev pub is_bad : Option Text → Bool
is_bad none = false
is_bad (some s) = text_eq s (codes "failure") || text_eq s (codes "cancelled")

module _ {N : Type 0} where
  abbrev pub cell_of : Text → Cells N → JobStatus × List (Text × Value N)
  cell_of base m = Option.get_or (map_get base m) (JobStatus.success, [])

  unfoldable pub note_cell : Cells N → JobRow N → Cells N
  note_cell m j =
      let (result, outputs) = cell_of j.base_id m in
      map_insert j.base_id (worse_of result j.status, insert_all outputs j.outputs) m

  unfoldable pub note_cells : Cells N → List (JobRow N) → Cells N
  unfolding note_cell
  note_cells m [] = m
  note_cells m (j ∷ js) = note_cells (note_cell m j) js

  abbrev pub need_entry : JobStatus × List (Text × Value N) → Value N
  need_entry (result, outputs) = object (
      field (codes "outputs") (object (fields_of outputs))
        (field (codes "result") (string (job_status_text result)) end))

  unfoldable pub entries_of : Cells N → Fields N
  entries_of [] = end
  entries_of ((k, c) ∷ m) = field k (need_entry c) (entries_of m)

  -- `needs_context`, on the jobs of one run.
  unfoldable pub needs_context : List (JobRow N) → Fields N
  unfolding note_cells entries_of
  needs_context jobs = entries_of (note_cells [] jobs)

  abbrev strings : List Text → Items N
  strings [] = nil
  strings (s ∷ ss) = cons (string s) (strings ss)

  unfoldable pub ci_scope : Option Run → Value N
  ci_scope none = object end
  ci_scope (some run) = object (
      fields_of (
        (codes "before", string run.before_sha)
        ∷ (codes "branch", string (branch_of run.git_ref))
        ∷ (codes "changed_files", array (strings (changed_paths run.changes)))
        ∷ (codes "changes_known", bool (is_known run.changes))
        ∷ (
          codes "changes_reason",
          string (Option.get_or (Option.map reason_text (reason run.changes)) []),
        )
        ∷ (codes "ref", string run.git_ref)
        ∷ (codes "repository", string run.repo_url)
        ∷ (codes "run_id", string run.id)
        ∷ (codes "sha", string run.sha)
        ∷ (codes "workflow", string run.workflow_id)
        ∷ []))

  abbrev pub text_of : Option (Value N) → Option Text
  text_of (some (string s)) = some s
  text_of _ = none

  abbrev pub result_of : Option (Value N) → Option Text
  result_of (some (object fs)) = text_of (get_field (codes "result") fs)
  result_of _ = none

  -- `any_failed` inside `should_run`.
  unfoldable pub any_failed : List Text → Fields N → Bool
  any_failed names needs = any (λ n. is_bad (result_of (get_field n needs))) names

module _ (w : World) where
  open w use {Number, F64}

  -- `should_run`.
  unfoldable pub should_run : JobPlan Number → Fields Number → Value Number → Result (Stop F64) Bool
  unfolding any_failed base_context
  should_run plan needs ci =
      let failed = any_failed plan.needs needs in
      elim plan.condition [
        | none ↦ ok (not failed)
        | some condition ↦
            eval_condition w
              (set_status w (if failed then codes "failure" else codes "success") (
                set_scope w (codes "ci") ci
                  (set_scope w (codes "needs") (object needs) (base_context w plan))))
              condition
      ]
