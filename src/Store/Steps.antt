-- ===== src/Store/Steps.antt =====
-- The rows of `ci_step` and the statements on them, with the log of each step: src/store.rs.
-- The log stands in the row; in the program it is the file that the row names. A log directory that
-- cannot be written is not told apart from a statement that fails.
use ci.Common.{
  ℕ, ◌&&◌, List, [], ◌∷◌, ◌++◌, Option, none, some, Text, text_eq, any, decimal, ◌==◌,
  if◌then◌else◌, Bool, true, false,
}
use ci.Store.Rows.{update_where, coalesce}

pub data StepStatus : Type 0 where
  pending running success failure skipped : StepStatus

-- The index of a row: that of the workflow's step, or one of the three that the program adds.
pub data StepIndex : Type 0 where
  step_at : ℕ → StepIndex
  checkout_index vm_log_index image_log_index : StepIndex

abbrev pub same_index : StepIndex → StepIndex → Bool
same_index (step_at i) (step_at j) = i == j
same_index checkout_index checkout_index = true
same_index vm_log_index vm_log_index = true
same_index image_log_index image_log_index = true
same_index _ _ = false

-- The exit code is an `i32`, read as the pattern of its bits.
pub record StepRow : Type 0 where
  pub id : Text
  pub job_id : Text
  pub idx : StepIndex
  pub name : Text
  pub uses : Option Text
  pub status : StepStatus
  pub operation_id : Option Text
  pub exit_code : Option ℕ
  pub error : Option Text
  pub started_at : Option ℕ
  pub finished_at : Option ℕ
  pub log : Text

-- `format!("{job_id}.{idx}")`.
unfoldable pub step_id : Text → ℕ → Text
step_id job_id idx = job_id ++ (b'.' ∷ decimal idx)

abbrev pub new_step : Text → Text → StepIndex → Text → Option Text → StepRow
new_step id job idx name uses = record {
  id = id;
  job_id = job;
  idx = idx;
  name = name;
  uses = uses;
  status = pending;
  operation_id = none;
  exit_code = none;
  error = none;
  started_at = none;
  finished_at = none;
  log = [];
}

abbrev pub is_place : Text → StepIndex → StepRow → Bool
is_place job idx s = text_eq s.job_id job && same_index s.idx idx

-- `ON CONFLICT (job_id, idx) DO NOTHING`.
unfoldable pub create_step :
    Text → Text → StepIndex → Text → Option Text → List StepRow → List StepRow
create_step id job idx name uses steps =
    if any (is_place job idx) steps then steps else steps ++ new_step id job idx name uses ∷ []

abbrev pub is_step : Text → StepRow → Bool
is_step id s = text_eq s.id id

unfoldable pub start_step : Text → Text → ℕ → List StepRow → List StepRow
start_step id operation now = update_where (is_step id) (λ s. record s {
  status = running;
  operation_id = some operation;
  started_at = coalesce s.started_at (some now);
})

unfoldable pub finish_step :
    Text → StepStatus → Option ℕ → Option Text → ℕ → List StepRow → List StepRow
finish_step id status exit_code error now = update_where (is_step id) (λ s. record s {
  status = status;
  exit_code = exit_code;
  error = error;
  finished_at = some now;
})

unfoldable pub append_log : Text → Text → List StepRow → List StepRow
append_log id text = update_where (is_step id) (λ s. record s { log = s.log ++ text })
