-- ===== src/Workflow/Filter.antt =====
-- `SubmitFilter` of src/workflow.rs: the branch and path filters of `on: submit:`.
pub mod Laws
use ci.Common.{
  Bool, true, false, not, ◌||◌, List, [], ◌∷◌, Option, none, some, Text, is_empty, any, find,
  if◌then◌else◌, Checked, ok, err, ◌>>=◌, ◌>>◌, require, map_err,
}
use ci.Paths.{matches}
use ci.Paths.Changes.{Changes, PatternError, matches_any, all_match, validate}

pub record SubmitFilter : Type 0 where
  pub branches : List Text
  pub branches_ignore : List Text
  pub paths : List Text
  pub paths_ignore : List Text

pub data FilterField : Type 0 where
  branches branches_ignore paths paths_ignore : FilterField

-- `ConflictingFilter` with its field `a`, and `BadFilter`.
pub data FilterError : Type 0 where
  conflicting : FilterField → FilterError
  bad_filter : FilterField → PatternError → FilterError

-- The inner loop of `validate`: the first pattern that is refused ends it.
validate_patterns : FilterField → List Text → Checked FilterError
validate_patterns field [] = ok tt
validate_patterns field (pattern ∷ rest) = do
  map_err (bad_filter field) (validate pattern)
  validate_patterns field rest

unfoldable pub validate_filter : SubmitFilter → Checked FilterError
unfolding validate_patterns
validate_filter f = do
  require (is_empty f.paths || is_empty f.paths_ignore) (conflicting paths)
  require (is_empty f.branches || is_empty f.branches_ignore) (conflicting branches)
  validate_patterns branches f.branches
  validate_patterns branches_ignore f.branches_ignore
  validate_patterns paths f.paths
  validate_patterns paths_ignore f.paths_ignore

-- Why a submit builds nothing: one constructor for each text of `admits`, with what it quotes.
pub data Refusal : Type 0 where
  branch_not_listed : Text → Refusal
  branch_ignored : (branch hit : Text) → Refusal
  nothing_changed : Changes → Refusal
  all_ignored : Refusal

abbrev check_ignored : Text → Option Text → Checked Refusal
check_ignored branch none = ok tt
check_ignored branch (some hit) = err (branch_ignored branch hit)

unfoldable pub admits : SubmitFilter → Text → Changes → Checked Refusal
admits f branch changes = do
  require (is_empty f.branches || any (λ p. matches p branch) f.branches) (branch_not_listed branch)
  check_ignored branch (find (λ p. matches p branch) f.branches_ignore)
  require (is_empty f.paths || matches_any changes f.paths) (nothing_changed changes)
  require (not (all_match changes f.paths_ignore)) all_ignored
