-- ===== src/Paths/Changes.antt =====
-- `Changes` and `validate` of src/paths.rs: what a submit touched, and which patterns are refused.
use ci.Common.{
  ℕ, Bool, true, false, ◌||◌, List, [], ◌∷◌, Option, none, some, Text, codes, decimal, ◌++◌, trim,
  drop_while, length, is_empty, any, all, ltb, ◌==◌, if◌then◌else◌, Checked, ok, err,
}
use ci.Paths.{matches}

-- `MAX_CHANGED_PATHS`.
abbrev pub max_changed_paths : ℕ
max_changed_paths = 5000

-- Why there is no usable diff: one constructor for each text that this file writes, and the
-- caller's own text.
pub data Reason : Type 0 where
  predates : Reason
  too_large : ℕ → Reason
  stated : Text → Reason

pub data Changes : Type 0 where
  known : List Text → Changes
  unknown : Reason → Changes

-- `Changes::default`.
unfoldable pub default_changes : Changes
default_changes = unknown predates

-- `Changes::known`.
unfoldable pub known_changes : List Text → Changes
known_changes paths =
    if ltb max_changed_paths (length paths) then unknown (too_large (length paths)) else known paths

unfoldable pub changed_paths : Changes → List Text
changed_paths (known paths) = paths
changed_paths (unknown r) = []

unfoldable pub is_known : Changes → Bool
is_known (known paths) = true
is_known (unknown r) = false

unfoldable pub reason : Changes → Option Reason
reason (known paths) = none
reason (unknown r) = some r

-- The text of a reason.
unfoldable pub reason_text : Reason → Text
reason_text predates = codes "this run predates change detection"
reason_text (too_large n) =
    codes "the diff touches "
    ++ decimal n
    ++ codes " paths, over the 5000 this records; treating every path filter as matched"
reason_text (stated t) = t

unfoldable pub matches_any : Changes → List Text → Bool
matches_any (unknown r) patterns = true
matches_any (known paths) patterns = any (λ pat. any (λ p. matches pat p) paths) patterns

unfoldable pub all_match : Changes → List Text → Bool
all_match (unknown r) patterns = false
all_match (known paths) patterns =
    if is_empty paths || is_empty patterns
    then false
    else all (λ p. any (λ pat. matches pat p) patterns) paths

-- The three refusals of `validate`, with the texts that its messages quote.
pub data PatternError : Type 0 where
  empty_pattern : PatternError
  negated : (pattern rest : Text) → PatternError
  absolute : (pattern relative : Text) → PatternError

validate_trimmed : Text → Checked PatternError
validate_trimmed [] = err empty_pattern
validate_trimmed (c ∷ rest) =
    if c == b'!'
    then err (negated (c ∷ rest) rest)
    else if c == b'/'
    then err (absolute (c ∷ rest) (drop_while (λ d. d == b'/') (c ∷ rest)))
    else ok tt

unfoldable pub validate : Text → Checked PatternError
unfolding validate_trimmed
validate pattern = validate_trimmed (trim pattern)
