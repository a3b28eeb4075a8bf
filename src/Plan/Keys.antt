-- ===== src/Plan/Keys.antt =====
-- The keys and labels of jobs in src/plan.rs: display_value, sanitize, unique_key, display_label.
-- The set of used keys is a list; a turn of the last loop meets one more of them, so that their
-- number is enough fuel.
pub mod Fuel
pub mod Tokens
use ci.Common.{
  ℕ, zero, suc, ◌+◌, Bool, true, false, not, ◌||◌, List, [], ◌∷◌, ◌++◌, Option, none, some, Text,
  codes, text_eq, map, any, keep, is_empty, length, is_alnum, trim_matches, join, decimal, ltb,
  ◌==◌, if◌then◌else◌,
}
use ci.Json.{Value, null, bool, number, string, array, object}
use ci.Plan.Order.{member}
use ci.Expr.Lexer.{utf8}

abbrev is_kept : ℕ → Bool
is_kept c = is_alnum c || c == b'_' || c == b'-'

abbrev fold_char : ℕ → ℕ
fold_char c = if is_kept c then c else b'-'

unfoldable pub sanitize : Text → Text
sanitize s = trim_matches (λ c. c == b'-') (map fold_char s)

-- `format!("{base_id}-{n}")`.
abbrev pub numbered : Text → ℕ → Text
numbered base n = base ++ (b'-' ∷ decimal n)

-- The last loop: `key` is the key that it looks at, made with `n`.
unfoldable pub free_key : ℕ → Text → List Text → ℕ → Text → Option Text
free_key zero base used n key = if member key used then none else some key
free_key (suc fuel) base used n key =
    let next = free_key fuel base used (suc n) (numbered base (suc n)) in
    if member key used then next else some key

abbrev pub with_used : List Text → Option Text → Option (Text × List Text)
with_used used none = none
with_used used (some key) = some (key, key ∷ used)

module _ {N : Type 0} (json_text : Value N → Text) where
  -- `Value::to_string` is `json_text`.
  unfoldable pub display_value : Value N → Text
  display_value (string s) = s
  display_value v = json_text v

  abbrev suffix_of : List (Text × Value N) → List Text
  unfolding sanitize display_value
  suffix_of matrix = keep (λ s. not (is_empty s)) (map (λ kv. sanitize (display_value kv.1)) matrix)

  abbrev readable_key : Text → List (Text × Value N) → Text
  unfolding sanitize display_value
  readable_key base matrix =
      let suffix = suffix_of matrix in
      if is_empty suffix then base else base ++ (b'-' ∷ join (codes "-") suffix)

  -- The key before the loop.
  unfoldable pub candidate_key : Text → List (Text × Value N) → ℕ → List Text → Text
  unfolding sanitize display_value
  candidate_key base matrix index used =
      let candidate = readable_key base matrix in
      if ltb 64 (length (utf8 candidate)) || member candidate used
      then numbered base index
      else candidate

  -- The key with the set that holds it too.
  unfoldable pub unique_key :
      Text → List (Text × Value N) → ℕ → List Text → Option (Text × List Text)
  unfolding free_key candidate_key
  unique_key base matrix index used =
      with_used used (free_key (length used) base used index (candidate_key base matrix index used))

  unfoldable pub display_label : Option Text → Text → List (Text × Value N) → Text
  unfolding display_value
  display_label name id matrix =
      let base : Text = elim name [ none ↦ id | some n ↦ n ] in
      let values = map (λ kv. display_value kv.1) matrix in
      if is_empty matrix
      then base
      else base ++ (codes " (" ++ (join (codes ", ") values ++ codes ")"))
