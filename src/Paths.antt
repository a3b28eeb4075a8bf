-- ===== src/Paths.antt =====
-- Path globs and the set of paths that a submit changed: src/paths.rs.
-- An index into a text or a list of segments is modelled by the part that starts at it. The proofs
-- are in the modules below: `Segment` (the backtracking loop), `Glob` (whole paths), `Filters`.
pub mod Segment
pub mod Glob
pub mod Changes
use ci.Common.{
  ℕ, zero, suc, ◌+◌, ◌*◌, ◌≡◌, refl, Bool, true, false, not, ◌&&◌, ◌||◌, List, [], ◌∷◌, Option,
  none, some, Text, codes, text_eq, trim, split, strip_prefix, length, is_empty, any, all, ltb,
  ◌==◌, if◌then◌else◌, Result, ok, err,
}
use mathlib.Core.Option

-- The pattern after the last `*` (`pi` at `sp + 1`), and the text from where it resumes (`st`).
abbrev pub Saved : Type 0
Saved = Option (Text × Text)

unfoldable pub only_stars : Text → Bool
only_stars [] = true
only_stars (c ∷ p) = c == b'*' && only_stars p

-- The branch `_ => match star`. The saved text is never empty, as its index is below `t.len()`.
retry : Saved → (Text → Text → Saved → Option Bool) → Option Bool
retry none next = some false
retry (some (sp, [])) next = none
retry (some (sp, x ∷ st)) next = next sp st (some (sp, st))

-- The loop of `match_segment`; `none` means that the fuel ran out.
pub segment_loop : ℕ → Text → Text → Saved → Option Bool
unfolding retry
segment_loop zero p t star = none
segment_loop (suc f) p [] star = some (only_stars p)
segment_loop (suc f) [] (x ∷ t) star = retry star (segment_loop f)
segment_loop (suc f) (c ∷ p) (x ∷ t) star =
    let grown = segment_loop f p (x ∷ t) (some (p, x ∷ t)) in
    let matched = segment_loop f p t star in
    if c == b'*'
    then grown
    else if c == b'?' || c == x
    then matched
    else retry star (segment_loop f)

abbrev pub segment_fuel : Text → Text → ℕ
segment_fuel p t = suc (length t * suc (length p) + length p)

unfoldable pub match_segment : Text → Text → Bool
unfolding segment_loop only_stars
match_segment p t = Option.get_or (segment_loop (segment_fuel p t) p t none) false

-- `(0..=path.len()).any(|i| f(&path[i..]))`
abbrev pub any_suffix {ℓ} : {A : Type ℓ} → (List A → Bool) → List A → Bool
any_suffix f [] = f []
any_suffix f (x ∷ xs) = f (x ∷ xs) || any_suffix f xs

abbrev pub double_star : Text
double_star = codes "**"

abbrev match_first : Text → (List Text → Bool) → List Text → Bool
match_first first rest [] = false
match_first first rest (head ∷ tail) = if match_segment first head then rest tail else false

unfoldable pub match_segments : List Text → List Text → Bool
match_segments [] path = is_empty path
match_segments (first ∷ rest) path =
    let onward = match_segments rest in
    if text_eq first double_star
    then is_empty rest || any_suffix onward path
    else match_first first onward path

-- `trim_start_matches("./")`.
unfoldable pub trim_dot_slash : Text → Text
trim_dot_slash [] = []
trim_dot_slash (c ∷ []) = c ∷ []
trim_dot_slash (c ∷ d ∷ s) =
    let rest = trim_dot_slash s in if c == b'.' && d == b'/' then rest else c ∷ d ∷ s

-- Whether `path` is covered by `pattern`.
unfoldable pub matches : Text → Text → Bool
unfolding match_segments trim_dot_slash
matches pattern path =
    match_segments (split b'/' (trim_dot_slash (trim pattern))) (split b'/' (trim_dot_slash path))
