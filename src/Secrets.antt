-- ===== src/Secrets.antt =====
-- What a job gets of the secret store and how its values are kept out of the logs: `Resolved` and
-- `Masker` of src/secrets.rs. Reading the store itself is a request to another service.
use ci.Common.{
  ℕ, Bool, ◌||◌, List, [], ◌∷◌, ◌++◌, Text, is_alnum, ◌==◌, codes, length, leb, ltb, keep, map,
  sort_by, contains, replace, if◌then◌else◌,
}
use ci.Expr.Lexer.{utf8}
use ci.Json.{Value, string, object, fields_of}
use ci.VmPool.Fingerprint.{dedup}

abbrev path_char : ℕ → ℕ
path_char c =
    if is_alnum c || c == b'-' || c == b'_' || c == b'.' || c == b':' || c == b'@' then c else b'-'

-- `Secrets::prefix`, with `sanitize`.
unfoldable pub prefix : Text → Text → Text
prefix workflow_id environment =
    codes "ci/" ++ (map path_char workflow_id ++ (b'/' ∷ map path_char environment))

-- The two maps, in the order of their keys.
pub record Resolved : Type 0 where
  pub secrets : List (Text × Text)
  pub vars : List (Text × Text)

-- `MIN_MASK_LEN` and `REDACTED`.
abbrev pub min_mask_len : ℕ
min_mask_len = 4

abbrev pub redacted : Text
redacted = codes "***"

-- `Masker::new`: the values that are long enough, the longest first; lengths are in bytes.
unfoldable pub masker : Resolved → List Text
masker r =
    dedup
      (sort_by longer (keep (λ v. leb min_mask_len (length (utf8 v))) (map (λ e. e.1) r.secrets)))
  where
    longer : Text → Text → Bool
    longer a b = ltb (length (utf8 b)) (length (utf8 a))

unfoldable pub mask : List Text → Text → Text
mask [] text = text
mask (v ∷ values) text = mask values (if contains text v then replace v redacted text else text)

-- `Resolved::scopes`.
module _ {N : Type 0} where
  abbrev text_object : List (Text × Text) → Value N
  text_object m = object (fields_of (map (λ e. (e.0, string e.1)) m))

  unfoldable pub scopes : Resolved → Value N × Value N
  scopes r = (text_object r.secrets, text_object r.vars)
