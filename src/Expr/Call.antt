-- ===== src/Expr/Call.antt =====
-- The scopes of an expression and its functions: `Context` and `Parser::call` of src/expr.rs.
use ci.Common.{
  ℕ, ◌+◌, Bool, true, not, List, [], ◌∷◌, ◌++◌, Option, none, some, Text, codes, text_eq, map, any,
  get_elem?, join, starts_with, ends_with, contains, replace, decimal, if◌then◌else◌, Result, ok,
  err,
}
use mathlib.Core.Option
use ci.Json.{Value, null, bool, string, array, item_list, map_insert, map_get}
use ci.Expr.Values.{World, truthy, loose_eq, walk, to_display}
use ci.Expr.Lexer.{ExprError, unknown_function}
use ci.Paths

module _ (w : World) where
  open w use {Number, F64, json_text, parse_json}

  abbrev pub Context : Type 0
  Context = List (Text × Value Number)

  -- `Context::set` and `set_status`.
  unfoldable pub set_scope : Text → Value Number → Context → Context
  set_scope scope value ctx = map_insert scope value ctx

  unfoldable pub set_status : Text → Context → Context
  unfolding set_scope
  set_status status ctx = set_scope (codes "__status") (string status) ctx

  abbrev as_str : Option (Value Number) → Option Text
  as_str (some (string s)) = some s
  as_str _ = none

  unfoldable pub status : Context → Text
  status ctx = Option.get_or (as_str (map_get (codes "__status") ctx)) (codes "success")

  unfoldable pub lookup : Context → List Text → Value Number
  lookup ctx [] = null
  lookup ctx (first ∷ path) = elim (map_get first ctx) [ none ↦ null | some v ↦ walk w v path ]

  -- `s(i)`.
  abbrev argument_text : List (Value Number) → ℕ → Text
  argument_text args i = Option.get_or (Option.map (to_display w) (get_elem? args i)) []

  abbrev argument : List (Value Number) → ℕ → Value Number
  argument args i = Option.get_or (get_elem? args i) null

  unfoldable pub call_contains : List (Value Number) → Bool
  call_contains (array items ∷ rest) = any (λ i. loose_eq w i (argument rest 0)) (item_list items)
  call_contains args = contains (argument_text args 0) (argument_text args 1)

  -- The loop of `format`: `{i}` for each further argument in turn.
  unfoldable pub format_from : ℕ → Text → List (Value Number) → Text
  format_from i out [] = out
  format_from i out (a ∷ rest) =
      format_from (i + 1) (replace (b'{' ∷ (decimal i ++ b'}' ∷ [])) (to_display w a) out) rest

  abbrev tail_args : List (Value Number) → List (Value Number)
  tail_args [] = []
  tail_args (a ∷ rest) = rest

  abbrev separator : List (Value Number) → Text
  separator (a ∷ b ∷ rest) = to_display w b
  separator _ = codes ","

  unfoldable pub call_join : List (Value Number) → Text
  call_join (array items ∷ rest) =
      join (separator (array items ∷ rest)) (map (to_display w) (item_list items))
  call_join args = argument_text args 0

  -- `changed('a/**', …)`: true where there is no change set to read.
  abbrev changed_in : List (Value Number) → Value Number → Bool
  changed_in args (array files) =
      any (λ pat. any (λ f. Paths.matches (to_display w pat) (to_display w f)) (item_list files))
        args
  changed_in args _ = true

  unfoldable pub call_changed : Context → List (Value Number) → Bool
  call_changed ctx args =
      if not (truthy w (lookup ctx (codes "ci" ∷ codes "changes_known" ∷ [])))
      then true
      else changed_in args (lookup ctx (codes "ci" ∷ codes "changed_files" ∷ []))

  abbrev has_status : Context → Text → Value Number
  has_status ctx s = bool (text_eq (status ctx) s)

  unfoldable pub call : Context → Text → List (Value Number) → Result (ExprError F64) (Value Number)
  unfolding call_contains format_from call_join call_changed
  call ctx name args =
      if text_eq name (codes "contains")
      then ok (bool (call_contains args))
      else if text_eq name (codes "startsWith")
      then ok (bool (starts_with (argument_text args 1) (argument_text args 0)))
      else if text_eq name (codes "endsWith")
      then ok (bool (ends_with (argument_text args 0) (argument_text args 1)))
      else if text_eq name (codes "format")
      then ok (string (format_from 0 (argument_text args 0) (tail_args args)))
      else if text_eq name (codes "join")
      then ok (string (call_join args))
      else if text_eq name (codes "toJSON")
      then ok (string (json_text (argument args 0)))
      else if text_eq name (codes "fromJSON")
      then ok (Option.get_or (parse_json (argument_text args 0)) null)
      else if text_eq name (codes "changed")
      then ok (bool (call_changed ctx args))
      else if text_eq name (codes "success")
      then ok (has_status ctx (codes "success"))
      else if text_eq name (codes "failure")
      then ok (has_status ctx (codes "failure"))
      else if text_eq name (codes "cancelled")
      then ok (has_status ctx (codes "cancelled"))
      else if text_eq name (codes "always")
      then ok (bool true)
      else err (unknown_function name)
