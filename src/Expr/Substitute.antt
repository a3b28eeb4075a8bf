-- ===== src/Expr/Substitute.antt =====
-- `Context::substitute` and `find_close` of src/expr.rs: the `${{ … }}` in a text. The marks are
-- ASCII, so that the code works on the bytes of a text as on its characters.
pub mod Expressions
use ci.Common.{
  ℕ, zero, suc, ◌+◌, Bool, true, false, ◌&&◌, ◌||◌, List, [], ◌∷◌, ◌++◌, Option, none, some, Text,
  codes, length, strip_prefix, ◌==◌, if◌then◌else◌, Result, ok, err,
}
use ci.Json.{Value}
use ci.Expr.Values.{World, to_display}
use ci.Expr.Lexer.{next_is}
use ci.Expr.Call.{Context}
use ci.Expr.Eval.{eval}

-- The loop's `quote`, and that the next byte is the second one of an escaped quote.
pub data Scan : Type 0 where
  plain : Scan
  inside : ℕ → Scan
  escaped : ℕ → Scan

abbrev quote_char : ℕ
quote_char = 39

abbrev next_scan : Scan → ℕ → Text → Scan
next_scan plain c s = if c == quote_char || c == b'"' then inside c else plain
next_scan (inside q) c s =
    if c == q
    then (if q == quote_char && next_is quote_char s then escaped q else plain)
    else inside q
next_scan (escaped q) c s = inside q

abbrev closes : Scan → ℕ → Text → Bool
closes plain c s = c == b'}' && next_is b'}' s
closes _ c s = false

abbrev after_one : Text → Text
after_one [] = []
after_one (c ∷ s) = s

abbrev on_first : ℕ → Option (Text × Text) → Option (Text × Text)
on_first c none = none
on_first c (some (e, r)) = some (c ∷ e, r)

-- The text before the closing `}}` and the text after it.
unfoldable pub find_close : Scan → Text → Option (Text × Text)
find_close scan [] = none
find_close scan (c ∷ s) =
    let rest = find_close (next_scan scan c s) s in
    if closes scan c s then some ([], after_one s) else on_first c rest

abbrev pub open_mark : Text
open_mark = codes "${{"

abbrev pub close_mark : Text
close_mark = codes "}}"

-- The result of `eval`, with `to_display`; none stands for an error.
module _ (value : Text → Option Text) where
  abbrev pub shown : Text → Option Text → Text
  shown e none = open_mark ++ (e ++ close_mark)
  shown e (some v) = v

  -- What a text that starts with a mark is replaced by, and how many of the characters after the
  -- first go with it: all of them where no mark closes.
  abbrev pub expression : Text → Option (Text × Text) → Text × ℕ
  expression body none = (open_mark ++ body, 2 + length body)
  expression body (some (e, rest)) = (shown e (value e), 2 + length e + 2)

  abbrev pub piece : ℕ → Option Text → Text × ℕ
  unfolding find_close
  piece c none = (c ∷ [], 0)
  piece c (some body) = expression body (find_close plain body)

  -- The first argument counts the characters that the last expression still takes.
  unfoldable pub substitute_from : ℕ → Text → Text
  unfolding find_close
  substitute_from taken [] = []
  substitute_from (suc taken) (c ∷ s) = substitute_from taken s
  substitute_from zero (c ∷ s) =
      let (out, size) = piece c (strip_prefix open_mark (c ∷ s)) in out ++ substitute_from size s

module _ (w : World) where
  open w use {Number, F64}

  abbrev displayed : {E : Type 0} → Result E (Value Number) → Option Text
  displayed (err e) = none
  displayed (ok v) = some (to_display w v)

  unfoldable pub substitute : Context w → Text → Text
  unfolding substitute_from to_display eval
  substitute ctx = substitute_from (λ e. displayed (eval w ctx e)) 0
