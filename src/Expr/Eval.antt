-- ===== src/Expr/Eval.antt =====
-- The parser of src/expr.rs, which evaluates as it parses. `self.tokens` from `self.pos` on is the
-- list of the tokens that are left.
pub mod Atoms
pub mod Fuel
use ci.Common.{
  ℕ, zero, suc, Bool, true, false, not, List, [], ◌∷◌, ◌++◌, Option, none, some, Text, codes,
  text_eq, trim, strip_prefix, is_empty, length, if◌then◌else◌, Result, ok, err, ◌>>=◌,
}
use mathlib.Core.List.{reverse}
use ci.Json.{Value, null, bool, string}
use ci.Expr.Values.{World, truthy, loose_eq, as_number, walk, to_number, to_display}
use ci.Expr.Lexer.{
  Tok, ExprError, Stop, ident, str, num, dot, lparen, rparen, comma, eq_eq, not_eq, gt, ge, lt, le,
  and, or, bang, fault, out_of_fuel, unclosed_paren, trailing_dot, unexpected, trailing, tokenize,
}
use ci.Expr.Call.{Context, lookup, call}

-- The comparison operators of `parse_cmp`.
pub data CmpOp : Type 0 where
  eq_op ne_op gt_op ge_op lt_op le_op : CmpOp

module _ (w : World) (ctx : Context w) where
  open w use {F64, Number, fgt, fge, flt, fle}

  abbrev pub Tokens : Type 0
  Tokens = List (Tok F64)

  abbrev pub Parser : Type 0 → Type 0
  Parser A = Tokens → Result (Stop F64) (A × Tokens)

  abbrev pub Val : Type 0
  Val = Value Number

  -- `continue`s of the postfix loop: the segments read so far, in order.
  unfoldable pub parse_segments : List Text → Parser (List Text)
  parse_segments segs (dot ∷ ident seg ∷ ts) = parse_segments (segs ++ seg ∷ []) ts
  parse_segments segs (dot ∷ num n ∷ ts) =
      parse_segments (segs ++ to_display w (to_number w n) ∷ []) ts
  parse_segments segs (dot ∷ ts) = err (fault (trailing_dot segs))
  parse_segments segs ts = ok (segs, ts)

  -- Bare keywords, then a context path.
  unfoldable pub keyword : Text → Val
  keyword name =
      if text_eq name (codes "true")
      then bool true
      else if text_eq name (codes "false")
      then bool false
      else if text_eq name (codes "null")
      then null
      else lookup w ctx (name ∷ [])

  abbrev lift_call : Result (ExprError F64) Val → Tokens → Result (Stop F64) (Val × Tokens)
  lift_call (ok v) ts = ok (v, ts)
  lift_call (err e) ts = err (fault e)

  -- An order is false unless both sides are numbers.
  abbrev ordered : (F64 → F64 → Bool) → Option F64 → Option F64 → Bool
  ordered test (some x) (some y) = test x y
  ordered test none y = false
  ordered test (some x) none = false

  unfoldable pub compare_values : CmpOp → Val → Val → Bool
  compare_values eq_op a b = loose_eq w a b
  compare_values ne_op a b = not (loose_eq w a b)
  compare_values gt_op a b = ordered fgt (as_number w a) (as_number w b)
  compare_values ge_op a b = ordered fge (as_number w a) (as_number w b)
  compare_values lt_op a b = ordered flt (as_number w a) (as_number w b)
  compare_values le_op a b = ordered fle (as_number w a) (as_number w b)

  unfoldable pub cmp_op : Tok F64 → Option CmpOp
  cmp_op eq_eq = some eq_op
  cmp_op not_eq = some ne_op
  cmp_op gt = some gt_op
  cmp_op ge = some ge_op
  cmp_op lt = some lt_op
  cmp_op le = some le_op
  cmp_op _ = none

  -- The levels of the grammar, over `expr`, which is `parse_or` one level of brackets down.
  module _ (expr : Parser Val) where
    unfoldable pub close_paren : Val → Tokens → Result (Stop F64) (Val × Tokens)
    close_paren v (rparen ∷ ts) = ok (v, ts)
    close_paren v ts = err (fault unclosed_paren)

    -- The `loop` over the arguments of a call, from behind one argument.
    unfoldable pub more_args : Parser (List Val) → Val → Parser (List Val)
    more_args next v (comma ∷ ts) = next ts >>= λ (vs, rest). ok (v ∷ vs, rest)
    more_args next v (rparen ∷ ts) = ok (v ∷ [], ts)
    more_args next v ts = err (fault unclosed_paren)

    unfoldable pub parse_args : ℕ → Parser (List Val)
    unfolding more_args
    parse_args zero ts = err out_of_fuel
    parse_args (suc f) ts = expr ts >>= λ (v, rest). more_args (parse_args f) v rest

    unfoldable pub call_args : Parser (List Val)
    unfolding parse_args
    call_args (rparen ∷ ts) = ok ([], ts)
    call_args ts = parse_args (suc (length ts)) ts

    unfoldable pub parse_atom : Parser Val
    unfolding close_paren call_args
    parse_atom (lparen ∷ ts) = expr ts >>= λ (v, rest). close_paren v rest
    parse_atom (str s ∷ ts) = ok (string s, ts)
    parse_atom (num n ∷ ts) = ok (to_number w n, ts)
    parse_atom (ident name ∷ lparen ∷ ts) =
        call_args ts >>= λ (args, rest). lift_call (call w ctx name args) rest
    parse_atom (ident name ∷ ts) = ok (keyword name, ts)
    parse_atom (t ∷ ts) = err (fault (unexpected (some t)))
    parse_atom [] = err (fault (unexpected none))

    unfoldable pub parse_primary : Parser Val
    unfolding parse_atom parse_segments
    parse_primary ts = parse_atom ts >>= λ (base, rest).
        parse_segments [] rest >>= λ (segs, rest'). ok (walk w base segs, rest')

    abbrev after_operand : Option CmpOp → Val → Tokens → Tokens → Result (Stop F64) (Val × Tokens)
    after_operand none left all_tokens rest = ok (left, all_tokens)
    after_operand (some op) left all_tokens rest =
        parse_primary rest >>= λ (right, rest'). ok (bool (compare_values op left right), rest')

    unfoldable pub compare_rest : Val → Tokens → Result (Stop F64) (Val × Tokens)
    unfolding parse_primary
    compare_rest left [] = ok (left, [])
    compare_rest left (t ∷ ts) = after_operand (cmp_op t) left (t ∷ ts) ts

    unfoldable pub parse_cmp : Parser Val
    unfolding compare_rest
    parse_cmp ts = parse_primary ts >>= λ (left, rest). compare_rest left rest

    unfoldable pub parse_not : Parser Val
    unfolding parse_cmp
    parse_not (bang ∷ ts) = parse_not ts >>= λ (v, rest). ok (bool (not (truthy w v)), rest)
    parse_not ts = parse_cmp ts

    -- `while self.eat(&Tok::And)`. Each round eats a token, so the number of tokens is fuel enough.
    unfoldable pub and_loop : ℕ → Val → Tokens → Result (Stop F64) (Val × Tokens)
    unfolding parse_not
    and_loop zero left (and ∷ ts) = err out_of_fuel
    and_loop (suc f) left (and ∷ ts) =
        parse_not ts >>= λ (right, rest). and_loop f (if truthy w left then right else left) rest
    and_loop f left ts = ok (left, ts)

    unfoldable pub parse_and : Parser Val
    unfolding and_loop
    parse_and ts = parse_not ts >>= λ (left, rest). and_loop (length rest) left rest

    unfoldable pub or_loop : ℕ → Val → Tokens → Result (Stop F64) (Val × Tokens)
    unfolding parse_and
    or_loop zero left (or ∷ ts) = err out_of_fuel
    or_loop (suc f) left (or ∷ ts) =
        parse_and ts >>= λ (right, rest). or_loop f (if truthy w left then left else right) rest
    or_loop f left ts = ok (left, ts)

    unfoldable pub or_level : Parser Val
    unfolding or_loop
    or_level ts = parse_and ts >>= λ (left, rest). or_loop (length rest) left rest

  -- `parse_or`, by the depth of brackets that is left.
  unfoldable pub parse_or : ℕ → Parser Val
  unfolding or_level
  parse_or zero ts = err out_of_fuel
  parse_or (suc d) ts = or_level (parse_or d) ts

  abbrev whole : Val × Tokens → Result (Stop F64) Val
  whole (v, []) = ok v
  whole (v, t ∷ ts) = err (fault (trailing t))

  -- `eval` behind the tokenizer, and `eval`.
  unfoldable pub eval_tokens : Tokens → Result (Stop F64) Val
  unfolding parse_or
  eval_tokens ts = parse_or (suc (length ts)) ts >>= whole

  unfoldable pub eval : Text → Result (Stop F64) Val
  unfolding eval_tokens
  eval s = tokenize w s >>= eval_tokens

  abbrev condition_body : Option Text → Text → Text
  condition_body none expr = expr
  condition_body (some rest) expr = elim (strip_prefix (reverse (codes "}}")) (reverse rest)) [
    | none ↦ rest
    | some inner ↦ reverse inner
  ]

  unfoldable pub eval_condition : Text → Result (Stop F64) Bool
  unfolding eval
  eval_condition condition =
      let expr = trim condition in
      if is_empty expr
      then ok true
      else eval (condition_body (strip_prefix (codes "${{") expr) expr) >>= λ v. ok (truthy w v)
