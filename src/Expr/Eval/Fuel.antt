-- ===== src/Expr/Eval/Fuel.antt =====
-- That the fuel of the parser in src/expr.rs is enough: every level uses up tokens.
use ci.Common.{
  ℕ, zero, suc, ◌≤◌, ◌<◌, ◌≡◌, ◌≢◌, refl, true, List, [], ◌∷◌, Option, none, some, Text, length,
  lt→ltb, Result, ok, err, ◌>>=◌, arith,
}
use ci.Expr.Values.{World}
use ci.Expr.Lexer.{
  Tok, Stop, ident, str, num, dot, lparen, rparen, comma, eq_eq, not_eq, gt, ge, lt, le, and, or,
  bang, fault, out_of_fuel, tokenize,
}
use ci.Expr.Lexer.Fuel.{tokenize-ne-out_of_fuel}
use ci.Expr.Call.{Context}
use ci.Expr.Eval.{
  Parser, Val, parse_segments, parse_atom, parse_primary, after_operand, compare_rest, parse_cmp,
  parse_not, and_loop, parse_and, or_loop, or_level, parse_or, CmpOp, cmp_op, whole, eval_tokens,
  eval,
}
use ci.Expr.Eval.Atoms.{fits, fits_mono, fits-bind, segments-fit, atom-fit}

module _ (w : World) (ctx : Context w) where
  open w use {F64, Number}

  module _ (expr : Parser w ctx (Val w ctx)) (d : ℕ)
      (good : (ts : List (Tok F64)) → length ts < d → fits (length ts) (expr ts) ≡ true) where
    primary-fit :
        (ts : List (Tok F64))
        → length ts ≤ d
        → fits (length ts) (parse_primary w ctx expr ts) ≡ true
    unfolding parse_primary
    primary-fit ts h =
        fits-bind (length ts) (length ts) (parse_atom w ctx expr ts) _
          (atom-fit w ctx expr d good ts h)
          (λ base rest r.
            fits-bind (suc (length rest)) (length ts) (parse_segments w ctx [] rest) _
              (segments-fit w ctx [] rest)
              (λ segs rest' q. lt→ltb (length rest') (length ts) (omega (arith, r, q))))

    compare_rest-fit :
        (left : Val w ctx) (ts : List (Tok F64))
        → length ts ≤ d
        → fits (suc (length ts)) (compare_rest w ctx expr left ts) ≡ true
    unfolding compare_rest
    compare_rest-fit left [] h = refl
    compare_rest-fit left (t ∷ ts) h = operand (cmp_op w ctx t)
      where
        operand :
            (o : Option CmpOp)
            → fits (suc (suc (length ts))) (after_operand w ctx expr o left (t ∷ ts) ts) ≡ true
        operand none = lt→ltb (suc (length ts)) (suc (suc (length ts))) (omega arith)
        operand (some op) =
            fits-bind (length ts) (suc (suc (length ts))) (parse_primary w ctx expr ts) _
              (primary-fit ts (omega (arith, h)))
              (λ right rest r. lt→ltb (length rest) (suc (suc (length ts))) (omega (arith, r)))

    cmp-fit :
        (ts : List (Tok F64)) → length ts ≤ d → fits (length ts) (parse_cmp w ctx expr ts) ≡ true
    unfolding parse_cmp
    cmp-fit ts h =
        fits-bind (length ts) (length ts) (parse_primary w ctx expr ts) _ (primary-fit ts h)
          (λ left rest r.
            fits_mono (suc (length rest)) (length ts) (compare_rest w ctx expr left rest)
              (omega (arith, r)) (compare_rest-fit left rest (omega (arith, r, h))))

    not-fit :
        (ts : List (Tok F64)) → length ts ≤ d → fits (length ts) (parse_not w ctx expr ts) ≡ true
    unfolding parse_not
    not-fit [] h = cmp-fit [] h
    not-fit (bang ∷ ts) h =
        fits-bind (length ts) (suc (length ts)) (parse_not w ctx expr ts) _
          (not-fit ts (omega (arith, h)))
          (λ v rest r. lt→ltb (length rest) (suc (length ts)) (omega (arith, r)))
    not-fit (ident x ∷ ts) h = cmp-fit (ident x ∷ ts) h
    not-fit (str x ∷ ts) h = cmp-fit (str x ∷ ts) h
    not-fit (num x ∷ ts) h = cmp-fit (num x ∷ ts) h
    not-fit (dot ∷ ts) h = cmp-fit (dot ∷ ts) h
    not-fit (lparen ∷ ts) h = cmp-fit (lparen ∷ ts) h
    not-fit (rparen ∷ ts) h = cmp-fit (rparen ∷ ts) h
    not-fit (comma ∷ ts) h = cmp-fit (comma ∷ ts) h
    not-fit (eq_eq ∷ ts) h = cmp-fit (eq_eq ∷ ts) h
    not-fit (not_eq ∷ ts) h = cmp-fit (not_eq ∷ ts) h
    not-fit (gt ∷ ts) h = cmp-fit (gt ∷ ts) h
    not-fit (ge ∷ ts) h = cmp-fit (ge ∷ ts) h
    not-fit (lt ∷ ts) h = cmp-fit (lt ∷ ts) h
    not-fit (le ∷ ts) h = cmp-fit (le ∷ ts) h
    not-fit (and ∷ ts) h = cmp-fit (and ∷ ts) h
    not-fit (or ∷ ts) h = cmp-fit (or ∷ ts) h

    and_loop-fit :
        (f : ℕ) (left : Val w ctx) (ts : List (Tok F64))
        → length ts ≤ d
        → length ts ≤ f
        → fits (suc (length ts)) (and_loop w ctx expr f left ts) ≡ true
    unfolding and_loop
    and_loop-fit zero left [] h k = refl
    and_loop-fit zero left (ident x ∷ ts) h k =
        lt→ltb (suc (length ts)) (suc (suc (length ts))) (omega arith)
    and_loop-fit zero left (str x ∷ ts) h k =
        lt→ltb (suc (length ts)) (suc (suc (length ts))) (omega arith)
    and_loop-fit zero left (num x ∷ ts) h k =
        lt→ltb (suc (length ts)) (suc (suc (length ts))) (omega arith)
    and_loop-fit zero left (dot ∷ ts) h k =
        lt→ltb (suc (length ts)) (suc (suc (length ts))) (omega arith)
    and_loop-fit zero left (lparen ∷ ts) h k =
        lt→ltb (suc (length ts)) (suc (suc (length ts))) (omega arith)
    and_loop-fit zero left (rparen ∷ ts) h k =
        lt→ltb (suc (length ts)) (suc (suc (length ts))) (omega arith)
    and_loop-fit zero left (comma ∷ ts) h k =
        lt→ltb (suc (length ts)) (suc (suc (length ts))) (omega arith)
    and_loop-fit zero left (eq_eq ∷ ts) h k =
        lt→ltb (suc (length ts)) (suc (suc (length ts))) (omega arith)
    and_loop-fit zero left (not_eq ∷ ts) h k =
        lt→ltb (suc (length ts)) (suc (suc (length ts))) (omega arith)
    and_loop-fit zero left (gt ∷ ts) h k =
        lt→ltb (suc (length ts)) (suc (suc (length ts))) (omega arith)
    and_loop-fit zero left (ge ∷ ts) h k =
        lt→ltb (suc (length ts)) (suc (suc (length ts))) (omega arith)
    and_loop-fit zero left (lt ∷ ts) h k =
        lt→ltb (suc (length ts)) (suc (suc (length ts))) (omega arith)
    and_loop-fit zero left (le ∷ ts) h k =
        lt→ltb (suc (length ts)) (suc (suc (length ts))) (omega arith)
    and_loop-fit zero left (or ∷ ts) h k =
        lt→ltb (suc (length ts)) (suc (suc (length ts))) (omega arith)
    and_loop-fit zero left (bang ∷ ts) h k =
        lt→ltb (suc (length ts)) (suc (suc (length ts))) (omega arith)
    and_loop-fit (suc f) left [] h k = refl
    and_loop-fit (suc f) left (ident x ∷ ts) h k =
        lt→ltb (suc (length ts)) (suc (suc (length ts))) (omega arith)
    and_loop-fit (suc f) left (str x ∷ ts) h k =
        lt→ltb (suc (length ts)) (suc (suc (length ts))) (omega arith)
    and_loop-fit (suc f) left (num x ∷ ts) h k =
        lt→ltb (suc (length ts)) (suc (suc (length ts))) (omega arith)
    and_loop-fit (suc f) left (dot ∷ ts) h k =
        lt→ltb (suc (length ts)) (suc (suc (length ts))) (omega arith)
    and_loop-fit (suc f) left (lparen ∷ ts) h k =
        lt→ltb (suc (length ts)) (suc (suc (length ts))) (omega arith)
    and_loop-fit (suc f) left (rparen ∷ ts) h k =
        lt→ltb (suc (length ts)) (suc (suc (length ts))) (omega arith)
    and_loop-fit (suc f) left (comma ∷ ts) h k =
        lt→ltb (suc (length ts)) (suc (suc (length ts))) (omega arith)
    and_loop-fit (suc f) left (eq_eq ∷ ts) h k =
        lt→ltb (suc (length ts)) (suc (suc (length ts))) (omega arith)
    and_loop-fit (suc f) left (not_eq ∷ ts) h k =
        lt→ltb (suc (length ts)) (suc (suc (length ts))) (omega arith)
    and_loop-fit (suc f) left (gt ∷ ts) h k =
        lt→ltb (suc (length ts)) (suc (suc (length ts))) (omega arith)
    and_loop-fit (suc f) left (ge ∷ ts) h k =
        lt→ltb (suc (length ts)) (suc (suc (length ts))) (omega arith)
    and_loop-fit (suc f) left (lt ∷ ts) h k =
        lt→ltb (suc (length ts)) (suc (suc (length ts))) (omega arith)
    and_loop-fit (suc f) left (le ∷ ts) h k =
        lt→ltb (suc (length ts)) (suc (suc (length ts))) (omega arith)
    and_loop-fit (suc f) left (or ∷ ts) h k =
        lt→ltb (suc (length ts)) (suc (suc (length ts))) (omega arith)
    and_loop-fit (suc f) left (bang ∷ ts) h k =
        lt→ltb (suc (length ts)) (suc (suc (length ts))) (omega arith)
    and_loop-fit zero left (and ∷ ts) h k = ground arith
    and_loop-fit (suc f) left (and ∷ ts) h k =
        fits-bind (length ts) (suc (suc (length ts))) (parse_not w ctx expr ts) _
          (not-fit ts (omega (arith, h)))
          (λ right rest r.
            fits_mono (suc (length rest)) (suc (suc (length ts))) (and_loop w ctx expr f _ rest)
              (omega (arith, r))
              (and_loop-fit f _ rest (omega (arith, r, h)) (omega (arith, r, k))))

    parse_and-fit :
        (ts : List (Tok F64)) → length ts ≤ d → fits (length ts) (parse_and w ctx expr ts) ≡ true
    unfolding parse_and
    parse_and-fit ts h =
        fits-bind (length ts) (length ts) (parse_not w ctx expr ts) _ (not-fit ts h) (λ left rest r.
          fits_mono (suc (length rest)) (length ts) (and_loop w ctx expr (length rest) left rest)
            (omega (arith, r))
            (and_loop-fit (length rest) left rest (omega (arith, r, h)) (omega arith)))

    or_loop-fit :
        (f : ℕ) (left : Val w ctx) (ts : List (Tok F64))
        → length ts ≤ d
        → length ts ≤ f
        → fits (suc (length ts)) (or_loop w ctx expr f left ts) ≡ true
    unfolding or_loop
    or_loop-fit zero left [] h k = refl
    or_loop-fit zero left (ident x ∷ ts) h k =
        lt→ltb (suc (length ts)) (suc (suc (length ts))) (omega arith)
    or_loop-fit zero left (str x ∷ ts) h k =
        lt→ltb (suc (length ts)) (suc (suc (length ts))) (omega arith)
    or_loop-fit zero left (num x ∷ ts) h k =
        lt→ltb (suc (length ts)) (suc (suc (length ts))) (omega arith)
    or_loop-fit zero left (dot ∷ ts) h k =
        lt→ltb (suc (length ts)) (suc (suc (length ts))) (omega arith)
    or_loop-fit zero left (lparen ∷ ts) h k =
        lt→ltb (suc (length ts)) (suc (suc (length ts))) (omega arith)
    or_loop-fit zero left (rparen ∷ ts) h k =
        lt→ltb (suc (length ts)) (suc (suc (length ts))) (omega arith)
    or_loop-fit zero left (comma ∷ ts) h k =
        lt→ltb (suc (length ts)) (suc (suc (length ts))) (omega arith)
    or_loop-fit zero left (eq_eq ∷ ts) h k =
        lt→ltb (suc (length ts)) (suc (suc (length ts))) (omega arith)
    or_loop-fit zero left (not_eq ∷ ts) h k =
        lt→ltb (suc (length ts)) (suc (suc (length ts))) (omega arith)
    or_loop-fit zero left (gt ∷ ts) h k =
        lt→ltb (suc (length ts)) (suc (suc (length ts))) (omega arith)
    or_loop-fit zero left (ge ∷ ts) h k =
        lt→ltb (suc (length ts)) (suc (suc (length ts))) (omega arith)
    or_loop-fit zero left (lt ∷ ts) h k =
        lt→ltb (suc (length ts)) (suc (suc (length ts))) (omega arith)
    or_loop-fit zero left (le ∷ ts) h k =
        lt→ltb (suc (length ts)) (suc (suc (length ts))) (omega arith)
    or_loop-fit zero left (and ∷ ts) h k =
        lt→ltb (suc (length ts)) (suc (suc (length ts))) (omega arith)
    or_loop-fit zero left (bang ∷ ts) h k =
        lt→ltb (suc (length ts)) (suc (suc (length ts))) (omega arith)
    or_loop-fit (suc f) left [] h k = refl
    or_loop-fit (suc f) left (ident x ∷ ts) h k =
        lt→ltb (suc (length ts)) (suc (suc (length ts))) (omega arith)
    or_loop-fit (suc f) left (str x ∷ ts) h k =
        lt→ltb (suc (length ts)) (suc (suc (length ts))) (omega arith)
    or_loop-fit (suc f) left (num x ∷ ts) h k =
        lt→ltb (suc (length ts)) (suc (suc (length ts))) (omega arith)
    or_loop-fit (suc f) left (dot ∷ ts) h k =
        lt→ltb (suc (length ts)) (suc (suc (length ts))) (omega arith)
    or_loop-fit (suc f) left (lparen ∷ ts) h k =
        lt→ltb (suc (length ts)) (suc (suc (length ts))) (omega arith)
    or_loop-fit (suc f) left (rparen ∷ ts) h k =
        lt→ltb (suc (length ts)) (suc (suc (length ts))) (omega arith)
    or_loop-fit (suc f) left (comma ∷ ts) h k =
        lt→ltb (suc (length ts)) (suc (suc (length ts))) (omega arith)
    or_loop-fit (suc f) left (eq_eq ∷ ts) h k =
        lt→ltb (suc (length ts)) (suc (suc (length ts))) (omega arith)
    or_loop-fit (suc f) left (not_eq ∷ ts) h k =
        lt→ltb (suc (length ts)) (suc (suc (length ts))) (omega arith)
    or_loop-fit (suc f) left (gt ∷ ts) h k =
        lt→ltb (suc (length ts)) (suc (suc (length ts))) (omega arith)
    or_loop-fit (suc f) left (ge ∷ ts) h k =
        lt→ltb (suc (length ts)) (suc (suc (length ts))) (omega arith)
    or_loop-fit (suc f) left (lt ∷ ts) h k =
        lt→ltb (suc (length ts)) (suc (suc (length ts))) (omega arith)
    or_loop-fit (suc f) left (le ∷ ts) h k =
        lt→ltb (suc (length ts)) (suc (suc (length ts))) (omega arith)
    or_loop-fit (suc f) left (and ∷ ts) h k =
        lt→ltb (suc (length ts)) (suc (suc (length ts))) (omega arith)
    or_loop-fit (suc f) left (bang ∷ ts) h k =
        lt→ltb (suc (length ts)) (suc (suc (length ts))) (omega arith)
    or_loop-fit zero left (or ∷ ts) h k = ground arith
    or_loop-fit (suc f) left (or ∷ ts) h k =
        fits-bind (length ts) (suc (suc (length ts))) (parse_and w ctx expr ts) _
          (parse_and-fit ts (omega (arith, h)))
          (λ right rest r.
            fits_mono (suc (length rest)) (suc (suc (length ts))) (or_loop w ctx expr f _ rest)
              (omega (arith, r)) (or_loop-fit f _ rest (omega (arith, r, h)) (omega (arith, r, k))))

    or_level-fit :
        (ts : List (Tok F64)) → length ts ≤ d → fits (length ts) (or_level w ctx expr ts) ≡ true
    unfolding or_level
    or_level-fit ts h =
        fits-bind (length ts) (length ts) (parse_and w ctx expr ts) _ (parse_and-fit ts h)
          (λ left rest r.
            fits_mono (suc (length rest)) (length ts) (or_loop w ctx expr (length rest) left rest)
              (omega (arith, r))
              (or_loop-fit (length rest) left rest (omega (arith, r, h)) (omega arith)))

  parse_or-fit :
      (d : ℕ) (ts : List (Tok F64)) → length ts < d → fits (length ts) (parse_or w ctx d ts) ≡ true
  unfolding parse_or
  parse_or-fit zero ts h = ground arith
  parse_or-fit (suc d) ts h =
      or_level-fit (parse_or w ctx d) d (parse_or-fit d) ts (omega (arith, h))

  whole-ne-out_of_fuel :
      (n : ℕ) (m : Result (Stop F64) (Val w ctx × List (Tok F64)))
      → fits n m ≡ true
      → (m >>= whole w ctx) ≢ err out_of_fuel
  whole-ne-out_of_fuel n (ok (v, [])) h e = ground arith
  whole-ne-out_of_fuel n (ok (v, t ∷ ts)) h e = ground arith
  whole-ne-out_of_fuel n (err (fault x)) h e = ground arith
  whole-ne-out_of_fuel n (err out_of_fuel) h e = ground arith

  -- Every expression is evaluated to a value or to an error of the program: the depth and the
  -- rounds that the parser is given are never used up.
  pub eval-ne-out_of_fuel : (s : Text) → eval w ctx s ≢ err out_of_fuel
  unfolding eval eval_tokens
  eval-ne-out_of_fuel s = lexed (tokenize w s) (tokenize-ne-out_of_fuel w s)
    where
      lexed :
          (r : Result (Stop F64) (List (Tok F64)))
          → r ≢ err out_of_fuel
          → (r >>= eval_tokens w ctx) ≢ err out_of_fuel
      lexed (ok ts) h e =
          whole-ne-out_of_fuel (length ts) (parse_or w ctx (suc (length ts)) ts)
            (parse_or-fit (suc (length ts)) ts (omega arith)) e
      lexed (err (fault x)) h e = ground arith
      lexed (err out_of_fuel) h e = absurd (h refl)
