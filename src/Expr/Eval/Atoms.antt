-- ===== src/Expr/Eval/Atoms.antt =====
-- What the atoms of the parser in src/expr.rs leave of their tokens.
use ci.Common.{
  ℕ, zero, suc, ◌≤◌, ◌<◌, ◌≡◌, refl, Bool, true, false, List, [], ◌∷◌, ◌++◌, Text, length, ltb,
  ltb→lt, lt→ltb, Result, ok, err, ◌>>=◌, arith,
}
use ci.Expr.Values.{World, to_display, to_number}
use ci.Expr.Lexer.{
  Tok, ExprError, Stop, ident, str, num, dot, lparen, rparen, comma, eq_eq, not_eq, gt, ge, lt, le,
  and, or, bang, fault, out_of_fuel,
}
use ci.Expr.Call.{Context, call}
use ci.Expr.Eval.{
  Parser, Val, parse_segments, close_paren, more_args, parse_args, call_args, parse_atom, lift_call,
}

module _ {F64 : Type 0} {A : Type 0} where
  -- The parse did not run out of fuel, and leaves fewer than `n` tokens.
  abbrev pub fits : ℕ → Result (Stop F64) (A × List (Tok F64)) → Bool
  fits n (ok (a, rest)) = ltb (length rest) n
  fits n (err (fault e)) = true
  fits n (err out_of_fuel) = false

  pub fits_mono :
      (k n : ℕ) (m : Result (Stop F64) (A × List (Tok F64)))
      → k ≤ n
      → fits k m ≡ true
      → fits n m ≡ true
  fits_mono k n (ok (a, rest)) l h =
      let r = ltb→lt (length rest) k h in lt→ltb (length rest) n (omega (arith, r, l))
  fits_mono k n (err (fault e)) l h = refl
  fits_mono k n (err out_of_fuel) l h = h

module _ {F64 : Type 0} {A B : Type 0} where
  pub fits-bind :
      (k n : ℕ) (m : Result (Stop F64) (A × List (Tok F64)))
      (f : A × List (Tok F64) → Result (Stop F64) (B × List (Tok F64)))
      → fits k m ≡ true
      → ((a : A) (rest : List (Tok F64)) → length rest < k → fits n (f (a, rest)) ≡ true)
      → fits n (m >>= f) ≡ true
  fits-bind k n (ok (a, rest)) f h g = g a rest (ltb→lt (length rest) k h)
  fits-bind k n (err (fault e)) f h g = refl
  fits-bind k n (err out_of_fuel) f h g = h

module _ (w : World) (ctx : Context w) where
  open w use {F64, Number}

  pub segments-fit :
      (segs : List Text) (ts : List (Tok F64))
      → fits (suc (length ts)) (parse_segments w ctx segs ts) ≡ true
  unfolding parse_segments
  segments-fit segs [] = refl
  segments-fit segs (dot ∷ ident seg ∷ ts) =
      fits_mono (suc (length ts)) (suc (suc (suc (length ts)))) _ (omega arith)
        (segments-fit (segs ++ seg ∷ []) ts)
  segments-fit segs (dot ∷ num n ∷ ts) =
      fits_mono (suc (length ts)) (suc (suc (suc (length ts)))) _ (omega arith)
        (segments-fit (segs ++ to_display w (to_number w n) ∷ []) ts)
  segments-fit segs (dot ∷ []) = refl
  segments-fit segs (dot ∷ str x ∷ ts) = refl
  segments-fit segs (dot ∷ dot ∷ ts) = refl
  segments-fit segs (dot ∷ lparen ∷ ts) = refl
  segments-fit segs (dot ∷ rparen ∷ ts) = refl
  segments-fit segs (dot ∷ comma ∷ ts) = refl
  segments-fit segs (dot ∷ eq_eq ∷ ts) = refl
  segments-fit segs (dot ∷ not_eq ∷ ts) = refl
  segments-fit segs (dot ∷ gt ∷ ts) = refl
  segments-fit segs (dot ∷ ge ∷ ts) = refl
  segments-fit segs (dot ∷ lt ∷ ts) = refl
  segments-fit segs (dot ∷ le ∷ ts) = refl
  segments-fit segs (dot ∷ and ∷ ts) = refl
  segments-fit segs (dot ∷ or ∷ ts) = refl
  segments-fit segs (dot ∷ bang ∷ ts) = refl
  segments-fit segs (ident x ∷ ts) = lt→ltb (suc (length ts)) (suc (suc (length ts))) (omega arith)
  segments-fit segs (str x ∷ ts) = lt→ltb (suc (length ts)) (suc (suc (length ts))) (omega arith)
  segments-fit segs (num x ∷ ts) = lt→ltb (suc (length ts)) (suc (suc (length ts))) (omega arith)
  segments-fit segs (lparen ∷ ts) = lt→ltb (suc (length ts)) (suc (suc (length ts))) (omega arith)
  segments-fit segs (rparen ∷ ts) = lt→ltb (suc (length ts)) (suc (suc (length ts))) (omega arith)
  segments-fit segs (comma ∷ ts) = lt→ltb (suc (length ts)) (suc (suc (length ts))) (omega arith)
  segments-fit segs (eq_eq ∷ ts) = lt→ltb (suc (length ts)) (suc (suc (length ts))) (omega arith)
  segments-fit segs (not_eq ∷ ts) = lt→ltb (suc (length ts)) (suc (suc (length ts))) (omega arith)
  segments-fit segs (gt ∷ ts) = lt→ltb (suc (length ts)) (suc (suc (length ts))) (omega arith)
  segments-fit segs (ge ∷ ts) = lt→ltb (suc (length ts)) (suc (suc (length ts))) (omega arith)
  segments-fit segs (lt ∷ ts) = lt→ltb (suc (length ts)) (suc (suc (length ts))) (omega arith)
  segments-fit segs (le ∷ ts) = lt→ltb (suc (length ts)) (suc (suc (length ts))) (omega arith)
  segments-fit segs (and ∷ ts) = lt→ltb (suc (length ts)) (suc (suc (length ts))) (omega arith)
  segments-fit segs (or ∷ ts) = lt→ltb (suc (length ts)) (suc (suc (length ts))) (omega arith)
  segments-fit segs (bang ∷ ts) = lt→ltb (suc (length ts)) (suc (suc (length ts))) (omega arith)

  module _ (expr : Parser w ctx (Val w ctx)) where
    more-fit :
        (next : Parser w ctx (List (Val w ctx))) (n : ℕ) (v : Val w ctx) (rest : List (Tok F64))
        → length rest < n
        → ((ts : List (Tok F64)) → length ts < length rest → fits (length ts) (next ts) ≡ true)
        → fits n (more_args w ctx expr next v rest) ≡ true
    unfolding more_args
    more-fit next n v [] l h = refl
    more-fit next n v (comma ∷ ts) l h =
        fits-bind (length ts) n (next ts) _ (h ts (omega arith))
          (λ vs rest r. lt→ltb (length rest) n (omega (arith, r, l)))
    more-fit next n v (rparen ∷ ts) l h = lt→ltb (length ts) n (omega (arith, l))
    more-fit next n v (ident x ∷ ts) l h = refl
    more-fit next n v (str x ∷ ts) l h = refl
    more-fit next n v (num x ∷ ts) l h = refl
    more-fit next n v (dot ∷ ts) l h = refl
    more-fit next n v (lparen ∷ ts) l h = refl
    more-fit next n v (eq_eq ∷ ts) l h = refl
    more-fit next n v (not_eq ∷ ts) l h = refl
    more-fit next n v (gt ∷ ts) l h = refl
    more-fit next n v (ge ∷ ts) l h = refl
    more-fit next n v (lt ∷ ts) l h = refl
    more-fit next n v (le ∷ ts) l h = refl
    more-fit next n v (and ∷ ts) l h = refl
    more-fit next n v (or ∷ ts) l h = refl
    more-fit next n v (bang ∷ ts) l h = refl

  module _ (expr : Parser w ctx (Val w ctx)) (d : ℕ)
      (good : (ts : List (Tok F64)) → length ts < d → fits (length ts) (expr ts) ≡ true) where
    args-fit :
        (f : ℕ) (ts : List (Tok F64))
        → length ts < d
        → length ts < f
        → fits (length ts) (parse_args w ctx expr f ts) ≡ true
    unfolding parse_args
    args-fit zero ts h k = ground arith
    args-fit (suc f) ts h k = fits-bind (length ts) (length ts) (expr ts) _ (good ts h) (λ v rest r.
        more-fit expr (parse_args w ctx expr f) (length ts) v rest r
          (λ us q. args-fit f us (omega (arith, q, r, h)) (omega (arith, q, r, k))))

    call_args-fit :
        (ts : List (Tok F64))
        → length ts < d
        → fits (suc (length ts)) (call_args w ctx expr ts) ≡ true
    unfolding call_args
    call_args-fit [] h =
        fits_mono 0 1 (parse_args w ctx expr 1 []) (omega arith) (args-fit 1 [] h (omega arith))
    call_args-fit (rparen ∷ ts) h = lt→ltb (length ts) (suc (suc (length ts))) (omega arith)
    call_args-fit (ident x ∷ ts) h =
        fits_mono _ _ (parse_args w ctx expr (suc (suc (length ts))) (ident x ∷ ts)) (omega arith)
          (args-fit (suc (suc (length ts))) (ident x ∷ ts) h (omega arith))
    call_args-fit (str x ∷ ts) h =
        fits_mono _ _ (parse_args w ctx expr (suc (suc (length ts))) (str x ∷ ts)) (omega arith)
          (args-fit (suc (suc (length ts))) (str x ∷ ts) h (omega arith))
    call_args-fit (num x ∷ ts) h =
        fits_mono _ _ (parse_args w ctx expr (suc (suc (length ts))) (num x ∷ ts)) (omega arith)
          (args-fit (suc (suc (length ts))) (num x ∷ ts) h (omega arith))
    call_args-fit (dot ∷ ts) h =
        fits_mono _ _ (parse_args w ctx expr (suc (suc (length ts))) (dot ∷ ts)) (omega arith)
          (args-fit (suc (suc (length ts))) (dot ∷ ts) h (omega arith))
    call_args-fit (lparen ∷ ts) h =
        fits_mono _ _ (parse_args w ctx expr (suc (suc (length ts))) (lparen ∷ ts)) (omega arith)
          (args-fit (suc (suc (length ts))) (lparen ∷ ts) h (omega arith))
    call_args-fit (comma ∷ ts) h =
        fits_mono _ _ (parse_args w ctx expr (suc (suc (length ts))) (comma ∷ ts)) (omega arith)
          (args-fit (suc (suc (length ts))) (comma ∷ ts) h (omega arith))
    call_args-fit (eq_eq ∷ ts) h =
        fits_mono _ _ (parse_args w ctx expr (suc (suc (length ts))) (eq_eq ∷ ts)) (omega arith)
          (args-fit (suc (suc (length ts))) (eq_eq ∷ ts) h (omega arith))
    call_args-fit (not_eq ∷ ts) h =
        fits_mono _ _ (parse_args w ctx expr (suc (suc (length ts))) (not_eq ∷ ts)) (omega arith)
          (args-fit (suc (suc (length ts))) (not_eq ∷ ts) h (omega arith))
    call_args-fit (gt ∷ ts) h =
        fits_mono _ _ (parse_args w ctx expr (suc (suc (length ts))) (gt ∷ ts)) (omega arith)
          (args-fit (suc (suc (length ts))) (gt ∷ ts) h (omega arith))
    call_args-fit (ge ∷ ts) h =
        fits_mono _ _ (parse_args w ctx expr (suc (suc (length ts))) (ge ∷ ts)) (omega arith)
          (args-fit (suc (suc (length ts))) (ge ∷ ts) h (omega arith))
    call_args-fit (lt ∷ ts) h =
        fits_mono _ _ (parse_args w ctx expr (suc (suc (length ts))) (lt ∷ ts)) (omega arith)
          (args-fit (suc (suc (length ts))) (lt ∷ ts) h (omega arith))
    call_args-fit (le ∷ ts) h =
        fits_mono _ _ (parse_args w ctx expr (suc (suc (length ts))) (le ∷ ts)) (omega arith)
          (args-fit (suc (suc (length ts))) (le ∷ ts) h (omega arith))
    call_args-fit (and ∷ ts) h =
        fits_mono _ _ (parse_args w ctx expr (suc (suc (length ts))) (and ∷ ts)) (omega arith)
          (args-fit (suc (suc (length ts))) (and ∷ ts) h (omega arith))
    call_args-fit (or ∷ ts) h =
        fits_mono _ _ (parse_args w ctx expr (suc (suc (length ts))) (or ∷ ts)) (omega arith)
          (args-fit (suc (suc (length ts))) (or ∷ ts) h (omega arith))
    call_args-fit (bang ∷ ts) h =
        fits_mono _ _ (parse_args w ctx expr (suc (suc (length ts))) (bang ∷ ts)) (omega arith)
          (args-fit (suc (suc (length ts))) (bang ∷ ts) h (omega arith))

    close-fit :
        (n : ℕ) (v : Val w ctx) (ts : List (Tok F64))
        → length ts < n
        → fits n (close_paren w ctx expr v ts) ≡ true
    unfolding close_paren
    close-fit n v [] h = refl
    close-fit n v (rparen ∷ ts) h = lt→ltb (length ts) n (omega (arith, h))
    close-fit n v (ident x ∷ ts) h = refl
    close-fit n v (str x ∷ ts) h = refl
    close-fit n v (num x ∷ ts) h = refl
    close-fit n v (dot ∷ ts) h = refl
    close-fit n v (lparen ∷ ts) h = refl
    close-fit n v (comma ∷ ts) h = refl
    close-fit n v (eq_eq ∷ ts) h = refl
    close-fit n v (not_eq ∷ ts) h = refl
    close-fit n v (gt ∷ ts) h = refl
    close-fit n v (ge ∷ ts) h = refl
    close-fit n v (lt ∷ ts) h = refl
    close-fit n v (le ∷ ts) h = refl
    close-fit n v (and ∷ ts) h = refl
    close-fit n v (or ∷ ts) h = refl
    close-fit n v (bang ∷ ts) h = refl

    lift-fit :
        (n : ℕ) (r : Result (ExprError F64) (Val w ctx)) (ts : List (Tok F64))
        → length ts < n
        → fits n (lift_call w ctx r ts) ≡ true
    lift-fit n (ok v) ts h = lt→ltb (length ts) n h
    lift-fit n (err e) ts h = refl

    ident-fit :
        (name : Text) (ts : List (Tok F64))
        → length ts < d
        → fits (suc (length ts)) (parse_atom w ctx expr (ident name ∷ ts)) ≡ true
    unfolding parse_atom
    ident-fit name [] h = refl
    ident-fit name (lparen ∷ ts) h =
        fits-bind (suc (length ts)) (suc (suc (length ts))) (call_args w ctx expr ts) _
          (call_args-fit ts (omega (arith, h)))
          (λ args rest r.
            lift-fit (suc (suc (length ts))) (call w ctx name args) rest (omega (arith, r)))
    ident-fit name (ident x ∷ ts) h = lt→ltb (suc (length ts)) (suc (suc (length ts))) (omega arith)
    ident-fit name (str x ∷ ts) h = lt→ltb (suc (length ts)) (suc (suc (length ts))) (omega arith)
    ident-fit name (num x ∷ ts) h = lt→ltb (suc (length ts)) (suc (suc (length ts))) (omega arith)
    ident-fit name (dot ∷ ts) h = lt→ltb (suc (length ts)) (suc (suc (length ts))) (omega arith)
    ident-fit name (rparen ∷ ts) h = lt→ltb (suc (length ts)) (suc (suc (length ts))) (omega arith)
    ident-fit name (comma ∷ ts) h = lt→ltb (suc (length ts)) (suc (suc (length ts))) (omega arith)
    ident-fit name (eq_eq ∷ ts) h = lt→ltb (suc (length ts)) (suc (suc (length ts))) (omega arith)
    ident-fit name (not_eq ∷ ts) h = lt→ltb (suc (length ts)) (suc (suc (length ts))) (omega arith)
    ident-fit name (gt ∷ ts) h = lt→ltb (suc (length ts)) (suc (suc (length ts))) (omega arith)
    ident-fit name (ge ∷ ts) h = lt→ltb (suc (length ts)) (suc (suc (length ts))) (omega arith)
    ident-fit name (lt ∷ ts) h = lt→ltb (suc (length ts)) (suc (suc (length ts))) (omega arith)
    ident-fit name (le ∷ ts) h = lt→ltb (suc (length ts)) (suc (suc (length ts))) (omega arith)
    ident-fit name (and ∷ ts) h = lt→ltb (suc (length ts)) (suc (suc (length ts))) (omega arith)
    ident-fit name (or ∷ ts) h = lt→ltb (suc (length ts)) (suc (suc (length ts))) (omega arith)
    ident-fit name (bang ∷ ts) h = lt→ltb (suc (length ts)) (suc (suc (length ts))) (omega arith)

    pub atom-fit :
        (ts : List (Tok F64)) → length ts ≤ d → fits (length ts) (parse_atom w ctx expr ts) ≡ true
    unfolding parse_atom
    atom-fit [] h = refl
    atom-fit (lparen ∷ ts) h =
        fits-bind (length ts) (suc (length ts)) (expr ts) _ (good ts (omega (arith, h)))
          (λ v rest r. close-fit (suc (length ts)) v rest (omega (arith, r)))
    atom-fit (str s ∷ ts) h = lt→ltb (length ts) (suc (length ts)) (omega arith)
    atom-fit (num n ∷ ts) h = lt→ltb (length ts) (suc (length ts)) (omega arith)
    atom-fit (ident name ∷ ts) h = unfold parse_atom in ident-fit name ts (omega (arith, h))
    atom-fit (dot ∷ ts) h = refl
    atom-fit (rparen ∷ ts) h = refl
    atom-fit (comma ∷ ts) h = refl
    atom-fit (eq_eq ∷ ts) h = refl
    atom-fit (not_eq ∷ ts) h = refl
    atom-fit (gt ∷ ts) h = refl
    atom-fit (ge ∷ ts) h = refl
    atom-fit (lt ∷ ts) h = refl
    atom-fit (le ∷ ts) h = refl
    atom-fit (and ∷ ts) h = refl
    atom-fit (or ∷ ts) h = refl
    atom-fit (bang ∷ ts) h = refl
