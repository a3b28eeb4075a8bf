-- ===== src/Expr/Substitute/Expressions.antt =====
-- A text is replaced expression by expression, by `Context::substitute` of src/expr.rs; an expression
-- that cannot be evaluated stays as it is.
use ci.Common.{
  ℕ, ◌+◌, ◌≡◌, refl, true, false, ◌||◌, [], ◌∷◌, ◌++◌, Option, none, some, Text, length,
  length-append, contains, strip_prefix, all, not, ◌==◌, if_cases, arith, Result, ok, err,
  Bool-cases, inl, inr,
}
use mathlib.Core.List.{append_assoc}
use mathlib.Core.Path.{subst, sym, ap, ◌∙◌}
use ci.Json.{Value}
use ci.Expr.Values.{World, to_display}
use ci.Expr.Lexer.{next_is}
use ci.Expr.Call.{Context}
use ci.Expr.Eval.{eval}
use ci.Expr.Substitute.{
  Scan, plain, inside, escaped, find_close, on_first, open_mark, close_mark, substitute_from, shown,
  displayed, substitute,
}

-- The body of an expression: characters that are no quotes and no closing brace, and string
-- literals, in which all but the quote itself may stand.
pub data IsBody : Text → Type 0 where
  ends : IsBody []
  char :
      (c : ℕ) (e : Text)
      → (c == 39) ≡ false
      → (c == 34) ≡ false
      → (c == 125) ≡ false
      → IsBody e
      → IsBody (c ∷ e)
  literal :
      (q : ℕ) (content e : Text)
      → ((q == 39) || (q == 34)) ≡ true
      → all (λ c. not (c == q)) content ≡ true
      → IsBody e
      → IsBody (q ∷ (content ++ (q ∷ e)))

-- The text `e }} rest` is split at its mark.
abbrev Splits : Scan → Text → Text → Type 0
Splits scan e rest = find_close scan (e ++ (close_mark ++ rest)) ≡ some (e, rest)

char-Splits :
    (c : ℕ) (e rest : Text)
    → (c == 39) ≡ false
    → (c == 34) ≡ false
    → (c == 125) ≡ false
    → Splits plain e rest
    → Splits plain (c ∷ e) rest
unfolding find_close
char-Splits c e rest h k l p = ground (arith, h, k, l, p)

same : (a b : ℕ) → (a == b) ≡ true → b ≡ a
same a b h = ground (arith, h)

-- A quote that follows a quote goes on with the literal, or starts another one: it is all the same.
escaped-plain : (t : Text) → next_is 39 t ≡ true → find_close (escaped 39) t ≡ find_close plain t
unfolding find_close
escaped-plain [] h = ground arith
escaped-plain (c ∷ s) h =
    subst (λ d. find_close (escaped 39) (d ∷ s) ≡ find_close plain (d ∷ s))
      (same c 39 (ground (arith, h))) refl

after-literal :
    (q : ℕ) (t : Text)
    → ((q == 39) || (q == 34)) ≡ true
    → find_close (inside q) (q ∷ t) ≡ on_first q (find_close plain t)
unfolding find_close
after-literal q t h = elim (Bool-cases (q == 39)) [
  | inl e ↦
      subst (λ r. find_close (inside r) (r ∷ t) ≡ on_first r (find_close plain t)) (same q 39 e)
        (if_cases (λ scan. on_first 39 (find_close scan t) ≡ on_first 39 (find_close plain t))
          (next_is 39 t) (escaped 39) plain (λ n. ap (on_first 39) (escaped-plain t n)) (λ n. refl))
  | inr e ↦
      subst (λ r. find_close (inside r) (r ∷ t) ≡ on_first r (find_close plain t))
        (same q 34 (ground (arith, e, h))) refl
]

in-literal :
    (q c : ℕ) (t : Text)
    → (c == q) ≡ false
    → find_close (inside q) (c ∷ t) ≡ on_first c (find_close (inside q) t)
unfolding find_close
in-literal q c t h = ground (arith, h)

open-literal :
    (q : ℕ) (t : Text)
    → ((q == 39) || (q == 34)) ≡ true
    → find_close plain (q ∷ t) ≡ on_first q (find_close (inside q) t)
unfolding find_close
open-literal q t h = elim (Bool-cases (q == 39)) [
  | inl e ↦
      subst (λ r. find_close plain (r ∷ t) ≡ on_first r (find_close (inside r) t)) (same q 39 e)
        refl
  | inr e ↦
      subst (λ r. find_close plain (r ∷ t) ≡ on_first r (find_close (inside r) t))
        (same q 34 (ground (arith, e, h))) refl
]

literal-Splits :
    (q : ℕ) (content e rest : Text)
    → ((q == 39) || (q == 34)) ≡ true
    → all (λ c. not (c == q)) content ≡ true
    → Splits plain e rest
    → Splits (inside q) (content ++ (q ∷ e)) rest
literal-Splits q [] e rest h k p = after-literal q (e ++ (close_mark ++ rest)) h ∙ ap (on_first q) p
literal-Splits q (c ∷ content) e rest h k p =
    in-literal q c ((content ++ (q ∷ e)) ++ (close_mark ++ rest)) (ground (arith, k))
    ∙ ap (on_first c) (literal-Splits q content e rest h (ground (arith, k)) p)

body-Splits : (e rest : Text) → IsBody e → Splits plain e rest
unfolding find_close
body-Splits _ rest ends = refl
body-Splits _ rest (char c e h k l b) = char-Splits c e rest h k l (body-Splits e rest b)
body-Splits _ rest (literal q content e h k b) =
    open-literal q ((content ++ (q ∷ e)) ++ (close_mark ++ rest)) h
    ∙ ap (on_first q) (literal-Splits q content e rest h k (body-Splits e rest b))

skip :
    (value : Text → Option Text) (a b : Text)
    → substitute_from value (length a) (a ++ b) ≡ substitute_from value 0 b
unfolding substitute_from
skip value [] b = refl
skip value (c ∷ a) b = skip value a b

module _ (value : Text → Option Text) where
  size : (e : Text) → 2 + length e + 2 ≡ length (b'{' ∷ b'{' ∷ (e ++ close_mark))
  size e = omega (arith, length-append e close_mark)

  skipped :
      (e rest : Text)
      → substitute_from value (2 + length e + 2) (b'{' ∷ b'{' ∷ (e ++ (close_mark ++ rest)))
        ≡ substitute_from value 0 rest
  skipped e rest =
      let mark = b'{' ∷ b'{' ∷ (e ++ close_mark) in
      ap (λ n. substitute_from value n (b'{' ∷ b'{' ∷ (e ++ (close_mark ++ rest)))) (size e)
      ∙ ap (λ t. substitute_from value (length mark) (b'{' ∷ b'{' ∷ t))
          (sym (append_assoc e close_mark rest))
      ∙ skip value mark rest

  expression-first :
      (e rest : Text)
      → IsBody e
      → substitute_from value 0 (open_mark ++ (e ++ (close_mark ++ rest)))
        ≡ shown value e (value e) ++ substitute_from value 0 rest
  unfolding substitute_from
  expression-first e rest b =
      rw (body-Splits e rest b) (ap (λ t. shown value e (value e) ++ t) (skipped e rest))

  no-mark-yet :
      (c : ℕ) (before tail : Text)
      → contains (c ∷ before) open_mark ≡ false
      → strip_prefix open_mark (c ∷ (before ++ (open_mark ++ tail))) ≡ none
  no-mark-yet c [] tail h = ground arith
  no-mark-yet c (d ∷ []) tail h = ground arith
  no-mark-yet c (d ∷ f ∷ before) tail h = ground (arith, h)

  expression-next :
      (before e rest : Text)
      → contains before open_mark ≡ false
      → IsBody e
      → substitute_from value 0 (before ++ (open_mark ++ (e ++ (close_mark ++ rest))))
        ≡ before ++ (shown value e (value e) ++ substitute_from value 0 rest)
  unfolding substitute_from
  expression-next [] e rest h b = expression-first e rest b
  expression-next (c ∷ before) e rest h b =
      rw (no-mark-yet c before (e ++ (close_mark ++ rest)) h)
        (ap (λ t. c ∷ t) (expression-next before e rest (ground (arith, h)) b))

  unmarked :
      (c : ℕ) (s : Text)
      → contains (c ∷ s) open_mark ≡ false
      → strip_prefix open_mark (c ∷ s) ≡ none
  unmarked c [] h = ground arith
  unmarked c (d ∷ []) h = ground arith
  unmarked c (d ∷ f ∷ s) h = ground (arith, h)

  no-mark : (s : Text) → contains s open_mark ≡ false → substitute_from value 0 s ≡ s
  unfolding substitute_from
  no-mark [] h = refl
  no-mark (c ∷ s) h = rw (unmarked c s h) (ap (λ t. c ∷ t) (no-mark s (ground (arith, h))))

module _ (w : World) where
  open w use {Number}

  -- What stands for an expression: the text of its value, or the expression itself with its marks
  -- where it has no value.
  abbrev replaced_by : {E : Type 0} → Text → Result E (Value Number) → Text
  replaced_by e (ok v) = to_display w v
  replaced_by e (err problem) = open_mark ++ (e ++ close_mark)

  abbrev pub replaced : Context w → Text → Text
  replaced ctx e = replaced_by e (eval w ctx e)

  shown-displayed :
      {E : Type 0} (value : Text → Option Text) (e : Text) (r : Result E (Value Number))
      → shown value e (displayed w r) ≡ replaced_by e r
  shown-displayed value e (ok v) = refl
  shown-displayed value e (err problem) = refl

  -- If the text in front of the first `${{` holds no other, and the expression that follows is made of
  -- string literals and of characters that are neither quotes nor `}`, then the text in front stays as
  -- it is, and the expression is replaced by its value, or stays as it is, marks and all, where it
  -- cannot be evaluated; a `}}` in a literal does not end it. Either way the rest is substituted as a
  -- text of its own. A text without a mark stays as it is.
  pub substitute-replaced :
      (ctx : Context w) (before e rest : Text)
      → contains before open_mark ≡ false
      → IsBody e
      → (substitute w ctx (before ++ (open_mark ++ (e ++ (close_mark ++ rest))))
          ≡ before ++ (replaced ctx e ++ substitute w ctx rest))
        × (substitute w ctx before ≡ before)
  unfolding substitute
  substitute-replaced ctx before e rest h b =
      let value = (λ (t : Text). displayed w (eval w ctx t)) in
      (
        expression-next value before e rest h b
            ∙ ap (λ t. before ++ (t ++ substitute_from value 0 rest))
                (shown-displayed value e (eval w ctx e)),
        no-mark value before h,
      )
