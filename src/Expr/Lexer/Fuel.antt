-- ===== src/Expr/Lexer/Fuel.antt =====
-- The lexer of src/expr.rs consumes a byte in each round, so its fuel is enough.
use ci.Common.{
  ℕ, zero, suc, ◌≤◌, ◌≡◌, ◌≢◌, refl, Bool, true, false, ◌&&◌, List, [], ◌∷◌, ◌++◌, Option, none,
  some, Text, length, is_digit, ◌==◌, if◌then◌else◌, Result, ok, err, ◌>>=◌, arith,
}
use native.Mathlib.Nat.{le_refl}
use ci.Expr.Values.{World}
use ci.Expr.Lexer.{
  Tok, ExprError, Stop, fault, out_of_fuel, bad_number, num, utf8, is_ident_byte, skip_one, Scanned,
  scan_ident, scan_number, scan_string, literal_more, Lexed, string_token, number_token, token,
  ident_token, lex_one, lex_loop, tokenize,
}

scan_ident-le : (s : List ℕ) → length (scan_ident s).1 ≤ length s
unfolding scan_ident
scan_ident-le [] = omega arith
scan_ident-le (c ∷ s) = ground (arith, scan_ident-le s)

scan_number-le : (s : List ℕ) → length (scan_number s).1 ≤ length s
unfolding scan_number
scan_number-le [] = omega arith
scan_number-le (c ∷ s) = ground (arith, scan_number-le s)

scan_ident-lt :
    (c : ℕ) (s : List ℕ) → is_ident_byte c ≡ true → length (scan_ident (c ∷ s)).1 ≤ length s
unfolding scan_ident
scan_ident-lt c s h = rw h (scan_ident-le s)

scan_number-lt :
    (c : ℕ) (s : List ℕ) → is_digit c ≡ true → length (scan_number (c ∷ s)).1 ≤ length s
unfolding scan_number
scan_number-lt c s h = rw h (scan_number-le s)

-- The rest behind a literal is no longer than `n`, if it was closed.
data RestLe (n : ℕ) : Option Scanned → Type 0 where
  open_end : RestLe n none
  closed : {word rest : List ℕ} → length rest ≤ n → RestLe n (some (word, rest))

RestLe-more :
    {n : ℕ} {o : Option Scanned} (m c : ℕ) → n ≤ m → RestLe n o → RestLe m (literal_more c o)
RestLe-more m c h open_end = open_end
RestLe-more m c h (closed r) = closed (omega arith)

RestLe-if :
    (n : ℕ) (b : Bool) {x y : Option Scanned}
    → RestLe n x
    → RestLe n y
    → RestLe n (if b then x else y)
RestLe-if n true hx hy = hx
RestLe-if n false hx hy = hy

scan_string-le : (q : ℕ) (s : List ℕ) → RestLe (length s) (scan_string q s)
unfolding scan_string
scan_string-le q [] = open_end
scan_string-le q (c ∷ []) = RestLe-if 1 (c == q) (closed (omega arith)) open_end
scan_string-le q (c ∷ d ∷ s) =
    RestLe-if _ (c == q)
      (RestLe-if _ (q == b'\'' && d == b'\'')
        (RestLe-more _ b'\'' (omega arith) (scan_string-le q s)) (closed (omega arith)))
      (RestLe-more _ c (omega arith) (scan_string-le q (d ∷ s)))

module _ (w : World) where
  open w use {F64, parse_f64}

  -- The round ended with an error of the program, or left at most `n` bytes.
  data Kept (n : ℕ) : Lexed w → Type 0 where
    kept : {ts : List (Tok F64)} {rest : List ℕ} → length rest ≤ n → Kept n (ok (ts, rest))
    failed : {e : ExprError F64} → Kept n (err (fault e))

  Kept-if :
      (n : ℕ) (b : Bool) (x y : Lexed w)
      → (b ≡ true → Kept n x)
      → Kept n y
      → Kept n (if b then x else y)
  Kept-if n true x y hx hy = hx refl
  Kept-if n false x y hx hy = hy

  string_token-Kept : {n : ℕ} {o : Option Scanned} → RestLe n o → Kept n (string_token w o)
  string_token-Kept open_end = failed
  string_token-Kept (closed h) = kept h

  number_token-Kept : (n : ℕ) (s : Scanned) → length s.1 ≤ n → Kept n (number_token w s)
  number_token-Kept n (word, rest) h = with_value (parse_f64 word)
    where
      with_value :
          (o : Option F64)
          → Kept n
              (elim o [ none ↦ err (fault (bad_number word)) | some m ↦ ok (num m ∷ [], rest) ])
      with_value none = failed
      with_value (some m) = kept h

  skip_one-le : (s : List ℕ) → length (skip_one s) ≤ length s
  skip_one-le [] = omega arith
  skip_one-le (c ∷ s) = omega arith

  skip_one-Kept : (t : Tok F64) (s : List ℕ) → Kept (length s) (token w t (skip_one s))
  skip_one-Kept t s = kept (skip_one-le s)

  one-Kept : (ts : List (Tok F64)) (s : List ℕ) → Kept (length s) (ok (ts, s))
  one-Kept ts s = kept (le_refl (length s))

  scan_ident-Kept :
      (c : ℕ) (s : List ℕ)
      → is_ident_byte c ≡ true
      → Kept (length s) (ident_token w (scan_ident (c ∷ s)))
  scan_ident-Kept c s h = kept (scan_ident-lt c s h)

  lex_one-Kept : (c : ℕ) (s : List ℕ) → Kept (length s) (lex_one w c s)
  unfolding lex_one
  lex_one-Kept c s =
      search
        (
          Kept-if, one-Kept, skip_one-Kept, failed, string_token-Kept, scan_string-le,
          number_token-Kept, scan_number-lt, scan_ident-Kept,
        )
        depth 25

  lex_loop-ne-out_of_fuel : (f : ℕ) (s : List ℕ) → length s ≤ f → lex_loop w f s ≢ err out_of_fuel
  unfolding lex_loop
  lex_loop-ne-out_of_fuel f [] h = cc
  lex_loop-ne-out_of_fuel zero (c ∷ s) h = absurd (omega arith)
  lex_loop-ne-out_of_fuel (suc f) (c ∷ s) h =
      go (lex_one-Kept c s) (λ rest k. lex_loop-ne-out_of_fuel f rest (omega arith))
    where
      after :
          (ts : List (Tok F64)) (m : Result (Stop F64) (List (Tok F64)))
          → m ≢ err out_of_fuel
          → (m >>= λ more. ok (ts ++ more)) ≢ err out_of_fuel
      after ts (ok more) k = cc
      after ts (err e) k = k

      go :
          {r : Lexed w}
          → Kept (length s) r
          → ((rest : List ℕ) → length rest ≤ length s → lex_loop w f rest ≢ err out_of_fuel)
          → (r >>= λ (found, rest). lex_loop w f rest >>= λ more. ok (found ++ more))
            ≢ err out_of_fuel
      go (kept {ts} {rest} k) ih = after ts (lex_loop w f rest) (ih rest k)
      go failed ih = cc

  -- Every text is lexed to its end or to an error of the program.
  pub tokenize-ne-out_of_fuel : (s : Text) → tokenize w s ≢ err out_of_fuel
  unfolding tokenize
  tokenize-ne-out_of_fuel s = lex_loop-ne-out_of_fuel (length (utf8 s)) (utf8 s) (omega arith)
