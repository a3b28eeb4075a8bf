-- ===== src/Expr/Lexer/Literals.antt =====
-- What the lexer of src/expr.rs makes of a string literal.
use ci.Common.{
  ℕ, suc, ◌≤◌, ◌<◌, ◌≡◌, refl, ◌↔◌, ap, sym, ◌∙◌, Bool, true, false, List, [], ◌∷◌, ◌++◌, some,
  Text, length, all, ltb, ◌==◌, if◌then◌else◌, ok, arith, ==_iff, Bool-cases, inl, inr,
}
use mathlib.Core.List.{append_assoc}
use ci.Expr.Values.{World}
use ci.Expr.Lexer.{str, utf8, utf8_char, scan_string, literal_more, lex_one, lex_loop, tokenize}

-- The spelling of a text between single quotes: a quote is written twice.
abbrev pub escape : List ℕ → List ℕ
escape [] = []
escape (c ∷ s) = let rest = escape s in if c == b'\'' then c ∷ c ∷ rest else c ∷ rest

abbrev pub quoted : Text → Text
quoted s = b'\'' ∷ (escape s ++ b'\'' ∷ [])

scan_string-plain :
    (c d : ℕ) (s : List ℕ)
    → (c == b'\'') ≡ false
    → scan_string b'\'' (c ∷ d ∷ s) ≡ literal_more c (scan_string b'\'' (d ∷ s))
unfolding scan_string
scan_string-plain c d s h = rw h

scan_string-single :
    (c : ℕ) (bs : List ℕ)
    → (c == b'\'') ≡ false
    → scan_string b'\'' (c ∷ (escape bs ++ b'\'' ∷ []))
      ≡ literal_more c (scan_string b'\'' (escape bs ++ b'\'' ∷ []))
scan_string-single c [] h = scan_string-plain c _ _ h
scan_string-single c (d ∷ bs) h = elim (Bool-cases (d == b'\'')) [
  | inl q ↦ rw q (scan_string-plain c _ _ h)
  | inr q ↦ rw q (scan_string-plain c _ _ h)
]

scan_string-doubled :
    (c : ℕ) (r : List ℕ)
    → c ≡ b'\''
    → scan_string b'\'' (c ∷ c ∷ r) ≡ literal_more c (scan_string b'\'' r)
unfolding scan_string
scan_string-doubled c r h = rw h

scan_string-escape : (bs : List ℕ) → scan_string b'\'' (escape bs ++ b'\'' ∷ []) ≡ some (bs, [])
scan_string-escape [] = unfold scan_string in refl
scan_string-escape (c ∷ bs) = elim (Bool-cases (c == b'\'')) [
  | inl h ↦
      rw h (
        scan_string-doubled c _ ((==_iff c b'\'').0 h)
        ∙ ap (literal_more c) (scan_string-escape bs))
  | inr h ↦ rw h (scan_string-single c bs h ∙ ap (literal_more c) (scan_string-escape bs))
]

-- No byte of a longer encoding is a quote.
utf8-escape : (s : Text) → utf8 (escape s) ≡ escape (utf8 s)
unfolding utf8
utf8-escape [] = refl
utf8-escape (c ∷ s) = ground (arith, utf8-escape s)

utf8-append : (s t : Text) → utf8 (s ++ t) ≡ utf8 s ++ utf8 t
unfolding utf8
utf8-append [] t = refl
utf8-append (c ∷ s) t =
    ap (λ r. utf8_char c ++ r) (utf8-append s t)
    ∙ sym (append_assoc (utf8_char c) (utf8 s) (utf8 t))

-- The bytes of a quoted text.
utf8-quoted : (s : Text) → utf8 (quoted s) ≡ b'\'' ∷ (escape (utf8 s) ++ b'\'' ∷ [])
unfolding utf8
utf8-quoted s =
    ap (λ r. b'\'' ∷ r)
      (utf8-append (escape s) (b'\'' ∷ []) ∙ ap (λ r. r ++ b'\'' ∷ []) (utf8-escape s))

abbrev pub is_ascii : Text → Bool
is_ascii = all (λ c. ltb c 0x80)

utf8-ascii : (s : Text) → is_ascii s ≡ true → utf8 s ≡ s
unfolding utf8
utf8-ascii [] h = refl
utf8-ascii (c ∷ s) h = ground (arith, utf8-ascii s)

length-utf8 : (s : Text) → length s ≤ length (utf8 s)
unfolding utf8
length-utf8 [] = omega arith
length-utf8 (c ∷ s) = ground (arith, length-utf8 s)

length-utf8_wide : (s : Text) → is_ascii s ≡ false → length s < length (utf8 s)
unfolding utf8
length-utf8_wide [] h = cc
length-utf8_wide (c ∷ s) h = ground (arith, length-utf8 s, length-utf8_wide s)

utf8_exact : (s : Text) → utf8 s ≡ s → is_ascii s ≡ true
utf8_exact s e = elim (Bool-cases (is_ascii s)) [
  | inl h ↦ h
  | inr h ↦ absurd (omega (arith, length-utf8_wide s h, ap length e))
]

module _ (w : World) where
  open w use {F64}

  lex_loop-quoted :
      (n : ℕ) (bs : List ℕ)
      → lex_loop w (suc n) (b'\'' ∷ (escape bs ++ b'\'' ∷ [])) ≡ ok (str bs ∷ [])
  unfolding lex_loop lex_one
  lex_loop-quoted n bs = rw (scan_string-escape bs)

  -- A quoted text is one token, whose characters are the bytes of the text.
  pub tokenize-quoted : (s : Text) → tokenize w (quoted s) ≡ ok (str (utf8 s) ∷ [])
  unfolding tokenize
  tokenize-quoted s = rw (utf8-quoted s) (lex_loop-quoted _ (utf8 s))

  -- So a literal reads back as it was written exactly when it is ASCII.
  pub tokenize-quoted_iff :
      (s : Text) → (tokenize w (quoted s) ≡ ok (str s ∷ [])) ↔ (is_ascii s ≡ true)
  tokenize-quoted_iff s =
      (λ e. utf8_exact s (cc (tokenize-quoted s)), λ h. rw (utf8-ascii s h) at (tokenize-quoted s))
