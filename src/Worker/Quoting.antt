-- ===== src/Worker/Quoting.antt =====
-- A reader of the words of a shell, and that it reads what `shell_quote` of src/dispatch.rs writes.
use ci.Common.{
  ℕ, ◌≡◌, refl, Bool, true, false, [], ◌∷◌, ◌++◌, Option, none, some, Text, codes, any, replace,
  if◌then◌else◌, ◌==◌, ◌&&◌, arith, if-false, Bool-cases, inl, inr,
}
use mathlib.Core.Path.{subst}
use ci.Worker.Commands.{shell_quote}

-- Where the reader is: outside quotes, between single quotes, behind a backslash.
pub data Mode : Type 0 where
  plain quoted escaped : Mode

-- What ends a word outside quotes.
abbrev pub ends_word : ℕ → Bool
ends_word c = any (λ d. d == c) (9 ∷ 10 ∷ codes " ;&|<>()")

-- What a shell expands outside quotes, which this reader does not read.
abbrev pub is_expanded : ℕ → Bool
is_expanded c = any (λ d. d == c) (codes "$`\"*?[]{}~#!=%")

abbrev add_char : ℕ → Option (Text × Text) → Option (Text × Text)
add_char c none = none
add_char c (some (word, rest)) = some (c ∷ word, rest)

-- The first word of a command, without its quotes, and what is behind it.
unfoldable pub read_word : Mode → Text → Option (Text × Text)
read_word plain [] = some ([], [])
read_word plain (c ∷ s) =
    let on = add_char c (read_word plain s) in
    let inside = read_word quoted s in
    let after = read_word escaped s in
    if c == 39
    then inside
    else if c == 92
    then after
    else if ends_word c
    then some ([], c ∷ s)
    else if is_expanded c
    then none
    else on
read_word quoted [] = none
read_word quoted (c ∷ s) =
    let on = add_char c (read_word quoted s) in
    let outside = read_word plain s in if c == 39 then outside else on
read_word escaped [] = none
read_word escaped (c ∷ s) = let on = read_word plain s in if c == 10 then on else add_char c on

-- The text stops a word: it is empty, or begins with a character that ends one.
abbrev pub stops : Text → Bool
stops [] = true
stops (c ∷ s) = ends_word c

plain-stops : (rest : Text) → stops rest ≡ true → read_word plain rest ≡ some ([], rest)
unfolding read_word
plain-stops [] h = refl
plain-stops (c ∷ s) h = ground (arith, h)

abbrev escaped_quotes : Text → Text
escaped_quotes = replace (39 ∷ []) (codes "'\\''")

read_word-quoted :
    (c : ℕ) (s : Text)
    → (c == 39) ≡ false
    → read_word quoted (c ∷ s) ≡ add_char c (read_word quoted s)
unfolding read_word
read_word-quoted c s h = ground (arith, h)

escaped_quotes-kept :
    (c : ℕ) (s : Text) → (c == 39) ≡ false → escaped_quotes (c ∷ s) ≡ c ∷ escaped_quotes s
escaped_quotes-kept c s h = if-false (39 == c && true) _ _ (ground (arith, h))

abbrev Reads : Text → Text → Type 0
Reads rest s = read_word quoted ((escaped_quotes s ++ (39 ∷ [])) ++ rest) ≡ some (s, rest)

mark-Reads : (s rest : Text) → Reads rest s → Reads rest (39 ∷ s)
unfolding read_word
mark-Reads s rest h = rw h refl

char-Reads : (c : ℕ) (s rest : Text) → (c == 39) ≡ false → Reads rest s → Reads rest (c ∷ s)
char-Reads c s rest k h =
    rw (escaped_quotes-kept c s k)
      (rw (read_word-quoted c ((escaped_quotes s ++ (39 ∷ [])) ++ rest) k) (rw h refl))

quoted-Reads : (s rest : Text) → stops rest ≡ true → Reads rest s
quoted-Reads [] rest h = unfold read_word in plain-stops rest h
quoted-Reads (c ∷ s) rest h = elim (Bool-cases (c == 39)) [
  | inl e ↦
      subst (λ d. Reads rest (d ∷ s)) (ground (arith, e))
        (mark-Reads s rest (quoted-Reads s rest h))
  | inr k ↦ char-Reads c s rest k (quoted-Reads s rest h)
]

-- Whatever the text is, a shell that reads `shell_quote` of it in front of the end of a command, a
-- blank or a `;`, reads one word, which is the text.
pub shell_quote-reads :
    (s rest : Text) → stops rest ≡ true → read_word plain (shell_quote s ++ rest) ≡ some (s, rest)
unfolding shell_quote read_word
shell_quote-reads s rest h = quoted-Reads s rest h
