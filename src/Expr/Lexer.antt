-- ===== src/Expr/Lexer.antt =====
-- `tokenize` of src/expr.rs. The source walks the bytes of the text (`s.as_bytes()`); an index is
-- modelled by the bytes from there on.
pub mod Literals
pub mod Fuel
use ci.Common.{
  ℕ, zero, suc, ◌+◌, ◌*◌, ◌-◌, ◌/◌, ◌%◌, Bool, true, false, not, ◌&&◌, ◌||◌, List, [], ◌∷◌, ◌++◌,
  Option, none, some, Text, is_digit, is_alnum, length, ltb, ◌==◌, if◌then◌else◌, Result, ok, err,
  ◌>>=◌,
}
use ci.Expr.Values.{World}

pub data Tok (F64 : Type 0) : Type 0 where
  ident : Text → Tok F64
  str : Text → Tok F64
  num : F64 → Tok F64
  dot lparen rparen comma eq_eq not_eq gt ge lt le and or bang : Tok F64

-- `ExprError`. Where the source stores the debug text of a token, this stores the token.
pub data ExprError (F64 : Type 0) : Type 0 where
  unexpected_char : ℕ → ExprError F64
  unterminated_string unclosed_paren : ExprError F64
  bad_number : Text → ExprError F64
  trailing_dot : List Text → ExprError F64
  unexpected : Option (Tok F64) → ExprError F64
  trailing : Tok F64 → ExprError F64
  unknown_function : Text → ExprError F64

-- How a run ends early: with the program's error, or with this model's fuel used up.
pub data Stop (F64 : Type 0) : Type 0 where
  fault : ExprError F64 → Stop F64
  out_of_fuel : Stop F64

-- `str::as_bytes`: the UTF-8 encoding.
abbrev utf8_char : ℕ → List ℕ
utf8_char c =
    if ltb c 0x80
    then c ∷ []
    else if ltb c 0x800
    then (0xc0 + c / 64) ∷ (0x80 + c % 64) ∷ []
    else if ltb c 0x10000
    then (0xe0 + c / 4096) ∷ (0x80 + c / 64 % 64) ∷ (0x80 + c % 64) ∷ []
    else (0xf0 + c / 262144) ∷ (0x80 + c / 4096 % 64) ∷ (0x80 + c / 64 % 64) ∷ (0x80 + c % 64) ∷ []

unfoldable pub utf8 : Text → List ℕ
utf8 [] = []
utf8 (c ∷ s) = utf8_char c ++ utf8 s

-- `u8::is_ascii_whitespace`.
abbrev is_ascii_space : ℕ → Bool
is_ascii_space c = c == 32 || c == 9 || c == 10 || c == 12 || c == 13

abbrev is_ident_byte : ℕ → Bool
is_ident_byte c = is_alnum c || c == b'_' || c == b'-' || c == b'*'

-- `b.get(i + 1) == Some(&c)`.
abbrev pub next_is : ℕ → List ℕ → Bool
next_is c [] = false
next_is c (d ∷ s) = d == c

abbrev next_is_digit : List ℕ → Bool
next_is_digit [] = false
next_is_digit (d ∷ s) = is_digit d

-- One byte on: `i += 1` once more.
abbrev skip_one : List ℕ → List ℕ
skip_one [] = []
skip_one (c ∷ s) = s

abbrev Scanned : Type 0
Scanned = Text × List ℕ

abbrev scanned_more : ℕ → Scanned → Scanned
scanned_more c (word, rest) = (c ∷ word, rest)

unfoldable pub scan_ident : List ℕ → Scanned
scan_ident [] = ([], [])
scan_ident (c ∷ s) =
    let more = scan_ident s in if is_ident_byte c then scanned_more c more else ([], c ∷ s)

-- A dot goes on a number only where a digit follows it.
unfoldable pub scan_number : List ℕ → Scanned
scan_number [] = ([], [])
scan_number (c ∷ s) =
    let more = scan_number s in
    if is_digit c || c == b'.' && next_is_digit s then scanned_more c more else ([], c ∷ s)

abbrev literal_more : ℕ → Option Scanned → Option Scanned
literal_more c none = none
literal_more c (some more) = some (scanned_more c more)

-- The bytes of a string literal behind its opening quote, each pushed as a character; `none` is
-- the end of the text.
unfoldable pub scan_string : ℕ → List ℕ → Option Scanned
scan_string quote [] = none
scan_string quote (c ∷ []) = if c == quote then some ([], []) else none
scan_string quote (c ∷ d ∷ s) =
    let escaped = literal_more b'\'' (scan_string quote s) in
    let more = literal_more c (scan_string quote (d ∷ s)) in
    if c == quote then if quote == b'\'' && d == b'\'' then escaped else some ([], d ∷ s) else more

module _ (w : World) where
  open w use {F64, parse_f64}

  abbrev Lexed : Type 0
  Lexed = Result (Stop F64) (List (Tok F64) × List ℕ)

  abbrev token : Tok F64 → List ℕ → Lexed
  token t rest = ok (t ∷ [], rest)

  abbrev string_token : Option Scanned → Lexed
  string_token none = err (fault unterminated_string)
  string_token (some (lit, rest)) = token (str lit) rest

  abbrev number_token : Scanned → Lexed
  number_token (text, rest) = elim (parse_f64 text) [
    | none ↦ err (fault (bad_number text))
    | some n ↦ token (num n) rest
  ]

  abbrev ident_token : Scanned → Lexed
  ident_token (name, rest) = token (ident name) rest

  -- One round of the outer loop, at the byte `c` with `s` behind it. Blanks yield no token.
  unfoldable pub lex_one : ℕ → List ℕ → Lexed
  lex_one c s =
      if is_ascii_space c
      then ok ([], s)
      else if c == b'.'
      then token dot s
      else if c == b'('
      then token lparen s
      else if c == b')'
      then token rparen s
      else if c == b','
      then token comma s
      else if c == b'=' && next_is b'=' s
      then token eq_eq (skip_one s)
      else if c == b'!' && next_is b'=' s
      then token not_eq (skip_one s)
      else if c == b'!'
      then token bang s
      else if c == b'>' && next_is b'=' s
      then token ge (skip_one s)
      else if c == b'>'
      then token gt s
      else if c == b'<' && next_is b'=' s
      then token le (skip_one s)
      else if c == b'<'
      then token lt s
      else if c == b'&' && next_is b'&' s
      then token and (skip_one s)
      else if c == b'|' && next_is b'|' s
      then token or (skip_one s)
      else if c == b'\'' || c == b'"'
      then string_token (scan_string c s)
      else if is_digit c
      then number_token (scan_number (c ∷ s))
      else if is_ident_byte c
      then ident_token (scan_ident (c ∷ s))
      else err (fault (unexpected_char c))

  unfoldable pub lex_loop : ℕ → List ℕ → Result (Stop F64) (List (Tok F64))
  lex_loop f [] = ok []
  lex_loop zero (c ∷ s) = err out_of_fuel
  lex_loop (suc f) (c ∷ s) = do
    (found, rest) ← lex_one c s
    more ← lex_loop f rest
    ok (found ++ more)

  unfoldable pub tokenize : Text → Result (Stop F64) (List (Tok F64))
  tokenize s = lex_loop (length (utf8 s)) (utf8 s)
