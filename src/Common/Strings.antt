-- ===== src/Common/Strings.antt =====
-- Text as the list of its code points, with the operations of Rust's `str` that the program uses.
use Prim.Native.Nat.{ℕ, zero, suc, ◌+◌, ◌/◌, ◌%◌}
use Prim.Native.Char.{code}
use Prim.Native.String.{String}
use mathlib.Core.Path.{◌≡◌, refl, sym, subst}
use mathlib.Core.Logic.{◌↔◌, ◌≢◌}
use mathlib.Core.Bool.{Bool, true, false, ◌&&◌, ◌||◌}
use mathlib.Core.List.{List, [], ◌∷◌, ◌++◌, reverse}
use ci.Common.Lists.{length as text_length}
use mathlib.Core.Option.{Option, none, some}
use native.Mathlib.Omega.{arith}
use ci.Common.Tests.{◌==◌, ltb, leb, if◌then◌else◌}

abbrev pub Text : Type 0
Text = List ℕ

-- The code points of a literal.
abbrev pub codes : String → Text
codes String.[] = []
codes (String.◌∷◌ c s) = code c ∷ codes s

abbrev pub text_eq : Text → Text → Bool
text_eq [] [] = true
text_eq [] (y ∷ ys) = false
text_eq (x ∷ xs) [] = false
text_eq (x ∷ xs) (y ∷ ys) = x == y && text_eq xs ys

pub text_eq→eq : (a b : Text) → text_eq a b ≡ true → a ≡ b
text_eq→eq [] [] h = refl
text_eq→eq [] (y ∷ ys) h = ground arith
text_eq→eq (x ∷ xs) [] h = ground arith
text_eq→eq (x ∷ xs) (y ∷ ys) h = ground (arith, text_eq→eq xs ys)

pub text_eq_refl : (a : Text) → text_eq a a ≡ true
text_eq_refl [] = refl
text_eq_refl (x ∷ xs) = ground (arith, text_eq_refl xs)

pub text_eq_iff : (a b : Text) → (text_eq a b ≡ true) ↔ (a ≡ b)
text_eq_iff a b = (text_eq→eq a b, λ e. rw e (text_eq_refl b))

pub text_eq_apart : (a b c : Text) → text_eq a b ≡ true → text_eq b c ≡ false → text_eq a c ≡ false
text_eq_apart a b c e d = subst (λ y. text_eq y c ≡ false) (sym (text_eq→eq a b e)) d

pub text_eq_of_ne : (a b : Text) → a ≢ b → text_eq a b ≡ false
text_eq_of_ne a b h = go (text_eq a b) refl
  where
    go : (t : Bool) → text_eq a b ≡ t → text_eq a b ≡ false
    go true e = absurd (h (text_eq→eq a b e))
    go false e = e

-- `char::is_whitespace`: the code points with the property White_Space.
abbrev pub is_whitespace : ℕ → Bool
is_whitespace c =
    leb 9 c && leb c 13
    || c == 32
    || c == 0x85
    || c == 0xa0
    || c == 0x1680
    || leb 0x2000 c && leb c 0x200a
    || c == 0x2028
    || c == 0x2029
    || c == 0x202f
    || c == 0x205f
    || c == 0x3000

-- Drops the elements at the front that pass a test.
abbrev pub drop_while : (ℕ → Bool) → Text → Text
drop_while p [] = []
drop_while p (c ∷ s) = let rest = drop_while p s in if p c then rest else c ∷ s

-- `str::trim_matches` with a test, and `str::trim`.
abbrev pub trim_matches : (ℕ → Bool) → Text → Text
trim_matches p s = reverse (drop_while p (reverse (drop_while p s)))

abbrev pub trim : Text → Text
trim = trim_matches is_whitespace

-- `str::strip_prefix`.
abbrev pub strip_prefix : Text → Text → Option Text
strip_prefix [] s = some s
strip_prefix (c ∷ p) [] = none
strip_prefix (c ∷ p) (d ∷ s) = let rest = strip_prefix p s in if c == d then rest else none

-- `str::split` at one character: the pieces between its occurrences, at least one.
abbrev pub cons_first : ℕ → List Text → List Text
cons_first c [] = (c ∷ []) ∷ []
cons_first c (w ∷ ws) = (c ∷ w) ∷ ws

abbrev pub split : ℕ → Text → List Text
split sep [] = [] ∷ []
split sep (c ∷ s) = let rest = split sep s in if c == sep then [] ∷ rest else cons_first c rest

-- `[&str]::join`.
abbrev pub join : Text → List Text → Text
join sep [] = []
join sep (w ∷ []) = w
join sep (w ∷ v ∷ ws) = w ++ (sep ++ join sep (v ∷ ws))

-- `u8::is_ascii_digit`, `is_ascii_alphabetic` and `is_ascii_alphanumeric`.
abbrev pub is_digit : ℕ → Bool
is_digit c = leb b'0' c && leb c b'9'

abbrev pub is_alpha : ℕ → Bool
is_alpha c = leb b'a' c && leb c b'z' || leb b'A' c && leb c b'Z'

abbrev pub is_alnum : ℕ → Bool
is_alnum c = is_alpha c || is_digit c

-- `str::starts_with`, `str::contains`, `str::ends_with`.
abbrev pub starts_with : Text → Text → Bool
starts_with [] s = true
starts_with (c ∷ p) [] = false
starts_with (c ∷ p) (d ∷ s) = c == d && starts_with p s

abbrev pub contains : Text → Text → Bool
contains [] p = starts_with p []
contains (c ∷ s) p = starts_with p (c ∷ s) || contains s p

abbrev pub ends_with : Text → Text → Bool
ends_with s p = starts_with (reverse p) (reverse s)

-- `str::replace` of a text that is not empty. The first argument counts the characters of the last
-- occurrence that are still to be passed over.
abbrev replace_from : ℕ → Text → Text → Text → Text
replace_from skip old new [] = []
replace_from (suc skip) old new (c ∷ s) = replace_from skip old new s
replace_from zero [] new (c ∷ s) = c ∷ s
replace_from zero (o ∷ old) new (c ∷ s) =
    let found = new ++ replace_from (text_length old) (o ∷ old) new s in
    let missed = c ∷ replace_from zero (o ∷ old) new s in
    if starts_with (o ∷ old) (c ∷ s) then found else missed

abbrev pub replace : Text → Text → Text → Text
replace = replace_from 0

-- `usize::to_string`. The fuel is the number itself, which is no less than its digits but one.
abbrev pub decimal_from : ℕ → ℕ → Text → Text
decimal_from zero n acc = (b'0' + n % 10) ∷ acc
decimal_from (suc f) n acc =
    let more = decimal_from f (n / 10) ((b'0' + n % 10) ∷ acc) in
    if ltb n 10 then (b'0' + n) ∷ acc else more

abbrev pub decimal : ℕ → Text
decimal n = decimal_from n n []
