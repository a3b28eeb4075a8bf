-- ===== src/Expr/Values.antt =====
-- Values in an expression: truth, loose equality, numbers and property access. They are the
-- functions of src/expr.rs that take no tokens.
use ci.Common.{
  ℕ, ◌+◌, ◌*◌, ◌-◌, ◌^◌, Bool, true, false, not, ◌&&◌, List, [], ◌∷◌, Option, none, some, Text,
  codes, text_eq, trim, is_digit, is_empty, ltb, ◌==◌, if◌then◌else◌,
}
use ci.Json
use ci.Json.{
  Value, Items, Fields, null, bool, number, string, array, object, get_field, get_item, is_nil,
  is_end,
}
use mathlib.Core.Option

-- What the language takes from outside: numbers, JSON text, and globs on changed paths.
pub record World : Type 1 where
  pub numerics : Json.Numerics
  pub open numerics use *
  -- `Value::to_string` and `serde_json::from_str`.
  pub json_text : Value Number → Text
  pub parse_json : Text → Option (Value Number)

-- `str::parse::<usize>`: an optional `+` and at least one digit, below 2 ^ 64.
abbrev digits_value : ℕ → Text → Option ℕ
digits_value n [] = if ltb n (2 ^ 64) then some n else none
digits_value n (c ∷ s) =
    let rest = digits_value (n * 10 + (c - b'0')) s in if is_digit c then rest else none

abbrev unsigned_digits : Text → Option ℕ
unsigned_digits [] = none
unsigned_digits (c ∷ s) = digits_value 0 (c ∷ s)

unfoldable pub parse_usize : Text → Option ℕ
parse_usize [] = none
parse_usize (c ∷ s) = if c == b'+' then unsigned_digits s else unsigned_digits (c ∷ s)

abbrev bool_text : Bool → Text
bool_text true = codes "true"
bool_text false = codes "false"

module _ (w : World) where
  open w use {
    F64, Number, is_integral, is_exact, number_of_i64, number_of_f64, as_f64, feq, f_zero, f_one,
    number_text, parse_f64, json_text,
  }

  -- One step of `walk`.
  unfoldable pub property : Value Number → Text → Value Number
  property (object fs) seg = Option.get_or (get_field seg fs) null
  property (array vs) seg = Option.get_or (Option.bind (parse_usize seg) (λ i. get_item i vs)) null
  property _ seg = null

  unfoldable pub walk : Value Number → List Text → Value Number
  unfolding property
  walk cur [] = cur
  walk cur (seg ∷ segs) = walk (property cur seg) segs

  unfoldable pub to_number : F64 → Value Number
  to_number n =
      if is_integral n && is_exact n
      then number (number_of_i64 n)
      else elim (number_of_f64 n) [ none ↦ null | some m ↦ number m ]

  unfoldable pub to_display : Value Number → Text
  to_display null = []
  to_display (string s) = s
  to_display (bool b) = bool_text b
  to_display (number n) = number_text n
  to_display (array vs) = json_text (array vs)
  to_display (object fs) = json_text (object fs)

  unfoldable pub truthy : Value Number → Bool
  truthy null = false
  truthy (bool b) = b
  truthy (number n) = elim (as_f64 n) [ none ↦ false | some f ↦ not (feq f f_zero) ]
  truthy (string s) =
      not (is_empty s) && not (text_eq s (codes "false")) && not (text_eq s (codes "0"))
  truthy (array vs) = not (is_nil vs)
  truthy (object fs) = not (is_end fs)

  -- `x.as_f64() == y.as_f64()`, an equation between options.
  abbrev same_float : Option F64 → Option F64 → Bool
  same_float none none = true
  same_float none (some y) = false
  same_float (some x) none = false
  same_float (some x) (some y) = feq x y

  unfoldable pub loose_eq : Value Number → Value Number → Bool
  unfolding to_display
  loose_eq null null = true
  loose_eq (bool x) (bool y) = if x then y else not y
  loose_eq (number x) (number y) = same_float (as_f64 x) (as_f64 y)
  loose_eq (string x) (string y) = text_eq x y
  loose_eq null b = false
  loose_eq a null = false
  loose_eq a b = text_eq (to_display a) (to_display b)

  unfoldable pub as_number : Value Number → Option F64
  as_number (number n) = as_f64 n
  as_number (string s) = parse_f64 (trim s)
  as_number (bool b) = some (if b then f_one else f_zero)
  as_number _ = none
