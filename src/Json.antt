-- ===== src/Json.antt =====
-- JSON values as the program holds them (`serde_json::Value`), and its maps with text keys.
-- `serde_json` and the floating-point numbers are not part of the program: their operations are the
-- fields of `Numerics` and `JsonText`, and any values of these types serve.
pub mod Maps
use ci.Common.{
  ℕ, zero, suc, Bool, true, false, ◌&&◌, ◌||◌, List, [], ◌∷◌, Option, none, some, Text, text_eq,
  ltb, ◌==◌, if◌then◌else◌,
}

-- `f64`, and `serde_json::Number` with its conversions.
pub record Numerics : Type 1 where
  pub F64 : Type 0
  pub Number : Type 0
  -- `str::parse::<f64>`.
  pub parse_f64 : Text → Option F64
  -- `n.fract() == 0.0`, `n.abs() < 9_007_199_254_740_992.0`, `(n as i64).into()`.
  pub is_integral : F64 → Bool
  pub is_exact : F64 → Bool
  pub number_of_i64 : F64 → Number
  pub number_of_f64 : F64 → Option Number
  pub as_f64 : Number → Option F64
  pub f_zero : F64
  pub f_one : F64
  -- The comparisons of `f64`.
  pub feq : F64 → F64 → Bool
  pub fgt : F64 → F64 → Bool
  pub fge : F64 → F64 → Bool
  pub flt : F64 → F64 → Bool
  pub fle : F64 → F64 → Bool
  -- `Number::to_string`.
  pub number_text : Number → Text

mutual
  pub data Value (N : Type 0) : Type 0 where
    null : Value N
    bool : Bool → Value N
    number : N → Value N
    string : Text → Value N
    array : Items N → Value N
    object : Fields N → Value N

  pub data Items (N : Type 0) : Type 0 where
    nil : Items N
    cons : Value N → Items N → Items N

  pub data Fields (N : Type 0) : Type 0 where
    end : Fields N
    field : Text → Value N → Fields N → Fields N

-- `Map::get` and `Vec::get`.
module _ {N : Type 0} where
  unfoldable pub get_field : Text → Fields N → Option (Value N)
  get_field k end = none
  get_field k (field j v fs) = let rest = get_field k fs in if text_eq j k then some v else rest

  unfoldable pub get_item : ℕ → Items N → Option (Value N)
  get_item i nil = none
  get_item zero (cons v vs) = some v
  get_item (suc i) (cons v vs) = get_item i vs

  unfoldable pub item_list : Items N → List (Value N)
  item_list nil = []
  item_list (cons v vs) = v ∷ item_list vs

  unfoldable pub is_nil : Items N → Bool
  is_nil nil = true
  is_nil (cons v vs) = false

  unfoldable pub is_end : Fields N → Bool
  is_end end = true
  is_end (field k v fs) = false

-- The order of keys in a `BTreeMap<String, _>`: by bytes, which is the order by code points.
abbrev pub text_lt : Text → Text → Bool
text_lt [] [] = false
text_lt [] (y ∷ ys) = true
text_lt (x ∷ xs) [] = false
text_lt (x ∷ xs) (y ∷ ys) = ltb x y || x == y && text_lt xs ys

-- `BTreeMap::insert`, `get`, `contains_key`: the entries in the order of their keys.
module _ {ℓ} {V : Type ℓ} where
  unfoldable pub map_insert : Text → V → List (Text × V) → List (Text × V)
  map_insert k v [] = (k, v) ∷ []
  map_insert k v ((j, w) ∷ m) =
      let rest = map_insert k v m in
      if text_eq j k then (k, v) ∷ m else if text_lt k j then (k, v) ∷ (j, w) ∷ m else (j, w) ∷ rest

  unfoldable pub map_get : Text → List (Text × V) → Option V
  map_get k [] = none
  map_get k ((j, v) ∷ m) = let rest = map_get k m in if text_eq j k then some v else rest

module _ {N : Type 0} where
  -- An object from the entries of a map, in their order.
  unfoldable pub fields_of : List (Text × Value N) → Fields N
  fields_of [] = end
  fields_of ((k, v) ∷ m) = field k v (fields_of m)

  abbrev pub insert_all : List (Text × Value N) → List (Text × Value N) → List (Text × Value N)
  insert_all dst [] = dst
  insert_all dst ((k, v) ∷ src) = insert_all (map_insert k v dst) src
