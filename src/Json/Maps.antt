-- ===== src/Json/Maps.antt =====
-- Reading a map of src's `BTreeMap`s and JSON objects after an insertion.
use ci.Common.{
  ◌≡◌, ap, ◌∙◌, false, List, [], ◌∷◌, some, Text, text_eq, text_eq→eq, text_eq_refl, arith,
  Bool-cases, inl, inr,
}
use ci.Json.{map_insert, map_get}

module _ {V : Type 0} where
  pub map_get-map_insert-same :
      (k : Text) (v : V) (m : List (Text × V)) → map_get k (map_insert k v m) ≡ some v
  unfolding map_get map_insert
  map_get-map_insert-same k v [] = ground (arith, text_eq_refl k)
  map_get-map_insert-same k v ((j, w) ∷ m) =
      ground (arith, text_eq_refl k, map_get-map_insert-same k v m)

  pub map_get-map_insert-other :
      (k l : Text) (v : V) (m : List (Text × V))
      → text_eq k l ≡ false
      → map_get l (map_insert k v m) ≡ map_get l m
  unfolding map_get map_insert
  map_get-map_insert-other k l v [] h = ground arith
  map_get-map_insert-other k l v ((j, w) ∷ m) h =
      let ih = map_get-map_insert-other k l v m h in
      elim (Bool-cases (text_eq j k)) [
        | inl e ↦
            let other : text_eq j l ≡ false = ap (λ x. text_eq x l) (text_eq→eq j k e) ∙ h in
            ground arith
        | inr e ↦ ground arith
      ]
