-- ===== src/Plan/Matrix/Cells.antt =====
-- The product of the axes of a matrix: a cell for every choice of one value from each axis.
use mathlib.Core.Path.{subst}
use ci.Common.{
  ℕ, ◌*◌, ◌≡◌, refl, sym, ap, ◌∙◌, not, List, [], ◌∷◌, some, Text, text_eq, text_eq→eq, length,
  length-append, is_empty, In, In-append-left, In-append-right, All, >>=-eq-ok, inl, inr, arith,
  Bool-cases, ok, require,
}
use ci.Json.{Value, map_insert, map_get}
use ci.Json.Maps.{map_get-map_insert-same, map_get-map_insert-other}
use ci.Plan.Matrix.{with_values, cross, product, empty_axis}

module _ {N : Type 0} where
  -- The number of choices.
  abbrev pub choices : List (Text × List (Value N)) → ℕ
  choices [] = 1
  choices ((name, values) ∷ axes) = length values * choices axes

  length-with_values :
      (name : Text) (values : List (Value N)) (base : List (Text × Value N))
      → length (with_values name values base) ≡ length values
  length-with_values name [] base = refl
  length-with_values name (v ∷ vs) base = omega (arith, length-with_values name vs base)

  length-cross :
      (name : Text) (values : List (Value N)) (bases : List (List (Text × Value N)))
      → length (cross name values bases) ≡ length bases * length values
  length-cross name values [] = omega arith
  length-cross name values (b ∷ bs) = omega (
    arith,
    length-append (with_values name values b) (cross name values bs),
    length-with_values name values b,
    length-cross name values bs,
  )

  -- The cell of a choice `f`: every axis gets its value.
  choose :
      (Text → Value N)
      → List (Text × List (Value N))
      → List (Text × Value N)
      → List (Text × Value N)
  choose f [] base = base
  choose f ((name, values) ∷ axes) base = choose f axes (map_insert name (f name) base)

  choose-keeps :
      (f : Text → Value N) (axes : List (Text × List (Value N))) (base : List (Text × Value N))
      (k : Text)
      → map_get k base ≡ some (f k)
      → map_get k (choose f axes base) ≡ some (f k)
  unfolding choose
  choose-keeps f [] base k h = h
  choose-keeps f ((name, values) ∷ axes) base k h =
      choose-keeps f axes (map_insert name (f name) base) k (elim (Bool-cases (text_eq name k)) [
        | inl e ↦
            subst (λ j. map_get k (map_insert j (f j) base) ≡ some (f k))
              (sym (text_eq→eq name k e)) (map_get-map_insert-same k (f k) base)
        | inr e ↦ map_get-map_insert-other name k (f name) base e ∙ h
      ])

  choose-Chosen :
      (f : Text → Value N) (axes : List (Text × List (Value N))) (base : List (Text × Value N))
      → All (λ axis. map_get axis.0 (choose f axes base) ≡ some (f axis.0)) axes
  unfolding choose
  choose-Chosen f [] base = tt
  choose-Chosen f ((name, values) ∷ axes) base = (
    choose-keeps f axes (map_insert name (f name) base) name
        (map_get-map_insert-same name (f name) base),
    choose-Chosen f axes (map_insert name (f name) base),
  )

  In-with_values :
      (name : Text) (v : Value N) (values : List (Value N)) (base : List (Text × Value N))
      → In v values
      → In (map_insert name v base) (with_values name values base)
  In-with_values name v [] base m = m
  In-with_values name v (u ∷ us) base (inl e) = inl (ap (λ z. map_insert name z base) e)
  In-with_values name v (u ∷ us) base (inr m) = inr (In-with_values name v us base m)

  In-cross :
      (name : Text) (v : Value N) (values : List (Value N)) (base : List (Text × Value N))
      (bases : List (List (Text × Value N)))
      → In v values
      → In base bases
      → In (map_insert name v base) (cross name values bases)
  In-cross name v values base [] m n = n
  In-cross name v values base (b ∷ bs) m (inl e) =
      In-append-left _ (with_values name values b) (cross name values bs) (
        subst (λ z. In (map_insert name v z) (with_values name values b)) e
          (In-with_values name v values b m))
  In-cross name v values base (b ∷ bs) m (inr n) =
      In-append-right _ (with_values name values b) (cross name values bs)
        (In-cross name v values base bs m n)

  product-length :
      (axes : List (Text × List (Value N))) (bases : List (List (Text × Value N)))
      → {cells : List (List (Text × Value N))} → product axes bases ≡ ok cells
      → length cells ≡ length bases * choices axes
  unfolding product
  product-length [] bases {cells} e =
      let same : bases ≡ cells = ground arith in omega (arith, ap length same)
  product-length ((name, values) ∷ axes) bases e =
      let (done, r, rest) = >>=-eq-ok (require (not (is_empty values)) (empty_axis name)) _ e in
      product-length axes (cross name values bases) rest
      ∙ ap (λ n. n * choices axes) (length-cross name values bases)
      ∙ omega arith

  product-choose :
      (f : Text → Value N) (axes : List (Text × List (Value N))) (base : List (Text × Value N))
      (bases : List (List (Text × Value N)))
      → All (λ axis. In (f axis.0) axis.1) axes
      → In base bases
      → {cells : List (List (Text × Value N))} → product axes bases ≡ ok cells
      → In (choose f axes base) cells
  unfolding product choose
  product-choose f [] base bases h m e = subst (In base) (ground arith) m
  product-choose f ((name, values) ∷ axes) base bases h m e =
      let (done, r, rest) = >>=-eq-ok (require (not (is_empty values)) (empty_axis name)) _ e in
      product-choose f axes (map_insert name (f name) base) (cross name values bases) h.1
        (In-cross name (f name) values base bases h.0 m) rest

  -- The product of the axes has as many cells as there are choices of one value from each axis, and
  -- for every such choice it has a cell with the chosen value of every axis.
  pub product-choices :
      (axes : List (Text × List (Value N))) {cells : List (List (Text × Value N))}
      → product axes ([] ∷ []) ≡ ok cells
      → (length cells ≡ choices axes)
        × ((f : Text → Value N)
            → All (λ axis. In (f axis.0) axis.1) axes
            → (cell : List (Text × Value N)) × In cell cells
              × All (λ axis. map_get axis.0 cell ≡ some (f axis.0)) axes)
  product-choices axes e = (
    omega (arith, product-length axes ([] ∷ []) e),
    λ f h. (
      choose f axes [],
      product-choose f axes [] ([] ∷ []) h (inl refl) e,
      choose-Chosen f axes [],
    ),
  )
