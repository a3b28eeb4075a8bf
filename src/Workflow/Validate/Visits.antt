-- ===== src/Workflow/Validate/Visits.antt =====
-- What a visit of the search for a cycle does to the marks, and the order that it finishes nodes in.
use mathlib.Core.Path.{subst}
use ci.Common.{
  ◌⊎◌, ℕ, zero, suc, ◌≡◌, refl, sym, ◌∙◌, Bool, true, false, List, [], ◌∷◌, ◌++◌, Option, none,
  some, Text, text_eq, text_eq→eq, text_eq_refl, arith, All, Bool-cases, inl, inr, Result, ok, err,
  ◌>>=◌,
}
use ci.Json.{map_insert, map_get}
use ci.Json.Maps.{map_get-map_insert-same, map_get-map_insert-other}
use ci.Plan.Order.{member}
use ci.Workflow.Validate.Cycle.{
  Mark, open_mark, done_mark, Marks, CycleStop, out_of_fuel, visit_each, needs_in, marked,
  close_node, visit,
}

-- A map after an insertion, at any key.
pub map_get-insert :
    {V : Type 0} (k l : Text) (v : V) (m : List (Text × V))
    → ((text_eq k l ≡ true) × (map_get l (map_insert k v m) ≡ some v))
      ⊎ ((text_eq k l ≡ false) × (map_get l (map_insert k v m) ≡ map_get l m))
map_get-insert k l v m = elim (Bool-cases (text_eq k l)) [
  | inl e ↦ inl (
    e,
    subst (λ j. map_get j (map_insert k v m) ≡ some v) (text_eq→eq k l e)
        (map_get-map_insert-same k v m),
  )
  | inr e ↦ inr (e, map_get-map_insert-other k l v m e)
]

-- A node has one mark.
pub unmarked-same :
    (node x : Text) (marks : Marks)
    → text_eq node x ≡ true
    → map_get node marks ≡ none
    → map_get x marks ≡ none
unmarked-same node x marks i new = subst (λ y. map_get y marks ≡ none) (text_eq→eq node x i) new

pub unmarked-clash : {mark : Mark} {o : Option Mark} → o ≡ none → o ≡ some mark → ⊥
unmarked-clash p q = cc

open-clash : {o : Option Mark} → o ≡ some open_mark → o ≡ some done_mark → ⊥
open-clash {o} p q = differ (sym p ∙ q)
  where
    differ : some open_mark ≡ some done_mark → ⊥
    differ e = cc

module _ (deps : List (Text × List Text)) where
  abbrev pub is_id : Text → Bool
  is_id n = elim (map_get n deps) [ none ↦ false | some needs ↦ true ]

  -- Every need that is an id has come before. The newest node is first.
  abbrev pub NeedsIn : List Text → List Text → Type 0
  NeedsIn order needs = All (λ n. is_id n ≡ true → member n order ≡ true) needs

  unfoldable pub Finished : List Text → Type 0
  Finished [] = Unit {0}
  Finished (x ∷ xs) = NeedsIn xs (needs_in deps x) × (member x xs ≡ false) × Finished xs

  pub record Good (marks : Marks) (order : List Text) : Type 0 where
    pub finished : Finished order
    pub listed : (x : Text) → map_get x marks ≡ some done_mark → member x order ≡ true
    pub marked_done : (x : Text) → member x order ≡ true → map_get x marks ≡ some done_mark

  pub record Grown (marks : Marks) (order : List Text) (marks' : Marks) (order' : List Text)
      : Type 0 where
    pub good : Good marks' order'
    pub opens : (x : Text) → map_get x marks ≡ some open_mark → map_get x marks' ≡ some open_mark
    pub keeps : (x : Text) → member x order ≡ true → member x order' ≡ true

  -- What a visit that ends without a cycle says.
  pub Leads : Marks → List Text → Text → Result CycleStop Marks → Type 0
  Leads marks order node (err e) = Unit {0}
  Leads marks order node (ok marks') =
      (order' : List Text) × Grown marks order marks' order' × (member node order' ≡ true)

  unfoldable pub LeadsAll : Marks → List Text → List Text → Result CycleStop Marks → Type 0
  LeadsAll marks order needs (err e) = Unit {0}
  LeadsAll marks order needs (ok marks') =
      (order' : List Text) × Grown marks order marks' order' × NeedsIn order' needs

  pub same-Grown :
      (marks : Marks) (order : List Text) → Good marks order → Grown marks order marks order
  same-Grown marks order g = record { good = g; opens = λ x h. h; keeps = λ x h. h }

  trans-Grown :
      (m₁ : Marks) (o₁ : List Text) (m₂ : Marks) (o₂ : List Text) (m₃ : Marks) (o₃ : List Text)
      → Grown m₁ o₁ m₂ o₂
      → Grown m₂ o₂ m₃ o₃
      → Grown m₁ o₁ m₃ o₃
  trans-Grown m₁ o₁ m₂ o₂ m₃ o₃ g h = record {
    good = h.good;
    opens = λ x e. h.opens x (g.opens x e);
    keeps = λ x e. h.keeps x (g.keeps x e);
  }

  skipped-LeadsAll :
      (n : Text) (ns : List Text) (marks : Marks) (order : List Text) (r : Result CycleStop Marks)
      → is_id n ≡ false
      → LeadsAll marks order ns r
      → LeadsAll marks order (n ∷ ns) r
  unfolding LeadsAll
  skipped-LeadsAll n ns marks order (err e) absent h = tt
  skipped-LeadsAll n ns marks order (ok m) absent (o, g, each) = (o, g, ((λ y. ground arith), each))

  later-LeadsAll :
      (n : Text) (ns : List Text) (marks : Marks) (order : List Text) (m : Marks) (o : List Text)
      (r : Result CycleStop Marks)
      → Grown marks order m o
      → member n o ≡ true
      → LeadsAll m o ns r
      → LeadsAll marks order (n ∷ ns) r
  unfolding LeadsAll
  later-LeadsAll n ns marks order m o (err e) g done h = tt
  later-LeadsAll n ns marks order m o (ok m') g done (o', g', each) =
      (o', trans-Grown marks order m o m' o' g g', ((λ y. g'.keeps n done), each))

  both-LeadsAll :
      (n : Text) (ns : List Text) (marks : Marks) (order : List Text) (r : Result CycleStop Marks)
      (next : Marks → Result CycleStop Marks)
      → Leads marks order n r
      → ((m : Marks) (o : List Text) → Good m o → LeadsAll m o ns (next m))
      → LeadsAll marks order (n ∷ ns) (r >>= next)
  unfolding LeadsAll Leads
  both-LeadsAll n ns marks order (err e) next h k = tt
  both-LeadsAll n ns marks order (ok m) next (o, g, done) k =
      later-LeadsAll n ns marks order m o (next m) g done (k m o g.good)

  -- The loop over the needs, for a `go` that does what a visit does.
  module _ (go : Text → Marks → Result CycleStop Marks)
      (leads : (node : Text) (marks : Marks) (order : List Text)
        → Good marks order
        → Leads marks order node (go node marks)) where
    pub visit_each-LeadsAll :
        (needs : List Text) (marks : Marks) (order : List Text)
        → Good marks order
        → LeadsAll marks order needs (visit_each go deps needs marks)
    unfolding LeadsAll
    visit_each-LeadsAll [] marks order g = (order, same-Grown marks order g, tt)
    visit_each-LeadsAll (n ∷ ns) marks order g =
        by_id (map_get n deps) refl (visit_each-LeadsAll ns)
      where
        by_id :
            (o : Option (List Text))
            → map_get n deps ≡ o
            → ((m : Marks) (o : List Text) → Good m o → LeadsAll m o ns (visit_each go deps ns m))
            → LeadsAll marks order (n ∷ ns) (elim o [
              | none ↦ visit_each go deps ns marks
              | some needs ↦ go n marks >>= visit_each go deps ns
            ])
        by_id none e rest =
            skipped-LeadsAll n ns marks order _ (rw (e, is_id) refl) (rest marks order g)
        by_id (some needs) e rest =
            both-LeadsAll n ns marks order (go n marks) (visit_each go deps ns)
              (leads n marks order g) rest

  -- Marking a node open, and closing it after its needs.
  open-Good :
      (node : Text) (marks : Marks) (order : List Text)
      → map_get node marks ≡ none
      → Good marks order
      → Good (map_insert node open_mark marks) order
  open-Good node marks order new g = record {
    finished = g.finished;
    listed = λ x e. elim (map_get-insert node x open_mark marks) [
      | inl (i, q) ↦ absurd (open-clash q e)
      | inr (i, q) ↦ g.listed x (sym q ∙ e)
    ];
    marked_done = λ x e. elim (map_get-insert node x open_mark marks) [
      | inl (i, q) ↦ absurd (unmarked-clash (unmarked-same node x marks i new) (g.marked_done x e))
      | inr (i, q) ↦ q ∙ g.marked_done x e
    ];
  }

  close-Grown :
      (node : Text) (marks : Marks) (order : List Text) (m : Marks) (o : List Text)
      → map_get node marks ≡ none
      → Grown (map_insert node open_mark marks) order m o
      → NeedsIn o (needs_in deps node)
      → Grown marks order (map_insert node done_mark m) (node ∷ o)
  unfolding Finished
  close-Grown node marks order m o new g each = record {
    good = record {
      finished = (each, unlisted, g.good.finished);
      listed = λ x e. elim (map_get-insert node x done_mark m) [
        | inl (i, q) ↦ ground (arith, i)
        | inr (i, q) ↦ ground (arith, g.good.listed x (sym q ∙ e))
      ];
      marked_done = λ x e. elim (map_get-insert node x done_mark m) [
        | inl (i, q) ↦ q
        | inr (i, q) ↦ q ∙ g.good.marked_done x (ground arith)
      ];
    };
    opens = λ x e. elim (map_get-insert node x done_mark m) [
      | inl (i, q) ↦ absurd (unmarked-clash (unmarked-same node x marks i new) e)
      | inr (i, q) ↦ q ∙ g.opens x (map_get-map_insert-other node x open_mark marks i ∙ e)
    ];
    keeps = λ x e. ground (arith, g.keeps x e);
  }
    where
      unlisted : member node o ≡ false
      unlisted = elim (Bool-cases (member node o)) [
        | inl e ↦ absurd (
            open-clash (g.opens node (map_get-map_insert-same node open_mark marks))
              (g.good.marked_done node e))
        | inr e ↦ e
      ]

  closed-Leads :
      (node : Text) (marks : Marks) (order : List Text) (r : Result CycleStop Marks)
      → map_get node marks ≡ none
      → LeadsAll (map_insert node open_mark marks) order (needs_in deps node) r
      → Leads marks order node (r >>= close_node node)
  unfolding Leads LeadsAll
  closed-Leads node marks order (err e) new h = tt
  closed-Leads node marks order (ok m) new (o, g, each) =
      (node ∷ o, close-Grown node marks order m o new g each, ground (arith, text_eq_refl node))

  marked-Leads :
      (node : Text) (stack : List Text) (marks : Marks) (order : List Text) (mark : Mark)
      → map_get node marks ≡ some mark
      → Good marks order
      → Leads marks order node (marked node stack marks mark)
  unfolding Leads
  marked-Leads node stack marks order open_mark e g = tt
  marked-Leads node stack marks order done_mark e g =
      (order, same-Grown marks order g, g.listed node e)

  pub visit-Leads :
      (fuel : ℕ) (stack : List Text) (node : Text) (marks : Marks) (order : List Text)
      → Good marks order
      → Leads marks order node (visit fuel deps stack node marks)
  unfolding visit
  visit-Leads zero stack node marks order g = by_mark (map_get node marks) refl
    where
      by_mark :
          (o : Option Mark)
          → map_get node marks ≡ o
          → Leads marks order node
              (elim o [ some mark ↦ marked node stack marks mark | none ↦ err out_of_fuel ])
      by_mark none e = unfold Leads in tt
      by_mark (some mark) e = marked-Leads node stack marks order mark e g
  visit-Leads (suc fuel) stack node marks order g =
      by_mark (map_get node marks) refl (visit-Leads fuel (stack ++ node ∷ []))
    where
      go : Text → Marks → Result CycleStop Marks
      go = visit fuel deps (stack ++ node ∷ [])

      by_mark :
          (o : Option Mark)
          → map_get node marks ≡ o
          → ((n : Text) (m : Marks) (o : List Text) → Good m o → Leads m o n (go n m))
          → Leads marks order node (elim o [
            | some mark ↦ marked node stack marks mark
            | none ↦
                visit_each go deps (needs_in deps node) (map_insert node open_mark marks)
                >>= close_node node
          ])
      by_mark none e deeper = closed-Leads node marks order _ e (
          visit_each-LeadsAll go deeper (needs_in deps node) (map_insert node open_mark marks) order
            (open-Good node marks order e g))
      by_mark (some mark) e deeper = marked-Leads node stack marks order mark e g
