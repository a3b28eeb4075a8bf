-- ===== src/Dispatch/Advance/Terminal.antt =====
-- When the needs of a job are met: the `terminal` map of `advance_run` against the rows.
use ci.Common.{
  ◌≡◌, refl, ap, sym, ◌∙◌, Bool, false, not, ◌&&◌, ◌||◌, List, [], ◌∷◌, Option, none, some, Text,
  text_eq, text_eq→eq, any, all, if◌then◌else◌, arith, Bool-cases, inl, inr,
}
use mathlib.Core.Option
use ci.Json.{map_get}
use ci.Json.Maps.{map_get-map_insert-same, map_get-map_insert-other}
use ci.Store.Status.{job_is_terminal}
use ci.Store.Rows.{JobRow}
use ci.Dispatch.Advance.{note_terminal, note_terminals, needs_met}

all-ext : (p q : Text → Bool) → ((a : Text) → p a ≡ q a) → (xs : List Text) → all p xs ≡ all q xs
all-ext p q h [] = refl
all-ext p q h (x ∷ xs) = ground (arith, h x, all-ext p q h xs)

module _ {N : Type 0} where
  -- Some cell has the base id, and every cell that has it is over.
  abbrev pub is_over : Text → List (JobRow N) → Bool
  is_over n js =
      any (λ j. text_eq j.base_id n) js
      && all (λ j. not (text_eq j.base_id n) || job_is_terminal j.status) js

  -- What the map holds for a base id once more rows are entered.
  abbrev after : Text → Option Bool → List (JobRow N) → Option Bool
  after n o [] = o
  after n o (j ∷ js) =
      let over = job_is_terminal j.status in
      after n
        (if text_eq j.base_id n then some (elim o [ none ↦ over | some t ↦ t && over ]) else o) js

  map_get-note_terminal :
      (n : Text) (m : List (Text × Bool)) (j : JobRow N)
      → map_get n (note_terminal m j) ≡ (
          if text_eq j.base_id n
          then some (elim (map_get n m) [
            | none ↦ job_is_terminal j.status
            | some t ↦ t && job_is_terminal j.status
          ])
          else map_get n m)
  unfolding note_terminal
  map_get-note_terminal n m j = elim (Bool-cases (text_eq j.base_id n)) [
    | inl e ↦
        let q = text_eq→eq j.base_id n e in
        let here =
          map_get-map_insert-same j.base_id
            (elim (map_get j.base_id m) [
              | none ↦ job_is_terminal j.status
              | some t ↦ t && job_is_terminal j.status
            ])
            m in
        let z : map_get n (note_terminal m j)
            ≡ some (elim (map_get n m) [
              | none ↦ job_is_terminal j.status
              | some t ↦ t && job_is_terminal j.status
            ]) =
          ap (λ x. map_get x (note_terminal m j)) (sym q)
          ∙ here
          ∙ ap
              (λ x. some (elim (map_get x m) [
                | none ↦ job_is_terminal j.status
                | some t ↦ t && job_is_terminal j.status
              ]))
              q in
        ground (arith, z)
    | inr e ↦
        let there =
          map_get-map_insert-other j.base_id n
            (elim (map_get j.base_id m) [
              | none ↦ job_is_terminal j.status
              | some t ↦ t && job_is_terminal j.status
            ])
            m e in
        ground arith
  ]

  map_get-note_terminals :
      (n : Text) (m : List (Text × Bool)) (js : List (JobRow N))
      → map_get n (note_terminals m js) ≡ after n (map_get n m) js
  unfolding note_terminals
  map_get-note_terminals n m [] = refl
  map_get-note_terminals n m (j ∷ js) =
      map_get-note_terminals n (note_terminal m j) js
      ∙ ap (λ o. after n o js) (map_get-note_terminal n m j)

  after-some :
      (n : Text) (t : Bool) (js : List (JobRow N))
      → Option.get_or (after n (some t) js) false
        ≡ (t && all (λ j. not (text_eq j.base_id n) || job_is_terminal j.status) js)
  after-some n t [] = ground arith
  after-some n t (j ∷ js) = elim (Bool-cases (text_eq j.base_id n)) [
    | inl e ↦ ground (arith, after-some n (t && job_is_terminal j.status) js)
    | inr e ↦ ground (arith, after-some n t js)
  ]

  after-none :
      (n : Text) (js : List (JobRow N)) → Option.get_or (after n none js) false ≡ is_over n js
  after-none n [] = refl
  after-none n (j ∷ js) = elim (Bool-cases (text_eq j.base_id n)) [
    | inl e ↦ ground (arith, after-some n (job_is_terminal j.status) js)
    | inr e ↦ ground (arith, after-none n js)
  ]

-- The needs of a job are met exactly when each of them has a cell in the run and all of its cells
-- are over.
pub needs_met-is_over :
    {N : Type 0} (needs : List Text) (js : List (JobRow N))
    → needs_met (note_terminals [] js) needs ≡ all (λ n. is_over n js) needs
unfolding needs_met map_get
needs_met-is_over needs js =
    all-ext _ _
      (λ n. ap (λ o. Option.get_or o false) (map_get-note_terminals n [] js) ∙ after-none n js)
      needs
