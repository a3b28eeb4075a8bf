-- ===== src/Plan/Keys/Fuel.antt =====
-- The search for a key that is not used ends, with such a key.
use ci.Common.{
  ℕ, zero, suc, ◌≤◌, ◌<◌, ◌≡◌, refl, sym, ap, ◌∙◌, Bool, true, false, not, List, [], ◌∷◌, ◌++◌,
  some, Text, text_eq, text_eq_apart, text_eq_of_ne, keep, length, decimal, decimal-injective,
  arith, ltb, ◌||◌, Bool-cases, inl, inr, if◌then◌else◌, if-true, if-false,
}
use ci.Plan.Order.{member}
use ci.Json.{Value}
use ci.Expr.Lexer.{utf8}
use ci.Plan.Keys.{numbered, free_key, candidate_key, readable_key, unique_key, with_used}

append-cancel : (a b c : Text) → a ++ b ≡ a ++ c → b ≡ c
append-cancel [] b c e = e
append-cancel (x ∷ a) b c e = append-cancel a b c (ground arith)

numbered-injective : (base : Text) (m n : ℕ) → numbered base m ≡ numbered base n → m ≡ n
numbered-injective base m n e =
    decimal-injective m n
      (ground (arith, append-cancel base (b'-' ∷ decimal m) (b'-' ∷ decimal n) e))

-- The set without one of its members.
without : Text → List Text → List Text
without t used = keep (λ u. not (text_eq u t)) used

length-keep-le : (test : Text → Bool) (us : List Text) → length (keep test us) ≤ length us
length-keep-le test [] = omega arith
length-keep-le test (u ∷ us) = ground (arith, length-keep-le test us)

length-without :
    (t : Text) (us : List Text) → member t us ≡ true → length (without t us) < length us
unfolding without
length-without t [] h = ground arith
length-without t (u ∷ us) h =
    ground (arith, length-without t us, length-keep-le (λ u. not (text_eq u t)) us)

member-without :
    (s t : Text) (us : List Text) → text_eq t s ≡ false → member s (without t us) ≡ member s us
unfolding without
member-without s t [] d = refl
member-without s t (u ∷ us) d = elim (Bool-cases (text_eq u t)) [
  | inl e ↦ ground (arith, text_eq_apart u t s e d, member-without s t us d)
  | inr e ↦ ground (arith, member-without s t us d)
]

-- Two sets that agree on the keys from `n` on give the same result.
free_key-agree :
    (fuel : ℕ) (base : Text) (us vs : List Text) (n : ℕ)
    → ((k : ℕ) → n ≤ k → member (numbered base k) us ≡ member (numbered base k) vs)
    → free_key fuel base us n (numbered base n) ≡ free_key fuel base vs n (numbered base n)
unfolding free_key
free_key-agree zero base us vs n same = ground (arith, same n (omega arith))
free_key-agree (suc fuel) base us vs n same = ground (
  arith,
  same n (omega arith),
  free_key-agree fuel base us vs (suc n) (λ k h. same k (omega arith)),
)

numbered-apart :
    (base : Text) (m n : ℕ) → m < n → text_eq (numbered base m) (numbered base n) ≡ false
numbered-apart base m n h =
    text_eq_of_ne _ _
      λ (e : numbered base m ≡ numbered base n). omega (arith, numbered-injective base m n e)

-- With as much fuel as there are used keys, a search among the numbered keys ends with a key.
numbered-found :
    (fuel : ℕ) (base : Text) (used : List Text) (n : ℕ)
    → length used ≤ fuel
    → (key : Text) × (free_key fuel base used n (numbered base n) ≡ some key)
unfolding free_key
numbered-found zero base [] n h = (numbered base n, refl)
numbered-found zero base (u ∷ us) n h = absurd (omega arith)
numbered-found (suc fuel) base used n h = elim (Bool-cases (member key used)) [
  | inl e ↦
      let shorter = without key used in
      let (found, same) =
        numbered-found fuel base shorter (suc n) (omega (arith, length-without key used e)) in
      (
        found,
        if-true _ _ _ e
            ∙ free_key-agree fuel base used shorter (suc n) (λ k g.
              sym
                (member-without (numbered base k) key used (numbered-apart base n k (omega arith))))
            ∙ same,
      )
  | inr e ↦ (key, if-false _ _ _ e)
]
  where
    key : Text
    key = numbered base n

pub free_key-fresh :
    (fuel : ℕ) (base : Text) (used : List Text) (n : ℕ) (key : Text) {found : Text}
    → free_key fuel base used n key ≡ some found
    → member found used ≡ false
unfolding free_key
free_key-fresh zero base used n key e = ground arith
free_key-fresh (suc fuel) base used n key e = elim (Bool-cases (member key used)) [
  | inl m ↦
      free_key-fresh fuel base used (suc n) (numbered base (suc n)) (sym (if-true _ _ _ m) ∙ e)
  | inr m ↦ ground arith
]

free_key-unused :
    (fuel : ℕ) (base : Text) (used : List Text) (n : ℕ) (key : Text)
    → member key used ≡ false
    → free_key fuel base used n key ≡ some key
unfolding free_key
free_key-unused zero base used n key m = if-false _ _ _ m
free_key-unused (suc fuel) base used n key m = if-false _ _ _ m

-- The loop's first key is numbered, or it is not used.
first_key-found :
    (base : Text) (used : List Text) (n : ℕ) (taken : Bool) (readable : Text)
    → (taken ≡ false → member readable used ≡ false)
    → (key : Text) × (free_key
          (length used)
          base
          used
          n
          (if taken then numbered base n else readable)
        ≡ some key)
first_key-found base used n true readable h = numbered-found (length used) base used n (omega arith)
first_key-found base used n false readable h =
    (readable, free_key-unused (length used) base used n readable (h refl))

module _ {N : Type 0} (json_text : Value N → Text) where
  -- The search for a key ends within its fuel, for any base id, matrix cell, index and set of used
  -- keys, with a key that is not in the set, and the set that it leaves is the set with that key.
  pub unique_key-IsFresh :
      (base : Text) (matrix : List (Text × Value N)) (index : ℕ) (used : List Text)
      → (key : Text) × (unique_key json_text base matrix index used ≡ some (key, key ∷ used))
        × (member key used ≡ false)
  unfolding unique_key candidate_key
  unique_key-IsFresh base matrix index used =
      let readable = readable_key json_text base matrix in
      let (key, found) =
        first_key-found base used index (ltb 64 (length (utf8 readable)) || member readable used)
          readable (λ h. ground arith) in
      (
        key,
        ap (with_used used) found,
        free_key-fresh (length used) base used index
            (if ltb 64 (length (utf8 readable)) || member readable used
              then numbered base index
              else readable)
            found,
      )
