-- ===== src/Plan/Keys/Tokens.antt =====
-- A job's key is made of the characters that a subject token may have, so that it can stand in the
-- name of a virtual machine and in a subject.
use mathlib.Core.Path.{subst}
use ci.Common.{
  all-append, all-trim_matches, ℕ, zero, suc, ◌+◌, ◌%◌, ◌/◌, ◌≡◌, ◌<◌, refl, sym, ◌∙◌, Bool, true,
  false, not, ◌&&◌, List, [], ◌∷◌, ◌++◌, Option, none, some, Text, codes, all, map, keep, join,
  is_empty, length, decimal, decimal_from, ltb, if_cases, if-true, arith, Bool-cases, inl, inr,
}
use ci.Json.{Value}
use ci.Plan.Order.{member}
use ci.Plan.Keys.{
  is_kept, fold_char, sanitize, numbered, free_key, display_value, readable_key, suffix_of,
  candidate_key, unique_key, with_used,
}
use ci.Bus.{is_subject_token}

-- `all`, for a test on the characters of a text.
module _ (p : ℕ → Bool) where
  all-join :
      (sep : Text) (ws : List Text)
      → all p sep ≡ true
      → all (all p) ws ≡ true
      → all p (join sep ws) ≡ true
  all-join sep [] h k = refl
  all-join sep (w ∷ []) h k = ground arith
  all-join sep (w ∷ v ∷ ws) h k =
      all-append p w _ (ground arith)
        (all-append p sep _ h (all-join sep (v ∷ ws) h (ground arith)))

  all-keep :
      (q : Text → Bool) (ws : List Text) → all (all p) ws ≡ true → all (all p) (keep q ws) ≡ true
  all-keep q [] h = refl
  all-keep q (w ∷ ws) h = ground (arith, all-keep q ws)

fold_char-kept : (c : ℕ) → is_kept (fold_char c) ≡ true
fold_char-kept c = if_cases (λ d. is_kept d ≡ true) (is_kept c) c b'-' (λ e. e) (λ e. refl)

map-kept : (s : Text) → all is_kept (map fold_char s) ≡ true
map-kept [] = refl
map-kept (c ∷ s) = ground (arith, fold_char-kept c, map-kept s)

sanitize-kept : (s : Text) → all is_kept (sanitize s) ≡ true
unfolding sanitize
sanitize-kept s = all-trim_matches is_kept _ (map fold_char s) (map-kept s)

digit-kept : (n : ℕ) → n < 10 → is_kept (b'0' + n) ≡ true
digit-kept n h = ground arith

decimal_from-kept :
    (fuel n : ℕ) (acc : Text)
    → all is_kept acc ≡ true
    → all is_kept (decimal_from fuel n acc) ≡ true
decimal_from-kept zero n acc h = ground (arith, digit-kept (n % 10) (omega arith))
decimal_from-kept (suc f) n acc h =
    if_cases (λ s. all is_kept s ≡ true) (ltb n 10) ((b'0' + n) ∷ acc)
      (decimal_from f (n / 10) ((b'0' + n % 10) ∷ acc))
      (λ e. ground (arith, digit-kept n (ground arith)))
      (λ e. decimal_from-kept f (n / 10) _ (ground (arith, digit-kept (n % 10) (omega arith))))

numbered-kept :
    (base : Text) (n : ℕ) → all is_kept base ≡ true → all is_kept (numbered base n) ≡ true
numbered-kept base n h =
    all-append is_kept base (b'-' ∷ decimal n) h (decimal_from-kept n n [] refl)

free_key-kept :
    (fuel : ℕ) (base : Text) (used : List Text) (n : ℕ) (key : Text) {found : Text}
    → all is_kept base ≡ true
    → all is_kept key ≡ true
    → free_key fuel base used n key ≡ some found
    → all is_kept found ≡ true
unfolding free_key
free_key-kept zero base used n key b k e = ground arith
free_key-kept (suc fuel) base used n key b k e = elim (Bool-cases (member key used)) [
  | inl m ↦
      free_key-kept fuel base used (suc n) (numbered base (suc n)) b (numbered-kept base (suc n) b)
        (sym (if-true _ _ _ m) ∙ e)
  | inr m ↦ ground arith
]

append-nonempty : (s t : Text) → is_empty s ≡ false → is_empty (s ++ t) ≡ false
append-nonempty [] t h = ground arith
append-nonempty (c ∷ s) t h = refl

free_key-nonempty :
    (fuel : ℕ) (base : Text) (used : List Text) (n : ℕ) (key : Text) {found : Text}
    → is_empty base ≡ false
    → is_empty key ≡ false
    → free_key fuel base used n key ≡ some found
    → is_empty found ≡ false
unfolding free_key
free_key-nonempty zero base used n key b k e = ground arith
free_key-nonempty (suc fuel) base used n key b k e = elim (Bool-cases (member key used)) [
  | inl m ↦
      free_key-nonempty fuel base used (suc n) (numbered base (suc n)) b (append-nonempty base _ b)
        (sym (if-true _ _ _ m) ∙ e)
  | inr m ↦ ground arith
]

module _ {N : Type 0} (json_text : Value N → Text) where
  suffix-kept :
      (matrix : List (Text × Value N)) → all (all is_kept) (suffix_of json_text matrix) ≡ true
  unfolding suffix_of
  suffix-kept matrix =
      all-keep is_kept (λ s. not (is_empty s))
        (map (λ kv. sanitize (display_value json_text kv.1)) matrix) (values matrix)
    where
      values :
          (m : List (Text × Value N))
          → all (all is_kept) (map (λ kv. sanitize (display_value json_text kv.1)) m) ≡ true
      values [] = refl
      values (kv ∷ m) = ground (arith, sanitize-kept (display_value json_text kv.1), values m)

  candidate_key-kept :
      (base : Text) (matrix : List (Text × Value N)) (index : ℕ) (used : List Text)
      → all is_kept base ≡ true
      → all is_kept (candidate_key json_text base matrix index used) ≡ true
  unfolding candidate_key
  candidate_key-kept base matrix index used b =
      let suffix = suffix_of json_text matrix in
      if_cases (λ k. all is_kept k ≡ true) _ (numbered base index)
        (readable_key json_text base matrix) (λ e. numbered-kept base index b)
        (λ e.
          if_cases (λ k. all is_kept k ≡ true) (is_empty suffix) base
            (base ++ (b'-' ∷ join (codes "-") suffix)) (λ e. b)
            (λ e.
              all-append is_kept base _ b
                (all-join is_kept (codes "-") suffix refl (suffix-kept matrix))))

  candidate_key-nonempty :
      (base : Text) (matrix : List (Text × Value N)) (index : ℕ) (used : List Text)
      → is_empty base ≡ false
      → is_empty (candidate_key json_text base matrix index used) ≡ false
  unfolding candidate_key
  candidate_key-nonempty base matrix index used b =
      if_cases (λ k. is_empty k ≡ false) _ (numbered base index)
        (readable_key json_text base matrix) (λ e. append-nonempty base _ b)
        (λ e.
          if_cases (λ k. is_empty k ≡ false) (is_empty (suffix_of json_text matrix)) base _ (λ e. b)
            (λ e. append-nonempty base _ b))

  -- Where the base id is a subject token, so is the key, whatever the values of the matrix are.
  pub unique_key-is_subject_token :
      (base : Text) (matrix : List (Text × Value N)) (index : ℕ) (used : List Text)
      → is_subject_token base ≡ true
      → {key : Text} {used' : List Text}
      → unique_key json_text base matrix index used ≡ some (key, used')
      → is_subject_token key ≡ true
  unfolding unique_key is_subject_token
  unique_key-is_subject_token base matrix index used b {key} {used'} e = go _ refl e
    where
      go :
          (o : Option Text)
          → free_key (length used) base used index (candidate_key json_text base matrix index used)
            ≡ o
          → with_used used o ≡ some (key, used')
          → is_subject_token key ≡ true
      go none f e = cc
      go (some found) f e =
          let same : found ≡ key = ground arith in
          subst (λ k. not (is_empty k) && all is_kept k ≡ true) same
            (ground (
              arith,
              free_key-nonempty (length used) base used index _ (ground arith)
                  (candidate_key-nonempty base matrix index used (ground arith)) f,
              free_key-kept (length used) base used index _ (ground arith)
                  (candidate_key-kept base matrix index used (ground arith)) f,
            ))
