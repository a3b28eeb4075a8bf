-- ===== src/Store/Updates.antt =====
-- What holds of every row is kept by `UPDATE … WHERE`, by `DELETE … WHERE` and by an insertion.
use ci.Common.{
  ◌≡◌, refl, Bool, true, false, List, [], ◌∷◌, ◌++◌, any, keep, if_cases, arith, All, ◌||◌,
}
use ci.Store.Rows.{update_where}

module _ {ℓ} {A : Type ℓ} where
  module _ {κ} (P : A → Type κ) where
    pub All-update_where :
        (test : A → Bool) (change : A → A)
        → ((a : A) → P a → test a ≡ true → P (change a))
        → (xs : List A) → All P xs
        → All P (update_where test change xs)
    All-update_where test change keeps [] h = tt
    All-update_where test change keeps (x ∷ xs) h = (
      if_cases P (test x) (change x) x (keeps x h.0) (λ e. h.0),
      All-update_where test change keeps xs h.1,
    )

    pub All-keep : (test : A → Bool) (xs : List A) → All P xs → All P (keep test xs)
    All-keep test [] h = tt
    All-keep test (x ∷ xs) h =
        let rest = All-keep test xs h.1 in
        if_cases (All P) (test x) (x ∷ keep test xs) (keep test xs) (λ e. (h.0, rest)) (λ e. rest)

    -- What is left by a deletion passed its test.
    pub All-keep_tested :
        (test : A → Bool) (xs : List A) → All P xs → All (λ a. P a × (test a ≡ true)) (keep test xs)
    All-keep_tested test [] h = tt
    All-keep_tested test (x ∷ xs) h =
        let rest = All-keep_tested test xs h.1 in
        if_cases (All (λ a. P a × (test a ≡ true))) (test x) (x ∷ keep test xs) (keep test xs)
          (λ e. ((h.0, e), rest)) (λ e. rest)

    pub All-append : (xs ys : List A) → All P xs → All P ys → All P (xs ++ ys)
    All-append [] ys h k = k
    All-append (x ∷ xs) ys h k = (h.0, All-append xs ys h.1 k)

  -- An update that a test does not see leaves the outcome of the test.
  pub any-update_where :
      (seen test : A → Bool) (change : A → A)
      → ((a : A) → seen (change a) ≡ seen a)
      → (xs : List A) → any seen (update_where test change xs) ≡ any seen xs
  any-update_where seen test change same [] = refl
  any-update_where seen test change same (x ∷ xs) =
      ground (arith, same x, any-update_where seen test change same xs)

  pub any-append :
      (seen : A → Bool) (xs ys : List A) → any seen (xs ++ ys) ≡ (any seen xs || any seen ys)
  any-append seen [] ys = refl
  any-append seen (x ∷ xs) ys = ground (arith, any-append seen xs ys)

  pub any-keep :
      (seen test : A → Bool) (xs : List A) → any seen xs ≡ false → any seen (keep test xs) ≡ false
  any-keep seen test [] h = refl
  any-keep seen test (x ∷ xs) h = ground (arith, any-keep seen test xs)

  -- A deletion that spares what a test sees leaves the outcome of the test.
  pub any-keep_spared :
      (seen test : A → Bool) (xs : List A)
      → All (λ a. seen a ≡ true → test a ≡ true) xs
      → any seen xs ≡ true
      → any seen (keep test xs) ≡ true
  any-keep_spared seen test [] h e = e
  any-keep_spared seen test (x ∷ xs) h e = ground (arith, h.0, any-keep_spared seen test xs h.1)

  pub All-map {κ μ} :
      (P : A → Type κ) (Q : A → Type μ)
      → ((a : A) → P a → Q a)
      → (xs : List A) → All P xs
      → All Q xs
  All-map P Q f [] h = tt
  All-map P Q f (x ∷ xs) h = (f x h.0, All-map P Q f xs h.1)

  pub All-both {κ μ} :
      (P : A → Type κ) (Q : A → Type μ) (xs : List A)
      → All P xs
      → All Q xs
      → All (λ a. P a × Q a) xs
  All-both P Q [] h k = tt
  All-both P Q (x ∷ xs) h k = ((h.0, k.0), All-both P Q xs h.1 k.1)
