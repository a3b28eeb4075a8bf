-- ===== src/Paths/Segment.antt =====
-- `match_segment` of src/paths.rs against a reference matcher by structural recursion.
use native.Mathlib.Nat.{mul-le-mul_right}
use ci.Common.{
  ℕ, ◌∙◌, ap, sym, or-absorb, zero, suc, ◌+◌, ◌*◌, ◌≤◌, ◌<◌, ◌≡◌, refl, Bool, true, false, ◌||◌, [],
  ◌∷◌, none, some, Text, length, is_empty, ◌==◌, if◌then◌else◌, arith, Bool-cases, inl, inr,
}
use ci.Paths.{Saved, only_stars, retry, segment_loop, segment_fuel, match_segment, any_suffix}

abbrev glob_one : ℕ → (Text → Bool) → Text → Bool
glob_one c rest [] = false
glob_one c rest (x ∷ t) = if c == b'?' || c == x then rest t else false

-- The dialect, read off its description: `*` is any run of characters, `?` is one character, and
-- any other character stands for itself.
unfoldable pub glob : Text → Text → Bool
glob [] t = is_empty t
glob (c ∷ p) t = let rest = glob p in if c == b'*' then any_suffix rest t else glob_one c rest t

module _ (f : Text → Bool) where
  any_suffix_now : (t : Text) → f t ≡ true → any_suffix f t ≡ true
  any_suffix_now [] h = h
  any_suffix_now (x ∷ t) h = rw h

  any_suffix_later : (x : ℕ) (t : Text) → any_suffix f t ≡ true → any_suffix f (x ∷ t) ≡ true
  any_suffix_later x t h = ground arith

glob-star : (c : ℕ) (p t : Text) → (c == b'*') ≡ true → glob (c ∷ p) t ≡ any_suffix (glob p) t
unfolding glob
glob-star c p t h = ground arith

glob-one : (c : ℕ) (p t : Text) → (c == b'*') ≡ false → glob (c ∷ p) t ≡ glob_one c (glob p) t
unfolding glob
glob-one c p t h = ground arith

glob_nil : (x : ℕ) (t : Text) → glob [] (x ∷ t) ≡ false
unfolding glob
glob_nil x t = refl

-- Two stars in a row are one.
any_suffix-glob_star :
    (c : ℕ) (p t : Text)
    → (c == b'*') ≡ true
    → any_suffix (glob (c ∷ p)) t ≡ true
    → any_suffix (glob p) t ≡ true
any_suffix-glob_star c p [] n h = ground (arith, glob-star c p [] n)
any_suffix-glob_star c p (x ∷ t) n h =
    ground (arith, glob-star c p (x ∷ t) n, any_suffix-glob_star c p t n)

only_stars-eq-glob : (p : Text) → only_stars p ≡ glob p []
unfolding only_stars glob
only_stars-eq-glob [] = refl
only_stars-eq-glob (c ∷ p) = ground (arith, only_stars-eq-glob p)

-- Where a star came before `c`, it can come after it, one character further on.
any_suffix-glob_step :
    (c : ℕ) (p t : Text) (x : ℕ)
    → (c == b'*') ≡ false
    → any_suffix (glob (c ∷ p)) (x ∷ t) ≡ true
    → any_suffix (glob p) t ≡ true
any_suffix-glob_step c p [] x n h = ground (arith, glob-one c p (x ∷ []) n, glob-one c p [] n)
any_suffix-glob_step c p (y ∷ t) x n h = ground (
  arith,
  glob-one c p (x ∷ y ∷ t) n,
  any_suffix-glob_step c p t y n,
  any_suffix_now (glob p) (y ∷ t),
)

-- The answers that are still to be tried if the present position fails.
abbrev resumed : Saved → Bool
resumed none = false
resumed (some (sp, [])) = false
resumed (some (sp, x ∷ st)) = any_suffix (glob sp) st

-- What is known of a saved star: nothing is lost by never resuming an earlier one.
abbrev SavedInv : ℕ → ℕ → Text → Text → Saved → Type 0
SavedInv k m p t none = Unit
SavedInv k m p t (some (sp, st)) =
    (any_suffix (glob sp) st ≡ true → any_suffix (glob p) t ≡ true)
    × (length t ≤ length st)
    × (length st ≤ m)
    × (length sp < k)

record Inv (k f m : ℕ) (p t : Text) (star : Saved) : Type 0 where
  saved : SavedInv k m p t star
  text_bound : length t ≤ m
  pattern_bound : length p < k
  fuel : m * k + length p < f

abbrev Answers : ℕ → Text → Text → Saved → Type 0
Answers f p t star = segment_loop f p t star ≡ some (glob p t || resumed star)

-- What one more retry leaves of the fuel.
fuel_left : (a m k q p f : ℕ) → suc a ≤ m → q < k → m * k + p < suc f → a * k + q < f
fuel_left a m k q p f h hq hf = omega (arith, mul-le-mul_right k h, mul_suc_row a k)
  where
    mul_suc_row : (a k : ℕ) → suc a * k ≡ a * k + k
    mul_suc_row a k = omega arith

resumed_from : (sp st : Text) → (glob sp st || resumed (some (sp, st))) ≡ any_suffix (glob sp) st
resumed_from sp [] = ground arith
resumed_from sp (x ∷ st) = refl

module _ (k : ℕ) where
  abbrev Step : ℕ → Type 0
  Step f = (m : ℕ) (p t : Text) (star : Saved) → Inv k f m p t star → Answers f p t star

  retry-answers :
      (f m x : ℕ) (p t : Text) (star : Saved)
      → Step f
      → Inv k (suc f) m p (x ∷ t) star
      → retry star (segment_loop f) ≡ some (resumed star)
  unfolding retry
  retry-answers f m x p t none ih i = refl
  retry-answers f m x p t (some (sp, [])) ih i = absurd (omega (arith, i.saved.1))
  retry-answers f m x p t (some (sp, y ∷ st)) ih i =
      let (greedy, shorter, bound, short) = i.saved in
      ih (length st) sp st (some (sp, st)) (record {
        saved = (λ h. h, omega arith, omega arith, short);
        text_bound = omega arith;
        pattern_bound = short;
        fuel = fuel_left (length st) m k (length sp) (length p) f bound short i.fuel;
      })
      ∙ ap some (resumed_from sp st)

  -- At the end of the text.
  ended :
      (f m : ℕ) (p : Text) (star : Saved) → Inv k (suc f) m p [] star → Answers (suc f) p [] star
  unfolding segment_loop
  ended f m p none i = ground (arith, only_stars-eq-glob p)
  ended f m p (some (sp, [])) i = ground (arith, only_stars-eq-glob p)
  ended f m p (some (sp, y ∷ st)) i = ground (arith, only_stars-eq-glob p, i.saved.0)

  -- A saved star whose retry succeeds leaves a match at or after the present position.
  resumed→any_suffix :
      (m : ℕ) (p t : Text) (star : Saved)
      → SavedInv k m p t star
      → resumed star ≡ true
      → any_suffix (glob p) t ≡ true
  resumed→any_suffix m p t none i h = cc
  resumed→any_suffix m p t (some (sp, [])) i h = cc
  resumed→any_suffix m p t (some (sp, y ∷ st)) i h = i.0 (any_suffix_later (glob sp) y st h)

  SavedInv-step :
      (m c x : ℕ) (p t : Text) (star : Saved)
      → (c == b'*') ≡ false
      → SavedInv k m (c ∷ p) (x ∷ t) star
      → SavedInv k m p t star
  SavedInv-step m c x p t none n i = tt
  SavedInv-step m c x p t (some (sp, st)) n (greedy, shorter, bound, short) =
      (λ h. any_suffix-glob_step c p t x n (greedy h), omega arith, bound, short)

  -- A new star: the earlier one is forgotten, as whatever it could still find is found from here.
  grown-answers :
      (f m c x : ℕ) (p t : Text) (star : Saved)
      → Step f
      → (c == b'*') ≡ true
      → Inv k (suc f) m (c ∷ p) (x ∷ t) star
      → segment_loop f p (x ∷ t) (some (p, x ∷ t)) ≡ some (glob (c ∷ p) (x ∷ t) || resumed star)
  grown-answers f m c x p t star ih h i =
      let text_bound = i.text_bound in
      let fuel = i.fuel in
      let pattern_bound = i.pattern_bound in
      let here = ih m p (x ∷ t) (some (p, x ∷ t)) (record {
        saved = (λ d. d, omega arith, i.text_bound, omega arith);
        text_bound = i.text_bound;
        pattern_bound = omega arith;
        fuel = omega arith;
      }) in
      let any_glob = any_suffix (glob p) in
      let absorbed : resumed star ≡ true → any_glob (x ∷ t) ≡ true = λ r.
        any_suffix-glob_star c p (x ∷ t) h (resumed→any_suffix m (c ∷ p) (x ∷ t) star i.saved r) in
      rw (glob-star c p (x ∷ t) h) (here ∙ ap some (sym (or-absorb _ _ absorbed)))

  step-answers : (f : ℕ) → Step f
  unfolding segment_loop
  step-answers zero m p t star i = absurd (omega (arith, i.fuel))
  step-answers (suc f) m p [] star i = ended f m p star i
  step-answers (suc f) m [] (x ∷ t) star i =
      rw (glob_nil x t) (retry-answers f m x [] t star (step-answers f) i)
  step-answers (suc f) m (c ∷ p) (x ∷ t) star i = elim (Bool-cases (c == b'*')) [
    | inl h ↦ rw h (grown-answers f m c x p t star (step-answers f) h i)
    | inr h ↦
        rw (h, glob-one c p (x ∷ t) h)
          (elim (Bool-cases (c == b'?' || c == x)) [
            | inl same ↦ rw same (
                step-answers f m p t star (record {
                  saved = SavedInv-step m c x p t star h i.saved;
                  text_bound = omega arith;
                  pattern_bound = omega arith;
                  fuel = omega arith;
                }))
            | inr other ↦ rw other (retry-answers f m x (c ∷ p) t star (step-answers f) i)
          ])
  ]

-- The loop ends within the fuel that `match_segment` gives it, and its answer is that of `glob`.
pub segment_loop-eq-glob : (p t : Text) → segment_loop (segment_fuel p t) p t none ≡ some (glob p t)
segment_loop-eq-glob p t =
    step-answers (suc (length p)) (segment_fuel p t) (length t) p t none (record {
      saved = tt;
      text_bound = omega arith;
      pattern_bound = omega arith;
      fuel = omega arith;
    })
    ∙ ap some (or-absorb (glob p t) false (λ h. cc))

-- The backtracking matcher with one saved star computes the reference matcher.
pub match_segment-eq-glob : (p t : Text) → match_segment p t ≡ glob p t
unfolding match_segment
match_segment-eq-glob p t = rw segment_loop-eq-glob
