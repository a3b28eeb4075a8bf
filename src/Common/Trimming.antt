-- ===== src/Common/Trimming.antt =====
-- What `trim` leaves of a text, and the pieces of a split.
use Prim.Native.Nat.{ℕ}
use mathlib.Core.Path.{◌≡◌, refl, ap, ◌∙◌}
use mathlib.Core.Bool.{Bool, true, false, not, ◌&&◌}
use mathlib.Core.List.{List, [], ◌∷◌, ◌++◌, reverse, reverse-cons, reverse-append, reverse-reverse}
use mathlib.Core.Logic.{inl, inr}
use native.Mathlib.Omega.{arith}
use ci.Common.Tests.{◌==◌, if◌then◌else◌, Bool-cases}
use ci.Common.Lists.{all, is_empty}
use ci.Common.Strings.{Text, drop_while, trim_matches, split, cons_first}

-- `all`, for a test on the characters of a text.
module _ (p : ℕ → Bool) where
  pub all-append : (s t : Text) → all p s ≡ true → all p t ≡ true → all p (s ++ t) ≡ true
  all-append [] t h k = k
  all-append (c ∷ s) t h k = ground (arith, all-append s t (ground arith) k)

  pub all-drop_while : (q : ℕ → Bool) (s : Text) → all p s ≡ true → all p (drop_while q s) ≡ true
  all-drop_while q [] h = h
  all-drop_while q (c ∷ s) h = ground (arith, all-drop_while q s)

  pub all-reverse : (s : Text) → all p s ≡ true → all p (reverse s) ≡ true
  all-reverse [] h = refl
  all-reverse (c ∷ s) h =
      ap (all p) (reverse-cons c s)
      ∙ all-append (reverse s) (c ∷ []) (all-reverse s (ground arith)) (ground arith)

  pub all-trim_matches :
      (q : ℕ → Bool) (s : Text) → all p s ≡ true → all p (trim_matches q s) ≡ true
  all-trim_matches q s h = all-reverse _ (all-drop_while q _ (all-reverse _ (all-drop_while q s h)))

-- The text has a first character, and it is none that `p` drops.
abbrev pub fronted : (ℕ → Bool) → Text → Bool
fronted p [] = false
fronted p (c ∷ s) = not (p c)

-- The text is left as it is by `trim_matches`, and is not empty.
abbrev pub trimmed : (ℕ → Bool) → Text → Bool
trimmed p s = fronted p s && fronted p (reverse s)

module _ (p : ℕ → Bool) where
  fronted-append : (s t : Text) → fronted p s ≡ true → fronted p (s ++ t) ≡ true
  fronted-append [] t h = cc
  fronted-append (c ∷ s) t h = h

  pub trimmed-between :
      (s m t : Text) → trimmed p s ≡ true → trimmed p t ≡ true → trimmed p (s ++ (m ++ t)) ≡ true
  trimmed-between s m t h k = ground (
    arith,
    fronted-append s (m ++ t) (ground arith),
    ap (fronted p) (reverse-append s (m ++ t)),
    ap (λ r. fronted p (r ++ reverse s)) (reverse-append m t),
    fronted-append (reverse t ++ reverse m) (reverse s)
        (fronted-append (reverse t) (reverse m) (ground arith)),
  )

  drop_while-fronted : (s : Text) → fronted p s ≡ true → drop_while p s ≡ s
  drop_while-fronted [] h = refl
  drop_while-fronted (c ∷ s) h = ground arith

  pub trim_matches-trimmed : (s : Text) → trimmed p s ≡ true → trim_matches p s ≡ s
  trim_matches-trimmed s h =
      ap (λ r. reverse (drop_while p (reverse r))) (drop_while-fronted s (ground arith))
      ∙ ap reverse (drop_while-fronted (reverse s) (ground arith))
      ∙ reverse-reverse s

  fronted-drop_while :
      (s : Text) → is_empty (drop_while p s) ≡ false → fronted p (drop_while p s) ≡ true
  fronted-drop_while [] h = cc
  fronted-drop_while (c ∷ s) h = ground (arith, fronted-drop_while s)

  drop_while-last :
      (s : Text) (c : ℕ) → p c ≡ false → drop_while p (s ++ (c ∷ [])) ≡ drop_while p s ++ (c ∷ [])
  drop_while-last [] c h = ground arith
  drop_while-last (d ∷ s) c h = elim (Bool-cases (p d)) [
    | inl e ↦ rw e (drop_while-last s c h)
    | inr e ↦ rw e refl
  ]

  -- Dropping from the back keeps the first character that stays.
  fronted-back :
      (s : Text) → fronted p s ≡ true → fronted p (reverse (drop_while p (reverse s))) ≡ true
  fronted-back [] h = h
  fronted-back (c ∷ s) h =
      ap (λ r. fronted p (reverse (drop_while p r))) (reverse-cons c s)
      ∙ ap (λ r. fronted p (reverse r)) (drop_while-last (reverse s) c (ground arith))
      ∙ ap (fronted p) (reverse-append (drop_while p (reverse s)) (c ∷ []))
      ∙ h

  is_empty-reverse : (s : Text) → is_empty (reverse s) ≡ false → is_empty s ≡ false
  is_empty-reverse [] h = h
  is_empty-reverse (c ∷ s) h = refl

  is_empty-back :
      (s : Text) → is_empty (reverse (drop_while p (reverse s))) ≡ false → is_empty s ≡ false
  is_empty-back [] h = h
  is_empty-back (c ∷ s) h = refl

  pub trim_matches-Trimmed :
      (s : Text) → is_empty (trim_matches p s) ≡ false → trimmed p (trim_matches p s) ≡ true
  trim_matches-Trimmed s h =
      let rest = drop_while p (reverse (drop_while p s)) in
      let back =
        ap (fronted p) (reverse-reverse rest)
        ∙ fronted-drop_while (reverse (drop_while p s)) (is_empty-reverse rest h) in
      let front =
        fronted-back (drop_while p s) (fronted-drop_while s (is_empty-back (drop_while p s) h)) in
      ground (arith, front, back)

-- A text without the separator is one piece, and it is the first piece of what goes on after it.
abbrev pub lacks : ℕ → Text → Bool
lacks c s = all (λ d. not (d == c)) s

pub split-lacking : (c : ℕ) (s : Text) → lacks c s ≡ true → split c s ≡ s ∷ []
split-lacking c [] h = refl
split-lacking c (d ∷ s) h = ground (arith, split-lacking c s (ground arith))

pub split-lacking-append :
    (c : ℕ) (s t : Text) → lacks c s ≡ true → split c (s ++ (c ∷ t)) ≡ s ∷ split c t
split-lacking-append c [] t h = ground arith
split-lacking-append c (d ∷ s) t h = ground (arith, split-lacking-append c s t (ground arith))

pub split-Lacks : (c : ℕ) (s : Text) → all (lacks c) (split c s) ≡ true
split-Lacks c [] = refl
split-Lacks c (d ∷ s) = piece (split c s) (split-Lacks c s)
  where
    piece :
        (ws : List Text)
        → all (lacks c) ws ≡ true
        → all (lacks c) (if d == c then [] ∷ ws else cons_first d ws) ≡ true
    piece [] h = ground arith
    piece (w ∷ ws) h = ground arith
