-- ===== src/Paths/Glob.antt =====
-- `match_segments` and `matches` of src/paths.rs: whole paths against whole patterns.
use ci.Common.{
  not, ◌≡◌, refl, ◌∙◌, sym, ap, ◌↔◌, Bool, true, false, ◌&&◌, ◌||◌, List, [], ◌∷◌, Text, ℕ, text_eq,
  text_eq_iff, is_empty, all, split, join, trim, cons_first, ◌==◌, if◌then◌else◌, arith, Bool-cases,
  inl, inr,
}
use ci.Paths.{match_segments, match_first, any_suffix, double_star, matches, trim_dot_slash}
use ci.Paths.Segment.{glob, match_segment-eq-glob}

-- What the dialect says of whole paths: `**` covers any number of segments, none included, and any
-- other pattern segment covers one segment.
pub data Covers : List Text → List Text → Type 0 where
  end : Covers [] []
  skip :
      {s : Text} {pat path : List Text}
      → text_eq s double_star ≡ true
      → Covers pat path
      → Covers (s ∷ pat) path
  take :
      {s x : Text} {pat path : List Text}
      → text_eq s double_star ≡ true
      → Covers (s ∷ pat) path
      → Covers (s ∷ pat) (x ∷ path)
  one :
      {s x : Text} {pat path : List Text}
      → text_eq s double_star ≡ false
      → glob s x ≡ true
      → Covers pat path
      → Covers (s ∷ pat) (x ∷ path)

-- A trailing `**` covers whatever is left.
Covers-all : (s : Text) (path : List Text) → text_eq s double_star ≡ true → Covers (s ∷ []) path
Covers-all s [] h = skip h end
Covers-all s (x ∷ path) h = take h (Covers-all s path h)

Covers-suffix :
    (s : Text) (pat path : List Text)
    → text_eq s double_star ≡ true
    → ((p : List Text) → match_segments pat p ≡ true → Covers pat p)
    → any_suffix (match_segments pat) path ≡ true
    → Covers (s ∷ pat) path
Covers-suffix s pat [] h sound m = skip h (sound [] m)
Covers-suffix s pat (x ∷ path) h sound m = elim (Bool-cases (match_segments pat (x ∷ path))) [
  | inl now ↦ skip h (sound (x ∷ path) now)
  | inr later ↦ take h (Covers-suffix s pat path h sound (ground arith))
]

match_segments-star :
    (s : Text) (pat path : List Text)
    → text_eq s double_star ≡ true
    → match_segments (s ∷ pat) path ≡ (is_empty pat || any_suffix (match_segments pat) path)
unfolding match_segments
match_segments-star s pat path h = rw h

match_segments-one :
    (s : Text) (pat path : List Text)
    → text_eq s double_star ≡ false
    → match_segments (s ∷ pat) path ≡ match_first s (match_segments pat) path
unfolding match_segments
match_segments-one s pat path h = rw h

Covers-first :
    (s : Text) (pat path : List Text)
    → text_eq s double_star ≡ false
    → ((p : List Text) → match_segments pat p ≡ true → Covers pat p)
    → match_segments (s ∷ pat) path ≡ true
    → Covers (s ∷ pat) path
Covers-first s pat [] h sound m = ground (arith, match_segments-one s pat [] h)
Covers-first s pat (x ∷ path) h sound m =
    one h (ground (arith, match_segments-one s pat (x ∷ path) h, match_segment-eq-glob s x))
      (sound path (ground (arith, match_segments-one s pat (x ∷ path) h)))

match_segments_sound : (pat path : List Text) → match_segments pat path ≡ true → Covers pat path
unfolding match_segments
match_segments_sound [] [] m = end
match_segments_sound [] (x ∷ path) m = cc
match_segments_sound (s ∷ []) path m = elim (Bool-cases (text_eq s double_star)) [
  | inl h ↦ Covers-all s path h
  | inr h ↦ Covers-first s [] path h (match_segments_sound []) m
]
match_segments_sound (s ∷ r ∷ pat) path m = elim (Bool-cases (text_eq s double_star)) [
  | inl h ↦
      Covers-suffix s (r ∷ pat) path h (match_segments_sound (r ∷ pat))
        (ground (arith, match_segments-star s (r ∷ pat) path h))
  | inr h ↦ Covers-first s (r ∷ pat) path h (match_segments_sound (r ∷ pat)) m
]

any_suffix_now :
    (f : List Text → Bool) (path : List Text) → f path ≡ true → any_suffix f path ≡ true
any_suffix_now f [] h = h
any_suffix_now f (x ∷ path) h = rw h

match_segments_complete : {pat path : List Text} → Covers pat path → match_segments pat path ≡ true
match_segments_complete end = unfold match_segments in refl
match_segments_complete (skip {s} {pat} {path} h c) = ground (
  arith,
  match_segments-star s pat path h,
  any_suffix_now (match_segments pat) path (match_segments_complete c),
)
match_segments_complete (take {s} {x} {pat} {path} h c) = ground (
  arith,
  match_segments-star s pat path h,
  match_segments-star s pat (x ∷ path) h,
  match_segments_complete c,
)
match_segments_complete (one {s} {x} {pat} {path} h g c) = ground (
  arith,
  match_segments-one s pat (x ∷ path) h,
  match_segment-eq-glob s x,
  match_segments_complete c,
)

-- `match_segments` decides the relation: it stops with true exactly on the paths that are covered.
pub match_segments_iff : (pat path : List Text) → (match_segments pat path ≡ true) ↔ Covers pat path
match_segments_iff pat path = (match_segments_sound pat path, match_segments_complete)

-- A literal character is neither `*` nor `?`.
abbrev pub is_literal : Text → Bool
is_literal [] = true
is_literal (c ∷ p) = not (c == b'*' || c == b'?') && is_literal p

glob-literal : (p t : Text) → is_literal p ≡ true → glob p t ≡ text_eq p t
unfolding glob
glob-literal [] [] h = refl
glob-literal [] (x ∷ t) h = refl
glob-literal (c ∷ p) [] h = ground arith
glob-literal (c ∷ p) (x ∷ t) h = ground (arith, glob-literal p t)

abbrev texts_eq : List Text → List Text → Bool
texts_eq [] [] = true
texts_eq [] (y ∷ ys) = false
texts_eq (x ∷ xs) [] = false
texts_eq (x ∷ xs) (y ∷ ys) = text_eq x y && texts_eq xs ys

texts_eq_iff : (xs ys : List Text) → (texts_eq xs ys ≡ true) ↔ (xs ≡ ys)
texts_eq_iff [] [] = (λ h. refl, λ h. refl)
texts_eq_iff [] (y ∷ ys) = (λ h. cc, λ h. cc)
texts_eq_iff (x ∷ xs) [] = (λ h. cc, λ h. cc)
texts_eq_iff (x ∷ xs) (y ∷ ys) = (
  ground (arith, text_eq_iff x y, texts_eq_iff xs ys),
  ground (arith, text_eq_iff x y, texts_eq_iff xs ys),
)

literal-ne-double_star : (s : Text) → is_literal s ≡ true → text_eq s double_star ≡ false
literal-ne-double_star [] h = refl
literal-ne-double_star (c ∷ s) h = ground arith

match_segments-literal :
    (pat path : List Text) → all is_literal pat ≡ true → match_segments pat path ≡ texts_eq pat path
match_segments-literal [] [] h = unfold match_segments in refl
match_segments-literal [] (x ∷ path) h = unfold match_segments in refl
match_segments-literal (s ∷ pat) [] h =
    ground (arith, match_segments-one s pat [], literal-ne-double_star s)
match_segments-literal (s ∷ pat) (x ∷ path) h = ground (
  arith,
  match_segments-one s pat (x ∷ path),
  literal-ne-double_star s,
  match_segment-eq-glob s x,
  glob-literal s x,
  match_segments-literal pat path,
)

split-ne-nil : (c : ℕ) (s : Text) → is_empty (split c s) ≡ false
split-ne-nil c [] = refl
split-ne-nil c (x ∷ s) = ground (arith, split-ne-nil c s)

join-cons_first :
    (c x : ℕ) (ws : List Text)
    → is_empty ws ≡ false
    → join (c ∷ []) (cons_first x ws) ≡ x ∷ join (c ∷ []) ws
join-cons_first c x [] h = cc
join-cons_first c x (w ∷ []) h = refl
join-cons_first c x (w ∷ v ∷ ws) h = refl

join-nil :
    (c : ℕ) (ws : List Text) → is_empty ws ≡ false → join (c ∷ []) ([] ∷ ws) ≡ c ∷ join (c ∷ []) ws
join-nil c [] h = cc
join-nil c (w ∷ ws) h = refl

join-split : (c : ℕ) (s : Text) → join (c ∷ []) (split c s) ≡ s
join-split c [] = refl
join-split c (x ∷ s) = elim (Bool-cases (x == c)) [
  | inl h ↦ rw h (join-nil c (split c s) (split-ne-nil c s) ∙ ground (arith, join-split c s))
  | inr h ↦
      rw h (join-cons_first c x (split c s) (split-ne-nil c s) ∙ ap (λ r. x ∷ r) (join-split c s))
]

split-literal : (s : Text) → is_literal s ≡ true → all is_literal (split b'/' s) ≡ true
split-literal [] h = refl
split-literal (c ∷ s) h =
    literal_piece c (split b'/' s) (ground arith) (split-literal s (ground arith))
  where
    literal_piece :
        (c : ℕ) (ws : List Text)
        → is_literal (c ∷ []) ≡ true
        → all is_literal ws ≡ true
        → all is_literal (if c == b'/' then [] ∷ ws else cons_first c ws) ≡ true
    literal_piece c [] hc h = ground arith
    literal_piece c (w ∷ ws) hc h = ground arith

-- A pattern with no wildcard covers the one path that is spelled like it, once blanks and leading
-- `./` are gone.
pub matches-literal :
    (pattern path : Text)
    → is_literal (trim_dot_slash (trim pattern)) ≡ true
    → (matches pattern path ≡ true) ↔ (trim_dot_slash (trim pattern) ≡ trim_dot_slash path)
unfolding matches
matches-literal pattern path h =
    let p = trim_dot_slash (trim pattern) in
    let t = trim_dot_slash path in
    let same = match_segments-literal (split b'/' p) (split b'/' t) (split-literal p h) in
    let pieces = texts_eq_iff (split b'/' p) (split b'/' t) in
    (
      λ m.
          sym (join-split b'/' p)
          ∙ ap (join (b'/' ∷ [])) (pieces.0 (sym same ∙ m))
          ∙ join-split b'/' t,
      λ e. same ∙ pieces.1 (ap (split b'/') e),
    )
