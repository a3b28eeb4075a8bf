-- ===== src/VmPool/Fingerprint/Sorted.antt =====
-- Sorting forgets the order in which the files were listed.
use mathlib.Core.Path.{subst}
use mathlib.Core.List.{Perm, Permᴰ}
use mathlib.Core.Logic.{∥∥₁_elim}
use ci.Common.{
  ◌≡◌, refl, sym, ap, ◌∙◌, true, false, List, [], ◌∷◌, Text, sort_by, insert_by, arith, Bool-cases,
  inl, inr, if◌then◌else◌, if-false,
}
use ci.Json.{text_lt}
use ci.Workflow.Jobs.{VmSpec}
use ci.VmPool.Fingerprint.{Outside, fingerprint}

text_lt_trans : (a b c : Text) → text_lt a b ≡ true → text_lt b c ≡ true → text_lt a c ≡ true
text_lt_trans [] b [] h k = ground arith
text_lt_trans [] b (z ∷ c) h k = refl
text_lt_trans (x ∷ a) [] c h k = ground arith
text_lt_trans (x ∷ a) (y ∷ b) [] h k = ground arith
text_lt_trans (x ∷ a) (y ∷ b) (z ∷ c) h k = ground (arith, text_lt_trans a b c)

text_lt_asymm : (a b : Text) → text_lt a b ≡ true → text_lt b a ≡ false
text_lt_asymm [] [] h = ground arith
text_lt_asymm [] (y ∷ b) h = refl
text_lt_asymm (x ∷ a) [] h = ground arith
text_lt_asymm (x ∷ a) (y ∷ b) h = ground (arith, text_lt_asymm a b)

text_lt_connex : (a b : Text) → text_lt a b ≡ false → text_lt b a ≡ false → a ≡ b
text_lt_connex [] [] h k = refl
text_lt_connex [] (y ∷ b) h k = ground arith
text_lt_connex (x ∷ a) [] h k = ground arith
text_lt_connex (x ∷ a) (y ∷ b) h k = ground (arith, text_lt_connex a b)

text_le_lt : (b x a : Text) → text_lt x b ≡ false → text_lt x a ≡ true → text_lt b a ≡ true
text_le_lt b x a h k = elim (Bool-cases (text_lt b x)) [
  | inl e ↦ text_lt_trans b x a e k
  | inr e ↦ subst (λ y. text_lt y a ≡ true) (text_lt_connex x b h e) k
]

insert : Text → List Text → List Text
insert = insert_by text_lt

-- Two texts before the rest of the list.
swap_front :
    (a b : Text) (xs : List Text)
    → (if text_lt b a then b ∷ a ∷ xs else a ∷ b ∷ xs)
      ≡ (if text_lt a b then a ∷ b ∷ xs else b ∷ a ∷ xs)
swap_front a b xs = elim (Bool-cases (text_lt a b)) [
  | inl e ↦ ground (arith, text_lt_asymm a b e)
  | inr e ↦ elim (Bool-cases (text_lt b a)) [
    | inl f ↦ ground arith
    | inr f ↦
        let same : a ≡ b = text_lt_connex a b e f in
        if-false _ _ _ f
        ∙ ap (λ y. y ∷ b ∷ xs) same
        ∙ ap (λ y. b ∷ y ∷ xs) (sym same)
        ∙ sym (if-false _ _ _ e)
  ]
]

insert_comm : (a b : Text) (xs : List Text) → insert a (insert b xs) ≡ insert b (insert a xs)
unfolding insert
insert_comm a b [] = swap_front a b []
insert_comm a b (x ∷ xs) = elim (Bool-cases (text_lt x a)) [
  | inl p ↦ elim (Bool-cases (text_lt x b)) [
    | inl q ↦ ground (arith, insert_comm a b xs)
    | inr q ↦ ground (arith, text_le_lt b x a q p)
  ]
  | inr p ↦ elim (Bool-cases (text_lt x b)) [
    | inl q ↦ ground (arith, text_le_lt a x b p q)
    | inr q ↦ ground (arith, swap_front a b (x ∷ xs))
  ]
]

sort_by-Permᴰ : (xs ys : List Text) → Permᴰ xs ys → sort_by text_lt xs ≡ sort_by text_lt ys
unfolding insert
sort_by-Permᴰ _ _ Permᴰ.nil = refl
sort_by-Permᴰ _ _ (Permᴰ.cons {a = a} {b = b} {l₁ = xs} {l₂ = ys} e d) =
    ap (λ x. insert x (sort_by text_lt xs)) e ∙ ap (insert b) (sort_by-Permᴰ xs ys d)
sort_by-Permᴰ _ _ (Permᴰ.swap {a = a} {b = b} {a' = c} {b' = d} {l = l} e f) =
    insert_comm a b (sort_by text_lt l)
    ∙ ap (λ x. insert x (insert a (sort_by text_lt l))) f
    ∙ ap (λ x. insert c (insert x (sort_by text_lt l))) e
sort_by-Permᴰ _ _ (Permᴰ.trans {l₁ = xs} {l₂ = ys} {l₃ = zs} d e) =
    sort_by-Permᴰ xs ys d ∙ sort_by-Permᴰ ys zs e

sort_by-Perm : (xs ys : List Text) → Perm xs ys → sort_by text_lt xs ≡ sort_by text_lt ys
sort_by-Perm xs ys p = ∥∥₁_elim p (hlevel) (sort_by-Permᴰ xs ys)

-- The fingerprint of a machine does not depend on the order in which its `cache_key_files` are
-- listed, nor does the error that takes its place.
pub fingerprint-Perm :
    (outside : Outside) (spec : VmSpec) (files : List Text)
    → Perm spec.cache_key_files files
    → fingerprint outside spec ≡ fingerprint outside (record spec { cache_key_files = files })
unfolding fingerprint
fingerprint-Perm outside spec files p = rw (sort_by-Perm spec.cache_key_files files p) refl
