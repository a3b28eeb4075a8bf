-- ===== src/Images/Guarded.antt =====
-- A build that may not be taken over before some time, and what the statements of src/image.rs on
-- the catalog do to it.
use ci.Common.{
  ℕ, ◌≡◌, ◌+◌, refl, Bool, true, false, not, ◌&&◌, ◌||◌, List, [], ◌∷◌, Option, some, none, Text,
  any, all, All, leb, text_eq→eq, text_eq, text_eq_refl, arith, if_cases, Bool-cases, inl, inr,
}
use mathlib.Core.Bool.{true≢false}
use mathlib.Core.Path.{subst, sym, ap, ◌∙◌}
use ci.Store.Rows.{update_where}
use ci.Store.Updates.{
  All-update_where, All-append, All-keep, All-map, any-update_where, any-append, any-keep_spared,
}
use ci.Images.{
  Image, Claim, taken, is_image, is_free, is_ready, is_held, is_unready, new_image, claim, renew,
  mark_ready, mark_failed, forget, marked_ready, marked_failed,
}
use ci.Images.Steps.{Call, claims, renews, marks_ready, marks_failed, forgets, perform, perform_all}

-- A lease that lasts until `end` at least.
abbrev pub lasts : ℕ → Option ℕ → Bool
lasts end none = false
lasts end (some t) = leb end t

-- The two names are those of the image and of the host.
abbrev pub names : Text → Text → Text → Text → Bool
names name runner n r = text_eq n name && text_eq r runner

-- What a statement may not do to a build before its lease ends: give it up, or shorten the lease.
abbrev pub respects : Text → Text → ℕ → ℕ × Call → Bool
respects name runner end (now, claims n r workflow job lease) =
    not (names name runner n r) || leb now end
respects name runner end (now, renews n r lease) =
    not (names name runner n r) || leb end (now + lease)
respects name runner end (now, marks_ready n r size) = true
respects name runner end (now, marks_failed n r error) = not (names name runner n r)
respects name runner end (now, forgets n r) = not (names name runner n r)

module _ (name runner : Text) where
  abbrev guard : ℕ → Image → Bool
  guard end i = not (is_image name runner i) || is_ready i.status || lasts end i.leased_until

  abbrev pub IsSafe : ℕ → Image → Type 0
  IsSafe end i = guard end i ≡ true

  -- The image has a row, and no row of it may be taken before `end`.
  pub record IsGuarded (end : ℕ) (images : List Image) : Type 0 where
    pub there : any (is_image name runner) images ≡ true
    pub kept : All (IsSafe end) images

  shared-names :
      (n r : Text) (i : Image)
      → is_image name runner i ≡ true
      → is_image n r i ≡ true
      → names name runner n r ≡ true
  shared-names n r i h k =
      let a = text_eq→eq i.name name (ground (arith, h)) in
      let b = text_eq→eq i.name n (ground (arith, k)) in
      let c = text_eq→eq i.runner_hd_id runner (ground (arith, h)) in
      let d = text_eq→eq i.runner_hd_id r (ground (arith, k)) in
      subst (λ t. (text_eq n t && text_eq r runner) ≡ true) (sym b ∙ a)
        (subst (λ t. (text_eq n n && text_eq r t) ≡ true) (sym d ∙ c)
          (ground (arith, text_eq_refl n, text_eq_refl r)))

  -- A row of another image is not ours.
  other-row :
      (n r : Text) (i : Image)
      → names name runner n r ≡ false
      → is_image n r i ≡ true
      → is_image name runner i ≡ false
  other-row n r i h k = elim (Bool-cases (is_image name runner i)) [
    | inl mine ↦ absurd (true≢false (sym (shared-names n r i mine k) ∙ h))
    | inr other ↦ other
  ]

  -- A statement on some rows, which leaves a row's image and keeps a row of ours safe.
  updated-IsGuarded :
      (end : ℕ) (test : Image → Bool) (change : Image → Image)
      → ((i : Image) → is_image name runner (change i) ≡ is_image name runner i)
      → ((i : Image) → IsSafe end i → test i ≡ true → IsSafe end (change i))
      → (images : List Image) → IsGuarded end images
      → IsGuarded end (update_where test change images)
  updated-IsGuarded end test change same safe images g = record {
    there = any-update_where (is_image name runner) test change same images ∙ g.there;
    kept = All-update_where (IsSafe end) test change safe images g.kept;
  }

  taken-IsSafe :
      (end : ℕ) (n r job : Text) (lease now : ℕ) (i : Image)
      → (not (names name runner n r) || leb now end) ≡ true
      → IsSafe end i
      → (is_image n r i && is_free now i) ≡ true
      → IsSafe end (taken job lease now i)
  taken-IsSafe end n r job lease now i h g t = elim (Bool-cases (names name runner n r)) [
    | inl same ↦ ground (arith, same, h, g, t)
    | inr other ↦ ground (arith, other-row n r i other (ground (arith, t)))
  ]

  -- A row that is inserted is one of another image, since ours has a row.
  new-IsSafe :
      (end : ℕ) (n r workflow job : Text) (lease now : ℕ) (images : List Image)
      → IsGuarded end images
      → any (is_image n r) images ≡ false
      → IsSafe end (new_image n r workflow job lease now)
  new-IsSafe end n r workflow job lease now images g e = elim (Bool-cases (names name runner n r)) [
    | inl same ↦
        let a = text_eq→eq n name (ground (arith, same)) in
        let b = text_eq→eq r runner (ground (arith, same)) in
        absurd (
          true≢false (
            sym g.there
            ∙ subst (λ t. any (is_image t runner) images ≡ false) a
                (subst (λ t. any (is_image n t) images ≡ false) b e)))
    | inr other ↦ ground (arith, other)
  ]

  claim-IsGuarded :
      (end : ℕ) (n r workflow job : Text) (lease now : ℕ)
      → (not (names name runner n r) || leb now end) ≡ true
      → (images : List Image) → IsGuarded end images
      → IsGuarded end (claim n r workflow job lease now images).0
  unfolding claim
  claim-IsGuarded end n r workflow job lease now h images g =
      if_cases (λ (x : List Image × Claim). IsGuarded end x.0) (any (is_image n r) images) _ _
        (λ e.
          if_cases (λ (x : List Image × Claim). IsGuarded end x.0)
            (any (λ i. is_image n r i && is_free now i) images) _ _
            (λ f.
              updated-IsGuarded end _ (taken job lease now) (λ i. refl)
                (λ i s t. taken-IsSafe end n r job lease now i h s t) images g)
            (λ f. g))
        (λ e. record {
          there =
              any-append (is_image name runner) images (new_image n r workflow job lease now ∷ [])
              ∙ ap
                  (λ b. b || any (is_image name runner) (new_image n r workflow job lease now ∷ []))
                  g.there;
          kept =
              All-append (IsSafe end) images (new_image n r workflow job lease now ∷ []) g.kept
                (new-IsSafe end n r workflow job lease now images g e, tt);
        })

  forget-IsGuarded :
      (end : ℕ) (n r : Text)
      → names name runner n r ≡ false
      → (images : List Image) → IsGuarded end images
      → IsGuarded end (forget n r images)
  unfolding forget
  forget-IsGuarded end n r h images g = record {
    there =
        any-keep_spared (is_image name runner) (λ i. not (is_image n r i)) images
          (All-map (IsSafe end) _ (λ i s m. ground (arith, h, m, other-row n r i h)) images g.kept)
          g.there;
    kept = All-keep (IsSafe end) _ images g.kept;
  }

  renewed-IsSafe :
      (end : ℕ) (n r : Text) (lease now : ℕ) (i : Image)
      → (not (names name runner n r) || leb end (now + lease)) ≡ true
      → is_image n r i ≡ true
      → IsSafe end (record i { leased_until = some (now + lease) })
  renewed-IsSafe end n r lease now i h t = elim (Bool-cases (names name runner n r)) [
    | inl same ↦ ground (arith, same, h)
    | inr other ↦ ground (arith, other-row n r i other t)
  ]

  renew-IsGuarded :
      (end : ℕ) (n r : Text) (lease now : ℕ)
      → (not (names name runner n r) || leb end (now + lease)) ≡ true
      → (images : List Image) → IsGuarded end images
      → IsGuarded end (renew n r lease now images)
  unfolding renew
  renew-IsGuarded end n r lease now h images g =
      updated-IsGuarded end (is_held n r) _ (λ i. refl)
        (λ i s t. renewed-IsSafe end n r lease now i h (ground (arith, t))) images g

  fail-IsGuarded :
      (end : ℕ) (n r error : Text)
      → names name runner n r ≡ false
      → (images : List Image) → IsGuarded end images
      → IsGuarded end (mark_failed n r error images)
  unfolding mark_failed
  fail-IsGuarded end n r error h images g =
      updated-IsGuarded end (is_unready n r) (marked_failed error) (λ i. refl)
        (λ i s t. ground (arith, other-row n r i h (ground (arith, t)))) images g

  ready-IsGuarded :
      (end : ℕ) (n r : Text) (size now : ℕ) (images : List Image)
      → IsGuarded end images
      → IsGuarded end (mark_ready n r size now images)
  unfolding mark_ready
  ready-IsGuarded end n r size now images g =
      updated-IsGuarded end (is_image n r) (marked_ready size now) (λ i. refl)
        (λ i s t. ground arith) images g

  perform-IsGuarded :
      (end : ℕ) (c : ℕ × Call)
      → respects name runner end c ≡ true
      → (images : List Image) → IsGuarded end images
      → IsGuarded end (perform c images)
  unfolding perform
  perform-IsGuarded end (now, claims n r workflow job lease) h images g =
      claim-IsGuarded end n r workflow job lease now h images g
  perform-IsGuarded end (now, renews n r lease) h images g =
      renew-IsGuarded end n r lease now h images g
  perform-IsGuarded end (now, marks_ready n r size) h images g =
      ready-IsGuarded end n r size now images g
  perform-IsGuarded end (now, marks_failed n r error) h images g =
      fail-IsGuarded end n r error (ground (arith, h)) images g
  perform-IsGuarded end (now, forgets n r) h images g =
      forget-IsGuarded end n r (ground (arith, h)) images g

  pub perform_all-IsGuarded :
      (end : ℕ) (calls : List (ℕ × Call))
      → all (respects name runner end) calls ≡ true
      → (images : List Image) → IsGuarded end images
      → IsGuarded end (perform_all calls images)
  unfolding perform_all
  perform_all-IsGuarded end [] h images g = g
  perform_all-IsGuarded end (c ∷ calls) h images g =
      perform_all-IsGuarded end calls (ground (arith, h)) (perform c images)
        (perform-IsGuarded end c (ground (arith, h)) images g)
