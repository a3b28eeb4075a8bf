-- ===== src/Images/Claims.antt =====
-- The claims of one image on one host in src/image.rs: who builds it while a lease runs.
use ci.Common.{
  ℕ, ◌≡◌, ◌≢◌, ◌+◌, ◌≤◌, refl, Bool, true, false, not, ◌&&◌, List, [], ◌∷◌, Option, Text, any, all,
  All, text_eq_refl, if◌then◌else◌, arith, if_cases, Bool-cases, inl, inr,
}
use mathlib.Core.Bool.{true≢false}
use mathlib.Core.Path.{subst, sym, ap, ◌∙◌}
use ci.Store.Rows.{update_where}
use ci.Store.Updates.{All-append, any-update_where, any-append}
use ci.Images.{ImageStatus, Image, Claim, build, seen, taken, is_image, is_free, status_of, claim}
use ci.Images.Steps.{Call, perform_all}
use ci.Images.Guarded.{respects, IsSafe, IsGuarded, perform_all-IsGuarded}

-- The table has at most one row for an image on a host: its primary key.
abbrev pub one_row : Text → Text → List Image → Bool
one_row name runner [] = true
one_row name runner (i ∷ images) =
    let rest = one_row name runner images in
    if is_image name runner i then not (any (is_image name runner) images) else rest

module _ (name runner : Text) where
  none-free :
      (end later : ℕ) (images : List Image)
      → later ≤ end
      → All (IsSafe name runner end) images
      → any (λ i. is_image name runner i && is_free later i) images ≡ false
  none-free end later [] h k = refl
  none-free end later (i ∷ images) h k = ground (arith, h, k.0, none-free end later images h k.1)

  seen-ne-build : (o : Option ImageStatus) → seen o ≢ build
  seen-ne-build o e = ground (arith, e)

  -- A claim of an image that is guarded leaves the table as it is and does not build.
  refused :
      (end later : ℕ) (workflow job : Text) (lease : ℕ) (images : List Image)
      → later ≤ end
      → IsGuarded name runner end images
      → claim name runner workflow job lease later images
        ≡ (images, seen (status_of name runner images))
  unfolding claim
  refused end later workflow job lease images h g =
      rw g.there (rw (none-free end later images h g.kept) refl)

  one-alone :
      (i : Image) (images : List Image)
      → is_image name runner i ≡ true
      → one_row name runner (i ∷ images) ≡ true
      → any (is_image name runner) images ≡ false
  one-alone i images mine one = ground (arith, mine, one)

  none-IsSafe :
      (end : ℕ) (images : List Image)
      → any (is_image name runner) images ≡ false
      → All (IsSafe name runner end) images
  none-IsSafe end [] h = tt
  none-IsSafe end (i ∷ images) h = (ground (arith, h), none-IsSafe end images (ground (arith, h)))

  abbrev free_row : ℕ → Image → Bool
  free_row now i = is_image name runner i && is_free now i

  alone-free :
      (now : ℕ) (images : List Image)
      → any (is_image name runner) images ≡ false
      → any (free_row now) images ≡ false
  alone-free now [] h = refl
  alone-free now (i ∷ images) h = ground (arith, alone-free now images, h)

  none-updated :
      (f : Image → Image) (now : ℕ) (images : List Image)
      → any (is_image name runner) images ≡ false
      → update_where (free_row now) f images ≡ images
  none-updated f now [] h = refl
  none-updated f now (i ∷ images) h = ground (arith, none-updated f now images, h)

  -- Where a row of the image is taken, and there is one at most, each row is safe.
  taken-kept :
      (job : Text) (lease now : ℕ) (images : List Image)
      → one_row name runner images ≡ true
      → any (free_row now) images ≡ true
      → All
          (IsSafe name runner (now + lease))
          (update_where (free_row now) (taken job lease now) images)
  taken-kept job lease now [] one free = tt
  taken-kept job lease now (i ∷ images) one free = elim (Bool-cases (is_image name runner i)) [
    | inl mine ↦
        let alone = one-alone i images mine one in
        (
          if_cases (IsSafe name runner (now + lease)) (free_row now i) (taken job lease now i) i
              (λ f. ground arith)
              (λ f.
                absurd (true≢false (sym free ∙ ground (arith, f, alone-free now images alone)))),
          subst (All (IsSafe name runner (now + lease)))
              (sym (none-updated (taken job lease now) now images alone))
              (none-IsSafe (now + lease) images alone),
        )
    | inr other ↦ (
      ground (arith, other),
      taken-kept job lease now images (ground (arith, one, other)) (ground (arith, free, other)),
    )
  ]

  built-IsGuarded :
      (workflow job : Text) (lease now : ℕ) (images : List Image)
      → one_row name runner images ≡ true
      → (claim name runner workflow job lease now images).1 ≡ build
      → IsGuarded name runner (now + lease) (claim name runner workflow job lease now images).0
  unfolding claim
  built-IsGuarded workflow job lease now images one =
      if_cases (λ (x : List Image × Claim). x.1 ≡ build → IsGuarded name runner (now + lease) x.0)
        (any (is_image name runner) images) _ _
        (λ there.
          if_cases
            (λ (x : List Image × Claim). x.1 ≡ build → IsGuarded name runner (now + lease) x.0)
            (any (free_row now) images) _ _
            (λ free e. record {
              there =
                  any-update_where (is_image name runner) (free_row now) (taken job lease now)
                    (λ i. refl) images
                  ∙ there;
              kept = taken-kept job lease now images one free;
            })
            (λ kept e. absurd (seen-ne-build (status_of name runner images) e)))
        (λ none_there e. record {
          there =
              any-append (is_image name runner) images _
              ∙ ground (arith, none_there, text_eq_refl name, text_eq_refl runner);
          kept =
              All-append (IsSafe name runner (now + lease)) images _
                (none-IsSafe (now + lease) images none_there) (ground arith, tt);
        })

-- An image is not built twice at once on a host: if the table has at most one row for the image on
-- the host, as its primary key says, and a claim of it was told to build, then after whatever
-- statements, a claim of the image that comes before the end of the first one's lease is not told
-- to build, and leaves the table as it is. The statements in between may not mark the build as
-- failed, forget the image, renew its lease to an earlier end, or claim it after that end; what they
-- do to other images, or to this one on other hosts, is free, and so is marking it as ready.
pub claim-ne-build :
    (name runner workflow job later_workflow later_job : Text) (lease now later_lease later : ℕ)
    (images : List Image) (calls : List (ℕ × Call))
    → one_row name runner images ≡ true
    → (claim name runner workflow job lease now images).1 ≡ build
    → all (respects name runner (now + lease)) calls ≡ true
    → later ≤ now + lease
    → let after = perform_all calls (claim name runner workflow job lease now images).0 in
      let answer = claim name runner later_workflow later_job later_lease later after in
      (answer.0 ≡ after) × (answer.1 ≢ build)
claim-ne-build name runner workflow job later_workflow later_job lease now later_lease later images
      calls one e respected h =
    let start = (claim name runner workflow job lease now images).0 in
    let after = perform_all calls start in
    let g =
      perform_all-IsGuarded name runner (now + lease) calls respected start
        (built-IsGuarded name runner workflow job lease now images one e) in
    let no =
      refused name runner (now + lease) later later_workflow later_job later_lease after h g in
    (
      ap (λ x. x.0) no,
      λ b. seen-ne-build name runner (status_of name runner after) (sym (ap (λ x. x.1) no) ∙ b),
    )
