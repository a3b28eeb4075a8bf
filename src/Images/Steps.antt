-- ===== src/Images/Steps.antt =====
-- Any sequence of the statements on `ci_vm_image` in src/image.rs, each at the database's time.
use ci.Common.{ℕ, Text, List, [], ◌∷◌}
use ci.Images.{Image, claim, renew, mark_ready, mark_failed, forget}

-- A statement with its arguments but the time.
pub data Call : Type 0 where
  claims : (name runner workflow job : Text) (lease : ℕ) → Call
  renews : (name runner : Text) (lease : ℕ) → Call
  marks_ready : (name runner : Text) (size : ℕ) → Call
  marks_failed : (name runner error : Text) → Call
  forgets : (name runner : Text) → Call

unfoldable pub perform : ℕ × Call → List Image → List Image
unfolding claim renew mark_ready mark_failed forget
perform (now, claims name runner workflow job lease) images =
    (claim name runner workflow job lease now images).0
perform (now, renews name runner lease) images = renew name runner lease now images
perform (now, marks_ready name runner size) images = mark_ready name runner size now images
perform (now, marks_failed name runner error) images = mark_failed name runner error images
perform (now, forgets name runner) images = forget name runner images

unfoldable pub perform_all : List (ℕ × Call) → List Image → List Image
unfolding perform
perform_all [] images = images
perform_all (c ∷ calls) images = perform_all calls (perform c images)
