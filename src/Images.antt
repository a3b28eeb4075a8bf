-- ===== src/Images.antt =====
-- The catalog of the images that were built on each host: `Catalog` of src/image.rs on the rows of
-- `ci_vm_image`, migrations/008_vm_image.sql. A statement is atomic; `now` is the database's clock.
-- `(name, runner_hd_id)` is the primary key.
pub mod Steps
pub mod Guarded
pub mod Claims
use ci.Common.{
  ℕ, ◌+◌, Bool, true, false, not, ◌&&◌, ◌||◌, List, [], ◌∷◌, ◌++◌, Option, none, some, Text,
  text_eq, ltb, any, find, keep, sort_by, is_empty, if◌then◌else◌,
}
use ci.Plan.Order.{member}
use ci.Store.Rows.{update_where}

-- The values that the column `status` may have.
pub data ImageStatus : Type 0 where
  building ready failed : ImageStatus

abbrev pub is_ready : ImageStatus → Bool
is_ready ready = true
is_ready _ = false

abbrev pub is_building : ImageStatus → Bool
is_building building = true
is_building _ = false

pub record Image : Type 0 where
  pub name : Text
  pub runner_hd_id : Text
  pub workflow_id : Text
  pub status : ImageStatus
  pub built_by_job : Option Text
  pub size_bytes : ℕ
  pub error : Option Text
  pub leased_until : Option ℕ
  pub created_at : ℕ
  pub ready_at : Option ℕ

pub data Claim : Type 0 where
  use_ready build in_progress : Claim

abbrev pub is_image : Text → Text → Image → Bool
is_image name runner i = text_eq i.name name && text_eq i.runner_hd_id runner

-- `leased_until IS NULL OR leased_until < now()`.
abbrev pub lease_over : Option ℕ → ℕ → Bool
lease_over none now = true
lease_over (some t) now = ltb t now

-- The row that the upsert of `claim` may take.
abbrev pub is_free : ℕ → Image → Bool
is_free now i = not (is_ready i.status) && lease_over i.leased_until now

abbrev pub new_image : Text → Text → Text → Text → ℕ → ℕ → Image
new_image name runner workflow job lease now = record {
  name = name;
  runner_hd_id = runner;
  workflow_id = workflow;
  status = building;
  built_by_job = some job;
  size_bytes = 0;
  error = none;
  leased_until = some (now + lease);
  created_at = now;
  ready_at = none;
}

abbrev pub taken : Text → ℕ → ℕ → Image → Image
taken job lease now i = record i {
  status = building;
  built_by_job = some job;
  error = none;
  leased_until = some (now + lease);
}

unfoldable pub status_of : Text → Text → List Image → Option ImageStatus
status_of name runner images = elim (find (is_image name runner) images) [
  | none ↦ none
  | some i ↦ some i.status
]

abbrev pub seen : Option ImageStatus → Claim
seen (some ready) = use_ready
seen _ = in_progress

-- The upsert, and the second query where it took no row.
unfoldable pub claim : Text → Text → Text → Text → ℕ → ℕ → List Image → List Image × Claim
unfolding status_of
claim name runner workflow job lease now images =
    if any (is_image name runner) images
    then if any (λ i. is_image name runner i && is_free now i) images
      then (
        update_where (λ i. is_image name runner i && is_free now i) (taken job lease now) images,
        build,
      )
      else (images, seen (status_of name runner images))
    else (images ++ new_image name runner workflow job lease now ∷ [], build)

abbrev is_held : Text → Text → Image → Bool
is_held name runner i = is_image name runner i && is_building i.status

unfoldable pub renew : Text → Text → ℕ → ℕ → List Image → List Image
renew name runner lease now =
    update_where (is_held name runner) (λ i. record i { leased_until = some (now + lease) })

abbrev pub marked_ready : ℕ → ℕ → Image → Image
marked_ready size now i = record i {
  status = ready;
  ready_at = some now;
  leased_until = none;
  error = none;
  size_bytes = size;
}

unfoldable pub mark_ready : Text → Text → ℕ → ℕ → List Image → List Image
mark_ready name runner size now = update_where (is_image name runner) (marked_ready size now)

abbrev pub is_unready : Text → Text → Image → Bool
is_unready name runner i = is_image name runner i && not (is_ready i.status)

abbrev pub marked_failed : Text → Image → Image
marked_failed error i = record i { status = failed; leased_until = none; error = some error }

unfoldable pub mark_failed : Text → Text → Text → List Image → List Image
mark_failed name runner error = update_where (is_unready name runner) (marked_failed error)

unfoldable pub forget : Text → Text → List Image → List Image
forget name runner = keep (λ i. not (is_image name runner i))

-- `inventory`: `before` is the collation of the database. A `CatalogEntry` is the row without its
-- lease.
unfoldable pub inventory : (Text → Text → Bool) → List Text → List Image → List Image
inventory before runners images =
    if is_empty runners
    then []
    else sort_by listed_before (keep (λ i. member i.runner_hd_id runners) images)
  where
    listed_before : Image → Image → Bool
    listed_before i j =
        before i.runner_hd_id j.runner_hd_id
        || text_eq i.runner_hd_id j.runner_hd_id && ltb j.created_at i.created_at
