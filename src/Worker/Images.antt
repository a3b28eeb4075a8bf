-- ===== src/Worker/Images.antt =====
-- The image of a job with `vm.build`: `ensure_image` and `attach_build_log` of src/dispatch.rs.
use ci.Common.{
  ℕ, zero, suc, Bool, true, false, ◌++◌, Text, codes, if◌then◌else◌, Result, ok, err, map_err,
}
use ci.Plan.Jobs.{JobPlan}
use ci.Workflow.Jobs.{ImageBuild}
use ci.Bus.{JobMessage}
use ci.Store.Steps.{image_log_index}
use ci.Images
use ci.Worker.Errors.{ImageError, image, wait_timeout}
use ci.Worker.Machine.{
  image_built, waited, Outside, Act, pure, fail, ignore, peek, lift, ◌>>=◌, ◌>>◌,
}
use ci.Worker.Calls.{ask, on_images, in_images, options_for}
use ci.Worker.Machines.{attach}

-- `BUILD_BUDGET` in seconds, and the waits of ten seconds that fit into it.
abbrev build_budget : ℕ
build_budget = 2400

abbrev pub waits : ℕ
waits = 240

-- `BUILD_LEASE` of src/image.rs, in seconds.
abbrev build_lease : ℕ
build_lease = 1800

module _ {N F64 : Type 0} (env : Outside N F64) where
  unfoldable pub attach_build_log : JobMessage → Text → Text → Act N F64 (Unit {0})
  unfolding attach
  attach_build_log msg name text =
      attach env (msg.job_id ++ codes ".imglog") msg.job_id image_log_index (codes "Image " ++ name)
        (pure text)

  abbrev pub give_up : Text → Act N F64 Bool
  give_up name = fail (image (wait_timeout name build_budget))

  -- A turn of the loop that claims the build: whether this job is to build. While another job
  -- builds, it waits, until the deadline has passed; the last turn is past it in any case, since
  -- each wait takes ten seconds.
  abbrev pub on_claim : Text → Act N F64 Bool → Images.Claim → Act N F64 Bool
  on_claim name later Images.use_ready = pure false
  on_claim name later Images.build = pure true
  on_claim name later Images.in_progress = later

  abbrev pub claim_image : Text → Text → JobPlan N → Text → Act N F64 Images.Claim
  claim_image name runner plan job =
      on_images env (λ s. Images.claim name runner plan.base_id job build_lease (env.now s))

  unfoldable pub claim_build : ℕ → Text → Text → JobPlan N → Text → Act N F64 Bool
  claim_build zero name runner plan job =
      claim_image name runner plan job >>= on_claim name (give_up name)
  claim_build (suc left) name runner plan job =
      claim_image name runner plan job
      >>= on_claim name (
          peek env.late >>= λ late.
          if late
          then give_up name
          else ask env waited (λ s. tt) >> claim_build left name runner plan job)

  -- Only logged when it fails; the row says why the job fails.
  abbrev pub built : Text → Text → JobMessage → Result ImageError (ℕ × Text) → Act N F64 Text
  built name runner msg (ok (size, log)) = do
    attach_build_log msg name log
    in_images env (λ s. Images.mark_ready name runner size (env.now s))
    pure name
  built name runner msg (err e) = do
    let detail = env.to_string (image e)
    ignore (in_images env (λ s. Images.mark_failed name runner detail))
    attach_build_log msg name (codes "[ci] " ++ (detail ++ codes "\n"))
    fail (image e)

  abbrev pub build_here : Text → Text → ImageBuild → JobMessage → Bool → Act N F64 Text
  build_here name runner build msg false = pure name
  build_here name runner build msg true = do
    options_for env runner
    answer ← ask env (image_built runner name) (λ s. env.build_remote s runner name build)
    built name runner msg answer

  unfoldable pub ensure_image : Text → JobPlan N → ImageBuild → JobMessage → Act N F64 Text
  unfolding claim_build attach_build_log
  ensure_image runner plan build msg = do
    name ← lift (map_err image (env.image_name build plan.vm msg.run_id))
    mine ← claim_build waits name runner plan msg.job_id
    build_here name runner build msg mine
