-- ===== src/Workflow/Validate.antt =====
-- `Workflow::validate` of src/workflow.rs with `VmSpec::validate` of src/vm.rs. `Cycle` is the search
-- for a cycle of needs.
pub mod Cycle
pub mod Visits
pub mod Finish
pub mod Fuel
pub mod Sound
use ci.Common.{
  ℕ, zero, suc, ◌+◌, Bool, true, false, not, ◌&&◌, ◌||◌, List, [], ◌∷◌, ◌++◌, Option, none, some,
  Text, codes, text_eq, map, any, all, is_empty, length, leb, is_alnum, starts_with, split, join,
  trim, ◌==◌, if◌then◌else◌, Result, ok, err, ◌>>=◌, ◌>>◌, Checked, require, map_err,
}
use ci.Expr.Lexer.{utf8}
use ci.Plan.Order.{member}
use ci.Workflow.Target.{UsesError, Target}
use ci.Workflow.Jobs.{Step, Driver, libvirt, ImageBuild, VmSpec, Job, Workflow, job_target}
use Cycle.{CycleStop, find_cycle}

-- `VmSpecError`.
pub data VmError : Type 0 where
  unsupported_driver image_and_build empty_dockerfile_path zero_image_size zero_disk zero_ttl :
      VmError
  escaping_build_path invalid_env_key escaping_cache_key_file : Text → VmError

abbrev is_libvirt : Driver → Bool
is_libvirt libvirt = true
is_libvirt _ = false

-- `path.starts_with('/') || path.split('/').any(|s| s == "..")`.
abbrev pub escapes : Text → Bool
escapes path = starts_with (codes "/") path || any (λ s. text_eq s (codes "..")) (split b'/' path)

abbrev is_zero : Option ℕ → Bool
is_zero none = false
is_zero (some n) = n == 0

abbrev is_some_text : Option Text → Bool
is_some_text none = false
is_some_text (some t) = true

-- `ImageBuild::context_dir`: the part before the last slash, where there is one.
abbrev before_last : List Text → List Text
before_last [] = []
before_last (w ∷ []) = []
before_last (w ∷ v ∷ ws) = w ∷ before_last (v ∷ ws)

abbrev parent_dir : List Text → Text
parent_dir [] = codes "."
parent_dir (w ∷ []) = codes "."
parent_dir (w ∷ v ∷ ws) = join (codes "/") (before_last (w ∷ v ∷ ws))

abbrev context_dir : ImageBuild → Text
context_dir b = elim b.context [ none ↦ parent_dir (split b'/' b.dockerfile) | some c ↦ c ]

abbrev validate_build : Option Text → Option ImageBuild → Checked VmError
validate_build image none = ok tt
validate_build image (some b) = do
  require (not (is_some_text image)) image_and_build
  require (not (escapes b.dockerfile)) (escaping_build_path b.dockerfile)
  require (not (escapes (context_dir b))) (escaping_build_path (context_dir b))
  require (not (is_empty (trim b.dockerfile))) empty_dockerfile_path
  require (not (is_zero b.size_mb)) zero_image_size

abbrev is_env_key : Text → Bool
is_env_key key = not (is_empty key) && all (λ c. is_alnum c || c == b'_') key

abbrev validate_keys : List (Text × Text) → Checked VmError
validate_keys [] = ok tt
validate_keys ((key, v) ∷ rest) =
    require (is_env_key key) (invalid_env_key key) >> validate_keys rest

abbrev validate_files : List Text → Checked VmError
validate_files [] = ok tt
validate_files (path ∷ rest) =
    require (not (escapes path)) (escaping_cache_key_file path) >> validate_files rest

unfoldable pub validate_vm : VmSpec → Checked VmError
validate_vm spec = do
  require (not (is_libvirt spec.driver)) unsupported_driver
  validate_build spec.image spec.build
  require (not (is_zero spec.disk_size_gb)) zero_disk
  require (not (is_zero spec.ttl_seconds)) zero_ttl
  validate_keys spec.env_vars
  validate_files spec.cache_key_files

-- `is_job_id`: the length is in bytes.
unfoldable pub is_job_id : Text → Bool
is_job_id s =
    not (is_empty s)
    && leb (length (utf8 s)) 64
    && all (λ c. is_alnum c || c == b'_' || c == b'-') s

-- `WorkflowError` as far as `validate` makes it. A step is named by its place in the job.
pub data WorkflowError : Type 0 where
  duplicate_job : WorkflowError
  bad_job_id self_need no_steps : Text → WorkflowError
  bad_vm : Text → VmError → WorkflowError
  bad_uses : Text → UsesError → WorkflowError
  unknown_need : (job need : Text) → WorkflowError
  run_and_uses neither_run_nor_uses : Text → ℕ → WorkflowError
  cycle : CycleStop → WorkflowError

abbrev validate_needs : Text → List Text → List Text → Checked WorkflowError
validate_needs id ids [] = ok tt
validate_needs id ids (need ∷ rest) = do
  require (member need ids) (unknown_need id need)
  require (not (text_eq need id)) (self_need id)
  validate_needs id ids rest

abbrev validate_step : Text → ℕ → Option Text → Option Text → Checked WorkflowError
validate_step id i (some r) (some u) = err (run_and_uses id i)
validate_step id i none none = err (neither_run_nor_uses id i)
validate_step id i (some r) none = ok tt
validate_step id i none (some u) = ok tt

abbrev validate_steps : Text → ℕ → List Step → Checked WorkflowError
validate_steps id i [] = ok tt
validate_steps id i (s ∷ rest) = validate_step id i s.run s.uses >> validate_steps id (suc i) rest

-- `ids.len() == self.jobs.len()` for the set of the ids.
abbrev pub all_differ : List Text → Bool
all_differ [] = true
all_differ (id ∷ ids) = not (member id ids) && all_differ ids

module _ {Y : Type 0} where
  abbrev pub ids_of : List (Text × Job Y) → List Text
  ids_of jobs = map (λ j. j.0) jobs

  -- The ids with their needs.
  abbrev pub needs_of : List (Text × Job Y) → List (Text × List Text)
  needs_of jobs = map (λ j. (j.0, j.1.needs)) jobs

  unfoldable pub validate_job : List Text → Text → Job Y → Checked WorkflowError
  unfolding is_job_id validate_vm job_target
  validate_job ids id job = do
    require (is_job_id id) (bad_job_id id)
    map_err (bad_vm id) (validate_vm job.vm)
    target ← map_err (bad_uses id) (job_target job)
    validate_needs id ids job.needs
    require (not (is_empty job.steps)) (no_steps id)
    validate_steps id 0 job.steps

  unfoldable pub validate_jobs : List Text → List (Text × Job Y) → Checked WorkflowError
  unfolding validate_job
  validate_jobs ids [] = ok tt
  validate_jobs ids ((id, job) ∷ rest) = validate_job ids id job >> validate_jobs ids rest

  unfoldable pub validate : Workflow Y → Checked WorkflowError
  unfolding validate_jobs find_cycle
  validate wf = do
    require (all_differ (ids_of wf.jobs)) duplicate_job
    validate_jobs (ids_of wf.jobs) wf.jobs
    map_err cycle (find_cycle (needs_of wf.jobs))
