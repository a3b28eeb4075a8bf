-- ===== src/Workflow/Jobs.antt =====
-- The records of src/workflow.rs and the `vm:` block of src/vm.rs.
use ci.Common.{ℕ, Bool, List, Option, none, some, Text, Result, ok}
use ci.Workflow.Filter.{SubmitFilter}
use ci.Workflow.Target.{Target, UsesError, parse_target, any_target}

pub data Fallback : Type 0 where
  stay anywhere : Fallback

pub record Step : Type 0 where
  pub name : Option Text
  pub id : Option Text
  pub condition : Option Text
  pub uses : Option Text
  pub arguments : List (Text × Text)
  pub run : Option Text
  pub shell : Option Text
  pub working_directory : Option Text
  pub env : List (Text × Text)
  pub timeout_minutes : Option ℕ
  pub continue_on_error : Bool

-- `SandboxDriver` of the daemon's client library, as far as `validate` tells its values apart.
pub data Driver : Type 0 where
  firecracker kvm libvirt : Driver

pub record ImageBuild : Type 0 where
  pub dockerfile : Text
  pub context : Option Text
  pub size_mb : Option ℕ

pub record VmSpec : Type 0 where
  pub driver : Driver
  pub image : Option Text
  pub build : Option ImageBuild
  pub size_class : Option Text
  pub disk_size_gb : Option ℕ
  pub working_directory : Option Text
  pub env_vars : List (Text × Text)
  pub setup_hooks : List Text
  pub cache_key_files : List Text
  pub reuse : Bool
  pub ttl_seconds : Option ℕ

-- A matrix as YAML has it, `Y`, is read by the plan.
pub record Strategy (Y : Type 0) : Type 0 where
  pub matrix : Option Y
  pub max_parallel : Option ℕ
  pub fail_fast : Bool

pub record Job (Y : Type 0) : Type 0 where
  pub name : Option Text
  pub uses : Option Text
  pub vm : VmSpec
  pub needs : List Text
  pub condition : Option Text
  pub strategy : Option (Strategy Y)
  pub env : List (Text × Text)
  pub outputs : List (Text × Text)
  pub continue_on_error : Bool
  pub timeout_minutes : Option ℕ
  pub fallback : Fallback
  pub steps : List Step

-- `Workflow`: the jobs are in the order of the file.
pub record Workflow (Y : Type 0) : Type 0 where
  pub path : Text
  pub name : Option Text
  pub on : List Text
  pub on_submit : SubmitFilter
  pub env : List (Text × Text)
  pub jobs : List (Text × Job Y)

-- `Job::target`.
unfoldable pub job_target : {Y : Type 0} → Job Y → Result UsesError Target
job_target job = elim job.uses [ none ↦ ok any_target | some u ↦ parse_target u ]
