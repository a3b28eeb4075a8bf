-- ===== src/Plan/Jobs.antt =====
-- `JobPlan` and `Plan` of src/plan.rs.
use ci.Common.{ℕ, Bool, List, Option, Text}
use ci.Json.{Value}
use ci.Workflow.Target.{Target}
use ci.Workflow.Jobs.{Fallback, VmSpec, Step}

-- The time limit is in seconds.
pub record JobPlan (N : Type 0) : Type 0 where
  pub key : Text
  pub base_id : Text
  pub display : Text
  pub target : Target
  pub fallback : Fallback
  pub vm : VmSpec
  pub needs : List Text
  pub condition : Option Text
  pub matrix : List (Text × Value N)
  pub env : List (Text × Text)
  pub outputs : List (Text × Text)
  pub continue_on_error : Bool
  pub timeout : ℕ
  pub steps : List Step
  pub max_parallel : Option ℕ
  pub fail_fast : Bool

pub record Plan (N : Type 0) : Type 0 where
  pub workflow_path : Text
  pub workflow_name : Option Text
  pub env : List (Text × Text)
  pub jobs : List (JobPlan N)
