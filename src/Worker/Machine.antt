-- ===== src/Worker/Machine.antt =====
-- The state that a dispatcher works on, what it asks of the world outside, and the actions that its
-- code is made of. An action waits, for the database or for a daemon; while it waits, other
-- processes change the tables, and the time limit of the job may cut the whole of it off.
use ci.Common.{ℕ, Bool, List, Option, Text, Result, ok, err}
use ci.Runners.{Pool}
use ci.Workflow.Jobs.{VmSpec, ImageBuild, Step}
use ci.Store.Rows.{Db}
use ci.Store.Steps.{StepRow}
use ci.VmPool.Rows.{Vm, Lease}
use ci.Images.{Image}
use ci.Secrets.{Resolved}
use ci.Worker.Errors.{HeyoError, VmError, ImageError, JobError}

-- What is asked of the world outside, in the order of time, the latest first. `statement` stands for a
-- statement on the tables.
pub data Action : Type 0 where
  statement : Action
  started_on : (sandbox : Text) → Action
  dialled : (runner : Text) → Action
  opened : (sandbox : Text) → Action
  ensured_running : (sandbox : Text) → Action
  created : (name : Text) → Action
  destroyed : (sandbox : Text) → Action
  released : (sandbox : Text) → Action
  forgotten : (sandbox : Text) → Action
  renewed_ttl : (sandbox : Text) → Action
  listed : (runner : Text) → Action
  read_logs : (sandbox : Text) → Action
  uploaded : (sandbox path : Text) → Action
  executed : (sandbox operation : Text) → Action
  acted : (sandbox step : Text) → Action
  image_built : (runner name : Text) → Action
  waited : Action
  secrets_read : (prefix : Text) → Action
  evicted : (runner : Text) → Action
  event : (job_key status : Text) → Action

pub record Tables (N : Type 0) : Type 0 where
  pub db : Db N
  pub vms : List Vm
  pub images : List Image
  pub steps : List StepRow

pub record State (N : Type 0) : Type 0 where
  pub tables : Tables N
  pub done : List Action

-- `Sandbox` of the daemon's client library.
pub record Sandbox : Type 0 where
  pub id : Text
  pub name : Text

-- `ExecOutput` of src/vm.rs; the exit code is an `i32`, as the pattern of its bits.
pub record ExecOutput : Type 0 where
  pub output : Text
  pub stdout : Text
  pub stderr : Text
  pub exit_code : ℕ

-- `SourceFormat` of src/trigger.rs.
pub data SourceFormat : Type 0 where
  tar_gz git_bundle : SourceFormat

-- The world outside. Each answer may depend on the whole of the state when it is asked for, and so on
-- how often it was asked before.
pub record Outside (N F64 : Type 0) : Type 0 where
  -- What other processes make of the tables, whether the time limit is over, whether the
  -- database refuses the statement, and its clock.
  pub others : State N → Tables N
  pub expired : State N → Bool
  pub refuses : State N → Option Text
  pub now : State N → ℕ
  -- The rows of machines that other transactions have locked.
  pub locked : State N → Text → Bool
  -- `DispatchError::to_string`, and the `{:?}` of a text.
  pub to_string : JobError F64 → Text
  pub quoted : Text → Text
  -- The snapshot of the hosts, and a connection to one.
  pub pool : State N → Pool
  pub options_for : State N → Text → Option Text
  -- The calls of src/vm.rs. An answer that is only an error or nothing is an `Option`.
  pub open_vm : State N → Text → Option VmError
  pub ensure_running : State N → Text → Option VmError
  pub create_vm : State N → Text → Text → VmSpec → Result VmError Text
  pub destroy : State N → Text → Option VmError
  pub renew_ttl : State N → Text → Option VmError
  pub list : State N → Text → Result HeyoError (List Sandbox)
  pub logs : State N → Text → Result VmError Text
  pub upload_bytes : State N → Text → Text → Option VmError
  pub exec : State N → Text → Text → Text → List (Text × Text) → ℕ → Result VmError ExecOutput
  -- `run_action`: a step that only has `uses:`.
  pub run_action : State N → Text → Text → Step → Result (JobError F64) Text
  -- `plan_for` and `build_remote` of src/image.rs: the image's name, its size and the log.
  pub image_name : ImageBuild → VmSpec → Text → Result ImageError Text
  pub build_remote : State N → Text → Text → ImageBuild → Result ImageError (ℕ × Text)
  -- `fingerprint` on the files of a run, the counter in a sandbox's name, and the files on disk; the
  -- bytes of a file stand as a list. `late`: the wait for an image has lasted its whole time.
  pub fingerprint : VmSpec → Text → Result Text Text
  pub late : State N → Bool
  pub nonce : State N → Text
  pub exists : State N → Text → Bool
  pub read_file : State N → Text → Result Text Text
  -- `Secrets::resolve`.
  pub resolve : State N → Text → Result Text Resolved
  -- The settings: this instance's lease on a machine, and the workspace directory.
  pub lease : Lease
  pub workspace_dir : Text

-- How an action ends: with a value, with an error, or cut off by the time limit.
pub data Outcome (F64 A : Type 0) : Type 0 where
  done : A → Outcome F64 A
  failed : JobError F64 → Outcome F64 A
  cut_off : Outcome F64 A

abbrev pub Act : (N F64 A : Type 0) → Type 0
Act N F64 A = State N → Outcome F64 A × State N

module _ {N F64 : Type 0} where
  unfoldable pub pure : {A : Type 0} → A → Act N F64 A
  pure a s = (done a, s)

  unfoldable pub fail : {A : Type 0} → JobError F64 → Act N F64 A
  fail e s = (failed e, s)

  unfoldable pub then_do :
      {A B : Type 0} → Outcome F64 A × State N → (A → Act N F64 B) → Outcome F64 B × State N
  then_do (done a, s) f = f a s
  then_do (failed e, s) f = (failed e, s)
  then_do (cut_off, s) f = (cut_off, s)

  infixl 5 ◌>>=◌ ◌>>◌
  unfoldable pub ◌>>=◌ : {A B : Type 0} → Act N F64 A → (A → Act N F64 B) → Act N F64 B
  unfolding then_do
  ◌>>=◌ m f s = then_do (m s) f

  abbrev pub ◌>>◌ : {B : Type 0} → Act N F64 (Unit {0}) → Act N F64 B → Act N F64 B
  m >> k = m >>= λ u. k

  -- `match` on a result; the time limit is not a result.
  unfoldable pub handle :
      {A B : Type 0}
      → Outcome F64 A × State N
      → (A → Act N F64 B)
      → (JobError F64 → Act N F64 B)
      → Outcome F64 B × State N
  handle (done a, s) f g = f a s
  handle (failed e, s) f g = g e s
  handle (cut_off, s) f g = (cut_off, s)

  unfoldable pub attempt :
      {A B : Type 0} → Act N F64 A → (A → Act N F64 B) → (JobError F64 → Act N F64 B) → Act N F64 B
  unfolding handle
  attempt m f g s = handle (m s) f g

  -- What is read without waiting: the clock of the process, its counter, its snapshot of the hosts.
  unfoldable pub peek : {A : Type 0} → (State N → A) → Act N F64 A
  peek f s = (done (f s), s)

  unfoldable pub lift : {A : Type 0} → Result (JobError F64) A → Act N F64 A
  lift (ok a) s = (done a, s)
  lift (err e) s = (failed e, s)

  -- `let _ = …`, and a `match` that only logs the error.
  unfoldable pub ignore : {A : Type 0} → Act N F64 A → Act N F64 (Unit {0})
  ignore m = attempt m (λ a. pure tt) (λ e. pure tt)
