-- ===== src/Worker/Errors.antt =====
-- The errors that a job's run ends with: `DispatchError` of src/dispatch.rs, `VmError` of src/vm.rs and
-- `ImageError` of src/image.rs, with the two questions that the dispatcher asks of an error.
use ci.Common.{ℕ, zero, suc, Bool, true, false, List, [], ◌∷◌, Option, Text, codes, any, contains}
use ci.Expr.Lexer.{Stop}
use ci.Dispatch.Place.{DispatchError}

-- `HeyoError` of the daemon's client library, as far as `is_transport` tells its values apart.
pub data HeyoError : Type 0 where
  api : (status : ℕ) → Text → HeyoError
  connection : Text → HeyoError
  other : Text → HeyoError

abbrev is_zero : ℕ → Bool
is_zero zero = true
is_zero (suc n) = false

-- `is_transport` of src/vm.rs.
unfoldable pub is_transport : HeyoError → Bool
is_transport (api status text) = is_zero status
is_transport (connection text) = true
is_transport (other text) = false

pub data VmError : Type 0 where
  create : Text → HeyoError → VmError
  daemon : Text → Text → HeyoError → VmError
  not_runnable : Text → Text → Option Text → VmError
  bad_operation_id : Text → VmError
  exec_failed : Text → Text → Text → VmError
  exec_timeout : Text → Text → ℕ → VmError
  malformed_record : Text → Text → Text → VmError
  upload_failed : Text → Text → ℕ → ℕ → Text → VmError
  upload_corrupted : Text → Text → Text → Text → VmError

-- `VmError::is_transport`.
unfoldable pub vm_transport : VmError → Bool
unfolding is_transport
vm_transport (create name source) = is_transport source
vm_transport (daemon sandbox what source) = is_transport source
vm_transport _ = false

pub data ImageError : Type 0 where
  no_dockerfile : Text → Text → ImageError
  unreadable_context : Text → Text → ImageError
  pack : Text → ImageError
  image_daemon : Text → HeyoError → ImageError
  build_failed : Text → Text → ImageError
  build_timeout : Text → ℕ → ImageError
  sql : Text → ImageError
  wait_timeout : Text → ℕ → ImageError

-- `ImageError::is_transport`.
unfoldable pub image_transport : ImageError → Bool
unfolding is_transport
image_transport (image_daemon what source) = is_transport source
image_transport _ = false

-- `DispatchError`; its variants that placement raises are those of `Dispatch.Place`.
pub data JobError (F64 : Type 0) : Type 0 where
  placement : DispatchError → JobError F64
  store : Text → JobError F64
  pool : Text → JobError F64
  runner : Text → JobError F64
  vm : VmError → JobError F64
  image : ImageError → JobError F64
  bad_plan : JobError F64
  condition : Stop F64 → JobError F64
  unknown_job : Text → JobError F64
  cancelled : Text → JobError F64
  job_timeout : Text → JobError F64
  unknown_vm : Text → Text → List Text → JobError F64
  step_failed : Text → JobError F64
  checkout : Text → JobError F64
  secrets : Text → JobError F64
  artifact : Text → JobError F64

-- What a guest says when its disk is broken.
abbrev corruption_marks : List Text
corruption_marks =
    codes "Bad message"
    ∷ codes "Structure needs cleaning"
    ∷ codes "Read-only file system"
    ∷ codes "Input/output error"
    ∷ codes "sha256 mismatch"
    ∷ []

abbrev has_mark : Text → Bool
has_mark text = any (contains text) corruption_marks

module _ {F64 : Type 0} where
  unfoldable pub is_tunnel_failure : JobError F64 → Bool
  unfolding vm_transport image_transport
  is_tunnel_failure (vm e) = vm_transport e
  is_tunnel_failure (image e) = image_transport e
  is_tunnel_failure _ = false

  -- `to_string` is the wording of an error.
  unfoldable pub indicates_guest_corruption : (JobError F64 → Text) → JobError F64 → Bool
  indicates_guest_corruption to_string (checkout r) = has_mark (to_string (checkout r))
  indicates_guest_corruption to_string (vm e) = has_mark (to_string (vm e))
  indicates_guest_corruption to_string _ = false
