-- ===== src/Worker/Checkout.antt =====
-- Putting the submitted tree into the guest: `checkout` of src/dispatch.rs, with `stored_source` of
-- src/trigger.rs.
use ci.Common.{
  ℕ, [], ◌∷◌, ◌++◌, Option, none, some, Text, codes, decimal, length, if◌then◌else◌, Result, ok,
  err, map_err,
}
use mathlib.Core.Option
use ci.Plan.Jobs.{JobPlan}
use ci.Bus.{JobMessage}
use ci.Store.Steps
use ci.Store.Steps.{checkout_index, create_step, start_step, append_log, finish_step}
use ci.Worker.Errors.{VmError, JobError, vm}
use ci.Worker.Errors as Errors
use ci.Worker.Machine.{
  waited, uploaded, executed, State, Outside, ExecOutput, SourceFormat, tar_gz, git_bundle, Act,
  fail, lift, attempt, peek, ◌>>=◌, ◌>>◌,
}
use ci.Worker.Calls.{ask, in_steps, lift_vm}
use ci.Worker.Commands.{
  default_workdir, remote_path, checkout_script, combined, succeeded, exit_text,
}

-- `Workspace::path_for`, with the extensions of `SourceFormat`.
unfoldable pub source_path : Text → Text → SourceFormat → Text
source_path dir run_id tar_gz = dir ++ (b'/' ∷ (run_id ++ codes ".tar.gz"))
source_path dir run_id git_bundle = dir ++ (b'/' ∷ (run_id ++ codes ".bundle"))

module _ {N F64 : Type 0} (env : Outside N F64) where
  -- `stored_source`: a bundle is looked for first.
  unfoldable pub stored_source : Text → State N → Option SourceFormat
  unfolding source_path
  stored_source run_id s =
      if env.exists s (source_path env.workspace_dir run_id git_bundle)
      then some git_bundle
      else if env.exists s (source_path env.workspace_dir run_id tar_gz)
      then some tar_gz
      else none

  -- What a failed checkout leaves: its log, its row, its error.
  abbrev pub refused : Text → Text → Option ℕ → Option Text → Text → Act N F64 (Unit {0})
  refused sid text code error reason = do
    in_steps env (λ s. append_log sid text)
    in_steps env (λ s. finish_step sid Steps.failure code error (env.now s))
    fail (Errors.checkout reason)

  abbrev noted_text : Text → Text
  noted_text detail = codes "[ci] " ++ (detail ++ codes "\n")

  abbrev no_source : Text → Text
  no_source run_id =
      codes "no submitted source is on disk for run "
      ++ (run_id ++ (codes " under " ++ env.workspace_dir))

  abbrev missing : Text → SourceFormat → Text → Text
  missing run_id format e =
      codes "the submitted source is missing at "
      ++ (source_path env.workspace_dir run_id format ++ (codes ": " ++ e))

  abbrev checkout_timeout : ℕ
  checkout_timeout = 300

  -- Uploads the archive and runs the script.
  abbrev pub unpack : Text → Text → Text → SourceFormat → Text → Act N F64 ExecOutput
  unpack sid id workdir format bytes = do
    sent ←
        ask env (uploaded id (remote_path workdir format))
          (λ s. env.upload_bytes s id (remote_path workdir format))
    lift_vm env sent
    answer ←
        ask env (executed id (sid ++ codes ".x"))
          (λ s. env.exec s id (sid ++ codes ".x") (checkout_script workdir format) [] 300)
    lift (map_err vm answer)

  abbrev pub extracted : Text → Text → Text → ExecOutput → Act N F64 (Unit {0})
  extracted sid workdir bytes out =
      if succeeded out
      then in_steps env (λ s. append_log sid (
          codes "[ci] "
          ++ (decimal (length bytes)
              ++ (codes " bytes extracted into " ++ (workdir ++ (codes "\n" ++ combined out))))))
        >> in_steps env (λ s. finish_step sid Steps.success (some 0) none (env.now s))
      else refused sid (combined out) (some out.exit_code) none
          (codes "extracting the source exited " ++ exit_text out.exit_code)

  abbrev pub with_bytes :
      Text → Text → Text → Text → SourceFormat → Result Text Text → Act N F64 (Unit {0})
  with_bytes sid run_id id workdir format (err e) =
      let detail = missing run_id format e in
      refused sid (noted_text detail) none (some detail) detail
  with_bytes sid run_id id workdir format (ok bytes) =
      attempt (unpack sid id workdir format bytes) (extracted sid workdir bytes) (λ e.
        refused sid (noted_text (env.to_string e)) none (some (env.to_string e)) (env.to_string e))

  abbrev pub with_source : Text → Text → Text → Text → Option SourceFormat → Act N F64 (Unit {0})
  with_source sid run_id id workdir none =
      let detail = no_source run_id in refused sid (noted_text detail) (some 1) (some detail) detail
  with_source sid run_id id workdir (some format) = do
    bytes ← ask env waited (λ s. env.read_file s (source_path env.workspace_dir run_id format))
    with_bytes sid run_id id workdir format bytes

  unfoldable pub checkout : JobMessage → JobPlan N → Text → Act N F64 (Unit {0})
  unfolding stored_source
  checkout msg plan id = do
    let sid = msg.job_id ++ codes ".checkout"
    in_steps env (λ s. create_step sid msg.job_id checkout_index (codes "Checkout") none)
    in_steps env (λ s. start_step sid sid (env.now s))
    format ← peek (stored_source msg.run_id)
    with_source sid msg.run_id id (Option.get_or plan.vm.working_directory default_workdir) format
