-- ===== src/Examples/Working.antt =====
-- Deliveries of a job at concrete inputs: a machine that answers every call, and tables on which
-- nobody else works.
use ci.Common.{
  ◌≢◌, List, ◌++◌, arith, ℕ, ◌≡◌, ◌⊎◌, ◌<◌, true, false, refl, all, [], ◌∷◌, none, some, codes, ok,
}
use mathlib.Core.Path.{subst}
use ci.Workflow.Target.{Target, is_existing_vm}
use ci.Plan.Jobs.{JobPlan}
use ci.Bus.{JobMessage, backoff_for}
use ci.Store.Status.{JobStatus}
use ci.Store.Rows.{JobRow}
use ci.Store.Tables.{get_job, claim_job, start_job}
use ci.VmPool
use ci.Worker.Machines.{acquire_vm}
use ci.Worker.Checkout.{checkout}
use ci.Worker.Commands.{succeeded, shell_quote}
use ci.Worker.Steps.{run_steps}
use ci.Store.Lifecycle.{History, start_here}
use ci.Store.Over.{is_over}
use ci.Runners.{find_network, network_matches, dispatchable, is_dispatchable}
use ci.Dispatch.Place.{pick_runner, place, network_of}
use ci.Worker.Machine.{
  Action, statement, Tables, State, Outside, done, ◌>>=◌, then_do, handle, fail, peek, lift, ignore,
  attempt, pure,
}
use ci.Worker.Calls.{issue, issued, ask}
use ci.Worker.Job.{run_job}
use ci.Worker.Deliver.{Answer, acked, naked, max_deliver, deliver}
use ci.Images
use ci.Images.{Image}
use ci.Images.Steps.{Call, claims, renews, marks_failed, perform_all}
use ci.Images.Claims.{claim-ne-build}
use ci.Worker.Quoting.{plain, read_word, shell_quote-reads}
use ci.Worker.Spared.{NamesVm, spares, run_job-spares}
use ci.Worker.Raced.{IsShut, run_job-stops}
use ci.Worker.HandedBack.{was_cut_off, held_by, Clear}
use ci.Worker.HandedBack.Jobs.{run_job-Clear}
use ci.Worker.Answered.{deliver-answers, acked-is_over}
use ci.Examples.Data.{world, pool, target_of, plan_of, run, build_row}

abbrev outside : Outside ℕ ℕ
outside = record {
  others = λ s. s.tables;
  expired = λ s. false;
  refuses = λ s. none;
  now = λ s. 40;
  locked = λ s id. false;
  to_string = λ e. codes "failed";
  quoted = λ t. t;
  pool = λ s. pool;
  options_for = λ s runner. none;
  open_vm = λ s id. none;
  ensure_running = λ s id. none;
  create_vm = λ s runner name spec. ok (codes "sb-1");
  destroy = λ s id. none;
  renew_ttl = λ s id. none;
  list = λ s runner. ok (record { id = codes "sb-7"; name = codes "desk" } ∷ []);
  logs = λ s id. ok (codes "booted");
  upload_bytes = λ s id path. none;
  exec = λ s id operation command envs time.
      ok (record { output = codes "done"; stdout = []; stderr = []; exit_code = 0 });
  run_action = λ s id action step. ok [];
  image_name = λ b spec dir. ok (codes "ci-img-1");
  build_remote = λ s runner name b. ok (10, codes "built");
  fingerprint = λ spec dir. ok (codes "f1");
  late = λ s. false;
  nonce = λ s. codes "0";
  exists = λ s path. true;
  read_file = λ s path. ok (codes "archive");
  resolve = λ s place. ok (record { secrets = []; vars = [] });
  lease = record { instance_id = codes "i1"; ttl = 60 };
  workspace_dir = codes "/var/ci";
}

abbrev state_with : JobRow ℕ → State ℕ
state_with row = record {
  tables = record {
    db = record { runs = run ∷ []; jobs = row ∷ [] };
    vms = [];
    images = [];
    steps = [];
  };
  done = [];
}

abbrev message : JobMessage
message = record { run_id = codes "r1"; job_id = codes "r1.build"; job_key = codes "build" }

-- A job that asks for the machine `desk` on the host `big`.
abbrev desk_target : Target
desk_target = record (target_of (some (codes "big"))) { vm = some (codes "desk") }

abbrev desk_plan : JobPlan ℕ
desk_plan = record (plan_of (codes "build") []) { target = desk_target }

abbrev queued_row : JobRow ℕ
queued_row = record build_row { status = JobStatus.queued; queued_at = some 20 }

abbrev desk_row : JobRow ℕ
desk_row = record queued_row { plan = some desk_plan }

desk_named : NamesVm desk_target
desk_named = record {
  network_based = refl;
  host = codes "big";
  host_named = refl;
  machine = codes "desk";
  machine_named = refl;
}

unsome : (p : JobPlan ℕ) → some desk_plan ≡ some p → desk_plan ≡ p
unsome p e = ground arith

run_job-spares_example :
    all spares (run_job world outside message 1 (state_with desk_row)).1.done ≡ true
unfolding get_job
run_job-spares_example =
    run_job-spares world outside message 1 (state_with desk_row)
      (λ p e. subst (λ (q : JobPlan ℕ). NamesVm q.target) (unsome p e) desk_named) refl

abbrev nobody : (s : State ℕ) → History s.tables.db (outside.others s).db
nobody s = start_here

deliver-answers_example :
    (a : Answer) × (after : State ℕ) × (deliver world outside
        (some message)
        none
        (state_with queued_row)
      ≡ (done a, after))
    × ((a ≡ acked) ⊎ ((a ≡ naked (backoff_for 1)) × (1 < max_deliver)))
deliver-answers_example = deliver-answers world outside message none (state_with queued_row)

abbrev passed : State ℕ
passed = (deliver world outside (some message) (some 1) (state_with queued_row)).1

delivered :
    deliver world outside (some message) (some 1) (state_with queued_row) ≡ (done acked, passed)
unfolding deliver ◌>>=◌ then_do handle issue issued ask get_job peek lift pick_runner place
    network_of find_network network_matches dispatchable is_dispatchable ignore attempt pure fail
    claim_job acquire_vm VmPool.claim start_job checkout succeeded run_steps is_existing_vm
delivered = refl

acked-is_over_example : is_over (codes "r1.build") passed.tables.db ≡ true
acked-is_over_example =
    acked-is_over world outside nobody (λ s. refl) message (some 1) (state_with queued_row) passed
      refl delivered

ends : was_cut_off (run_job world outside message 1 (state_with queued_row)).0 ≡ false
unfolding run_job ◌>>=◌ then_do handle issue issued ask get_job peek lift pick_runner place
    network_of find_network network_matches dispatchable is_dispatchable ignore attempt pure fail
    claim_job acquire_vm VmPool.claim start_job checkout succeeded run_steps is_existing_vm
ends = refl

unplanned :
    (p : JobPlan ℕ) → some (plan_of (codes "build") []) ≡ some p → plan_of (codes "build") [] ≡ p
unplanned p e = ground arith

run_job-Clear_example : Clear (run_job world outside message 1 (state_with queued_row)).1
unfolding get_job is_existing_vm held_by
run_job-Clear_example =
    run_job-Clear world outside (λ s. refl) message 1 (state_with queued_row)
      (λ p e. subst (λ (q : JobPlan ℕ). is_existing_vm q.target ≡ false) (unplanned p e) refl) refl
      ends

shell_quote-reads_example :
    read_word plain (shell_quote (codes "it's") ++ codes " && make")
    ≡ some (codes "it's", codes " && make")
shell_quote-reads_example = shell_quote-reads (codes "it's") (codes " && make") refl

-- The table after a claim of an image at the time 40, for 1800 seconds.
abbrev claimed_images : List Image
claimed_images =
    (Images.claim (codes "ci-img-1") (codes "hd-1") (codes "w") (codes "r1.build") 1800 40 []).0

claimed-build :
    (Images.claim (codes "ci-img-1") (codes "hd-1") (codes "w") (codes "r1.build") 1800 40 []).1
    ≡ Images.build
unfolding Images.claim
claimed-build = refl

-- Another host builds the image and fails, and the claim is renewed.
abbrev meantime : List (ℕ × Call)
meantime =
    (50, claims (codes "ci-img-1") (codes "hd-3") (codes "w") (codes "r3.build") 1800)
    ∷ (60, marks_failed (codes "ci-img-1") (codes "hd-3") (codes "disk full"))
    ∷ (70, renews (codes "ci-img-1") (codes "hd-1") 1800)
    ∷ []

claim-ne-build_example :
    let table = perform_all meantime claimed_images in
    let answer =
      Images.claim
        (codes "ci-img-1")
        (codes "hd-1")
        (codes "w")
        (codes "r2.build")
        1800
        1840
        table in
    (answer.0 ≡ table) × (answer.1 ≢ Images.build)
claim-ne-build_example =
    claim-ne-build (codes "ci-img-1") (codes "hd-1") (codes "w") (codes "r1.build") (codes "w")
      (codes "r2.build") 1800 40 1800 1840 [] meantime refl claimed-build refl (omega arith)

-- The tables in which the run of the job has been cancelled.
abbrev shut_tables : Tables ℕ
shut_tables = record (state_with queued_row).tables {
  db = record { runs = []; jobs = record queued_row { status = JobStatus.cancelled } ∷ [] };
}

-- The cancel comes when the dispatcher has read the row.
abbrev cancelled_after : List Action → Tables ℕ → Tables ℕ
cancelled_after [] t = t
cancelled_after (a ∷ rest) t = shut_tables

abbrev racing : Outside ℕ ℕ
racing = record outside { others = λ s. cancelled_after s.done s.tables }

raced : (t : State ℕ) → t.done ≡ statement ∷ [] → IsShut world racing message t
raced t e = rw e refl

run_job-stops_example :
    let ended = (run_job world racing message 1 (state_with queued_row)).1.done in
    (ended ≡ []) ⊎ ((ended ≡ statement ∷ []) ⊎ (ended ≡ statement ∷ statement ∷ []))
run_job-stops_example = run_job-stops world racing message 1 (state_with queued_row) raced
