-- ===== src/Worker/Calls.antt =====
-- The single actions: a statement on the tables, and a request to a daemon or to the broker.
use ci.Common.{List, ◌∷◌, Option, none, some, Text, if◌then◌else◌, ok, err}
use ci.Store.Rows.{Db}
use ci.Store.Steps.{StepRow}
use ci.VmPool.Rows.{Vm}
use ci.Images.{Image}
use ci.Worker.Errors.{VmError, JobError, store, pool, image, vm, sql, runner}
use ci.Worker.Machine.{
  Action, statement, event, evicted, dialled, ensured_running, destroyed, renewed_ttl, opened,
  Tables, State, Outside, Outcome, done, failed, cut_off, Act, lift, ◌>>=◌,
}

-- The state when an action's turn comes: other processes have worked meanwhile.
module _ {N F64 : Type 0} (env : Outside N F64) where
  abbrev pub meanwhile : State N → State N
  meanwhile s = record s { tables = env.others s }

  -- A request, and its answer.
  unfoldable pub ask : {A : Type 0} → Action → (State N → A) → Act N F64 A
  ask {A} action answer s =
      let now = meanwhile s in
      if env.expired now
      then (cut_off, now)
      else (done (answer now), record now { done = action ∷ now.done })

  -- A statement, which the database may refuse.
  unfoldable pub issued :
      {A : Type 0}
      → Action
      → (Text → JobError F64)
      → (State N → Tables N → Tables N × A)
      → State N
      → Option Text
      → Outcome F64 A × State N
  issued action wrong change s (some problem) = (failed (wrong problem), s)
  issued action wrong change s none =
      let (tables, a) = change s s.tables in
      (done a, record s { tables = tables; done = action ∷ s.done })

  unfoldable pub issue :
      {A : Type 0}
      → Action
      → (Text → JobError F64)
      → (State N → Tables N → Tables N × A)
      → Act N F64 A
  issue action wrong change s =
      let now = meanwhile s in
      if env.expired now then (cut_off, now) else issued action wrong change now (env.refuses now)

  abbrev pub on_db : {A : Type 0} → (State N → Db N → Db N × A) → Act N F64 A
  on_db change =
      issue statement store (λ s t. (record t { db = (change s t.db).0 }, (change s t.db).1))

  abbrev pub in_db : (State N → Db N → Db N) → Act N F64 (Unit {0})
  in_db change = issue statement store (λ s t. (record t { db = change s t.db }, tt))

  abbrev pub read_db : {A : Type 0} → (Db N → A) → Act N F64 A
  read_db answer = issue statement store (λ s t. (t, answer t.db))

  abbrev pub on_vms : {A : Type 0} → Action → (State N → List Vm → List Vm × A) → Act N F64 A
  on_vms action change =
      issue action pool (λ s t. (record t { vms = (change s t.vms).0 }, (change s t.vms).1))

  abbrev pub in_vms : Action → (State N → List Vm → List Vm) → Act N F64 (Unit {0})
  in_vms action change = issue action pool (λ s t. (record t { vms = change s t.vms }, tt))

  abbrev pub on_images : {A : Type 0} → (State N → List Image → List Image × A) → Act N F64 A
  on_images change =
      issue statement (λ e. image (sql e))
        (λ s t. (record t { images = (change s t.images).0 }, (change s t.images).1))

  abbrev pub in_images : (State N → List Image → List Image) → Act N F64 (Unit {0})
  in_images change =
      issue statement (λ e. image (sql e)) (λ s t. (record t { images = change s t.images }, tt))

  abbrev pub in_steps : (State N → List StepRow → List StepRow) → Act N F64 (Unit {0})
  in_steps change = issue statement store (λ s t. (record t { steps = change s t.steps }, tt))

  abbrev pub publish_event : Text → Text → Act N F64 (Unit {0})
  publish_event job_key status = ask (event job_key status) (λ s. tt)

  abbrev pub evict : Text → Act N F64 (Unit {0})
  evict runner_id = ask (evicted runner_id) (λ s. tt)

  -- An answer that is an error or nothing.
  abbrev pub lift_vm : Option VmError → Act N F64 (Unit {0})
  lift_vm none = lift (ok tt)
  lift_vm (some e) = lift (err (vm e))

  abbrev pub lift_runner : Option Text → Act N F64 (Unit {0})
  lift_runner none = lift (ok tt)
  lift_runner (some e) = lift (err (runner e))

  abbrev pub options_for : Text → Act N F64 (Unit {0})
  options_for runner_id = ask (dialled runner_id) (λ s. env.options_for s runner_id) >>= lift_runner

  abbrev pub open_vm : Text → Act N F64 (Unit {0})
  open_vm id = ask (opened id) (λ s. env.open_vm s id) >>= lift_vm

  abbrev pub ensure_running : Text → Act N F64 (Unit {0})
  ensure_running id = ask (ensured_running id) (λ s. env.ensure_running s id) >>= lift_vm

  abbrev pub renew_ttl : Text → Act N F64 (Unit {0})
  renew_ttl id = ask (renewed_ttl id) (λ s. env.renew_ttl s id) >>= lift_vm

  abbrev pub destroy : Text → Act N F64 (Unit {0})
  destroy id = ask (destroyed id) (λ s. env.destroy s id) >>= lift_vm
