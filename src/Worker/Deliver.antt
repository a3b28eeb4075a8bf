-- ===== src/Worker/Deliver.antt =====
-- What `consume` of src/dispatch.rs does with a message of a job's queue: it runs the job within the
-- time limit and answers the broker. The pass of the scheduler that follows is `advance_run`.
use ci.Common.{
  ℕ, false, List, [], ◌++◌, Option, none, some, Text, codes, decimal, leb, if◌then◌else◌,
}
use mathlib.Core.Option
use ci.Expr.Values.{World}
use ci.Bus.{Route, JobMessage, backoff_for}
use ci.Store.Status.{JobStatus}
use ci.Store.Tables.{set_job_status, note_job_error}
use ci.Worker.Errors.{JobError, job_timeout}
use ci.Worker.Machine.{State, Outside, Outcome, done, failed, cut_off, Act, pure, ignore, ◌>>◌}
use ci.Worker.Calls.{in_db, on_db, publish_event}
use ci.Worker.Job.{run_job}
use ci.Dispatch.Advance.{Env, advance_run}

-- The answer to the broker; a refused message comes again after the delay, in seconds.
pub data Answer : Type 0 where
  acked : Answer
  naked : ℕ → Answer

-- `MAX_DELIVER` of src/bus.rs.
abbrev pub max_deliver : ℕ
max_deliver = 4

abbrev pub giving_up : ℕ → Text → Text
giving_up attempt_no e =
    codes "giving up after " ++ (decimal attempt_no ++ (codes " attempts: " ++ e))

abbrev retrying : ℕ → Text → Text
retrying attempt_no e =
    codes "attempt "
    ++ (decimal attempt_no
        ++ (codes " of "
            ++ (decimal max_deliver
                ++ (codes " failed: "
                    ++ (e
                        ++ (codes ". Retrying in "
                            ++ (decimal (backoff_for attempt_no) ++ codes "s.")))))))

module _ {N F64 : Type 0} (env : Outside N F64) where
  -- The error path. It is not under the time limit of the job.
  unfoldable pub on_error : JobMessage → ℕ → JobError F64 → Act N F64 Answer
  on_error msg attempt_no e =
      if leb max_deliver attempt_no
      then ignore (
          in_db env (λ s.
            set_job_status msg.job_id JobStatus.failure
              (some (giving_up attempt_no (env.to_string e))) (env.now s)))
        >> pure acked
      else ignore
          (on_db env (λ s. note_job_error msg.job_id (retrying attempt_no (env.to_string e))))
        >> (publish_event env msg.job_key (codes "running")
            >> pure (naked (backoff_for attempt_no)))

  -- The world outside once the limit of a job is no longer over it.
  abbrev pub unlimited : Outside N F64
  unlimited = record env { expired = λ s. false }

module _ (w : World) (env : Outside (w.numerics.Number) (w.numerics.F64)) where
  open w use {Number, F64}

  -- The limit cuts `run_job` off wherever it waits; what it has done so far stays done.
  unfoldable pub answer :
      JobMessage → ℕ → Outcome F64 JobStatus × State Number → Outcome F64 Answer × State Number
  unfolding on_error
  answer msg attempt_no (done status, s) = (done acked, s)
  answer msg attempt_no (failed e, s) = on_error (unlimited env) msg attempt_no e s
  answer msg attempt_no (cut_off, s) =
      on_error (unlimited env) msg attempt_no (job_timeout msg.job_key) s

  -- A message as it was decoded, and how often it has been delivered, which the broker may leave
  -- out.
  unfoldable pub deliver : Option JobMessage → Option ℕ → Act Number F64 Answer
  unfolding answer run_job
  deliver none delivered s = (done acked, s)
  deliver (some msg) delivered s =
      let attempt_no = Option.get_or delivered 1 in
      answer msg attempt_no (run_job w env msg attempt_no s)

  -- The pass of the scheduler that ends the turn; a message that does not decode has none. The
  -- broker is given as the scheduler has it.
  unfoldable pub consume_one :
      Env F64
      → Option JobMessage
      → Option ℕ
      → State Number
      → Outcome F64 Answer × State Number × List (Route × JobMessage)
  unfolding deliver advance_run
  consume_one scheduler none delivered s = (done acked, s, [])
  consume_one scheduler (some msg) delivered s =
      let ended = deliver (some msg) delivered s in
      let advanced =
        advance_run w scheduler msg.run_id
          (record { db = ended.1.tables.db; queue = []; events = [] }) in
      (
        ended.0,
        record ended.1 { tables = record ended.1.tables { db = advanced.0.db } },
        advanced.0.queue,
      )
