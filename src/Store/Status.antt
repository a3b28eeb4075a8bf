-- ===== src/Store/Status.antt =====
-- `RunStatus`, `JobStatus` and `worse_of` of src/store.rs.
use ci.Common.{ℕ, Bool, true, false, Text, codes, text_eq, ltb, if◌then◌else◌}

pub data RunStatus : Type 0 where
  queued running success failure cancelled : RunStatus

pub data JobStatus : Type 0 where
  pending queued running success failure skipped cancelled : JobStatus

-- `as_str`.
unfoldable pub run_status_text : RunStatus → Text
run_status_text RunStatus.queued = codes "queued"
run_status_text RunStatus.running = codes "running"
run_status_text RunStatus.success = codes "success"
run_status_text RunStatus.failure = codes "failure"
run_status_text RunStatus.cancelled = codes "cancelled"

unfoldable pub job_status_text : JobStatus → Text
job_status_text pending = codes "pending"
job_status_text JobStatus.queued = codes "queued"
job_status_text JobStatus.running = codes "running"
job_status_text JobStatus.success = codes "success"
job_status_text JobStatus.failure = codes "failure"
job_status_text skipped = codes "skipped"
job_status_text JobStatus.cancelled = codes "cancelled"

-- `is_terminal`, which is the `status NOT IN (…)` of the statements, negated.
abbrev pub run_is_terminal : RunStatus → Bool
run_is_terminal RunStatus.queued = false
run_is_terminal RunStatus.running = false
run_is_terminal RunStatus.success = true
run_is_terminal RunStatus.failure = true
run_is_terminal RunStatus.cancelled = true

abbrev pub job_is_terminal : JobStatus → Bool
job_is_terminal pending = false
job_is_terminal JobStatus.queued = false
job_is_terminal JobStatus.running = false
job_is_terminal JobStatus.success = true
job_is_terminal JobStatus.failure = true
job_is_terminal skipped = true
job_is_terminal JobStatus.cancelled = true

-- `rank` inside `worse_of`.
unfoldable pub rank : JobStatus → ℕ
rank JobStatus.success = 0
rank skipped = 1
rank pending = 2
rank JobStatus.queued = 2
rank JobStatus.running = 2
rank JobStatus.cancelled = 3
rank JobStatus.failure = 4

unfoldable pub worse_of : JobStatus → JobStatus → JobStatus
unfolding rank
worse_of a b = if ltb (rank a) (rank b) then b else a

-- A test for one status.
abbrev pub is_status : JobStatus → JobStatus → Bool
is_status a b = text_eq (job_status_text a) (job_status_text b)
