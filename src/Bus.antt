-- ===== src/Bus.antt =====
-- The queue's names: routes, messages, subjects, durable consumers and the redelivery ladder of
-- src/bus.rs. The broker itself is outside: whether it takes a message is a parameter of the
-- scheduler.
pub mod Names
use ci.Common.{
  ℕ, zero, suc, ◌+◌, ◌≡◌, refl, Bool, true, false, not, ◌&&◌, ◌||◌, List, [], ◌∷◌, ◌++◌, Option,
  none, some, Text, codes, text_eq, is_alnum, is_empty, length, leb, all, ◌==◌, if◌then◌else◌,
  Result, Checked, ok, err, ◌>>=◌, ◌>>◌, require,
}

pub data Route : Type 0 where
  to_runner : Text → Route
  to_network : Text → Route

pub record JobMessage : Type 0 where
  pub run_id : Text
  pub job_id : Text
  pub job_key : Text

-- `BusError`, as far as the pure part raises it, and a refusal by the broker.
pub data BusError : Type 0 where
  bad_token : Text → BusError
  refused : Text → BusError

abbrev token_char : ℕ → Bool
token_char c = is_alnum c || c == b'_' || c == b'-'

-- `is_subject_token` of src/config.rs.
unfoldable pub is_subject_token : Text → Bool
is_subject_token s = not (is_empty s) && all token_char s

unfoldable pub check_token : Text → Checked BusError
unfolding is_subject_token
check_token s = require (is_subject_token s) (bad_token s)

unfoldable pub subject_for : Text → Route → Result BusError Text
unfolding check_token
subject_for prefix (to_runner id) = check_token id >> ok (prefix ++ (codes ".job.r." ++ id))
subject_for prefix (to_network id) = check_token id >> ok (prefix ++ (codes ".job.n." ++ id))

unfoldable pub durable_for : Text → Route → Result BusError Text
unfolding check_token
durable_for prefix (to_runner id) = check_token id >> ok (prefix ++ (codes "-r-" ++ id))
durable_for prefix (to_network id) = check_token id >> ok (prefix ++ (codes "-n-" ++ id))

-- `publish_job`: the subject, then the broker, which takes the message or refuses it.
unfoldable pub publish_job :
    (Text → JobMessage → Bool) → Text → Route → JobMessage → Checked BusError
unfolding subject_for
publish_job broker prefix route msg =
    subject_for prefix route >>= λ subject. require (broker subject msg) (refused subject)

-- `ACK_WAIT` and `backoff_for`, in seconds.
abbrev pub ack_wait : ℕ
ack_wait = 60

unfoldable pub backoff_for : ℕ → ℕ
backoff_for zero = ack_wait
backoff_for (suc zero) = ack_wait
backoff_for (suc (suc zero)) = 300
backoff_for (suc (suc (suc n))) = 900
