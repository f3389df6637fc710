-- ===== src/Domain/Schemas.antt =====
-- src/notify_queue/domain/schemas.py: what the API takes and answers. Parsing JSON, and the types of the
-- fields, are pydantic's.
use notify_queue.Prelude.{
  ℕ, suc, ◌*◌, String, Bool, true, false, not, ◌&&◌, Option, none, some, List, leb,
}
use notify_queue.Domain.{Job, JobStatus, Channel, Priority, JobAttempt, Outcome, is_retrying}
use notify_queue.Domain.Json.{Fields}

-- In microseconds.
abbrev pub max_delay_seconds : ℕ
max_delay_seconds = 365 * 24 * 3600 * 1000000

pub record ScheduleJobRequest : Type 0 where
  pub recipient : String
  pub channel : Channel
  pub payload : Fields
  pub priority : Priority
  pub send_at : Option ℕ
  pub delay_seconds : Option ℕ
  pub max_attempts : Option ℕ
  pub callback_url : Option String
  pub idempotency_key : Option String

-- The number of characters of a text.
abbrev pub text_length : String → ℕ
text_length String.[] = 0
text_length (String.◌∷◌ c s) = suc (text_length s)

-- `Field(ge=lo, le=hi)`, which holds of None.
abbrev pub within : (lo hi : ℕ) → Option ℕ → Bool
within lo hi none = true
within lo hi (some n) = leb lo n && leb n hi

abbrev pub is_some {ℓ} : {A : Type ℓ} → Option A → Bool
is_some none = false
is_some (some a) = true

-- The constraints of the fields, and the validator `_one_schedule_mode`: false is a ValidationError.
unfoldable pub is_acceptable : ScheduleJobRequest → Bool
is_acceptable r =
    leb 1 (text_length r.recipient)
    && leb (text_length r.recipient) 320
    && within 0 max_delay_seconds r.delay_seconds
    && within 1 20 r.max_attempts
    && elim r.idempotency_key [
      | none ↦ true
      | some k ↦ leb 1 (text_length k) && leb (text_length k) 255
    ]
    && not (is_some r.send_at && is_some r.delay_seconds)

pub record JobAttemptOut : Type 0 where
  pub attempt_no : ℕ
  pub worker_id : Option String
  pub outcome : Outcome
  pub error : Option String
  pub started_at : Option ℕ
  pub finished_at : ℕ

-- `JobAttemptOut.from_domain`
abbrev pub from_attempt : JobAttempt → JobAttemptOut
from_attempt a = record {
  attempt_no = a.attempt_no;
  worker_id = a.worker_id;
  outcome = a.outcome;
  error = a.error;
  started_at = a.started_at;
  finished_at = a.finished_at;
}

pub record JobOut : Type 0 where
  pub id : ℕ
  pub idempotency_key : Option String
  pub recipient : String
  pub channel : Channel
  pub payload : Fields
  pub priority : Priority
  pub status : JobStatus
  pub retrying : Bool
  pub run_at : ℕ
  pub attempts : ℕ
  pub max_attempts : ℕ
  pub last_error : Option String
  pub callback_url : Option String
  pub version : ℕ
  pub created_at : ℕ
  pub updated_at : ℕ
  pub sent_at : Option ℕ
  pub attempt_history : Option (List JobAttemptOut)

-- `JobOut.from_domain`
abbrev pub from_domain : Job → JobOut
from_domain job = record {
  id = job.id;
  idempotency_key = job.idempotency_key;
  recipient = job.recipient;
  channel = job.channel;
  payload = job.payload;
  priority = job.priority;
  status = job.status;
  retrying = is_retrying job;
  run_at = job.run_at;
  attempts = job.attempts;
  max_attempts = job.max_attempts;
  last_error = job.last_error;
  callback_url = job.callback_url;
  version = job.version;
  created_at = job.created_at;
  updated_at = job.updated_at;
  sent_at = job.sent_at;
  attempt_history = none;
}
