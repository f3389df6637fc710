-- ===== src/Domain.antt =====
-- src/notify_queue/domain/enums.py and models.py: the enumerations and the rows of the repository.
-- A uuid is a number, a time or an interval a number of microseconds (what Postgres stores).
pub mod Json
pub mod Schemas
pub mod Priorities
pub mod Backoff
use notify_queue.Prelude.{
  ℕ, ◌<◌, String, Bool, true, false, ◌&&◌, ◌||◌, Option, none, some, List, ltb, str_eq, not,
}
use Json.{Fields}

pub data Channel : Type 0 where
  email sms push : Channel

pub data JobStatus : Type 0 where
  pending processing sent dead_lettered : JobStatus

-- `self in (SENT, DEAD_LETTERED)`
abbrev pub is_terminal : JobStatus → Bool
is_terminal JobStatus.pending = false
is_terminal JobStatus.processing = false
is_terminal JobStatus.sent = true
is_terminal JobStatus.dead_lettered = true

abbrev pub is_pending : JobStatus → Bool
is_pending JobStatus.pending = true
is_pending _ = false

abbrev pub is_processing : JobStatus → Bool
is_processing JobStatus.processing = true
is_processing _ = false

abbrev pub is_sent : JobStatus → Bool
is_sent JobStatus.sent = true
is_sent _ = false

abbrev pub is_dead : JobStatus → Bool
is_dead JobStatus.dead_lettered = true
is_dead _ = false

pub data Priority : Type 0 where
  low normal high critical : Priority

-- `int(priority)`
abbrev pub to_int : Priority → ℕ
to_int Priority.low = 0
to_int Priority.normal = 1
to_int Priority.high = 2
to_int Priority.critical = 3

pub data WebhookEvent : Type 0 where
  sent failed dead_lettered : WebhookEvent

pub record NewJob : Type 0 where
  pub recipient : String
  pub channel : Channel
  pub payload : Fields
  pub priority : Priority
  pub max_attempts : ℕ
  pub request_hash : String
  pub idempotency_key : Option String
  pub send_at : Option ℕ
  pub delay_seconds : Option ℕ
  pub callback_url : Option String

pub record Job : Type 0 where
  pub id : ℕ
  pub idempotency_key : Option String
  pub request_hash : String
  pub recipient : String
  pub channel : Channel
  pub payload : Fields
  pub priority : Priority
  pub status : JobStatus
  pub run_at : ℕ
  pub attempts : ℕ
  pub max_attempts : ℕ
  pub last_error : Option String
  pub claim_token : Option ℕ
  pub locked_by : Option String
  pub claimed_at : Option ℕ
  pub lease_expires_at : Option ℕ
  pub callback_url : Option String
  pub version : ℕ
  pub created_at : ℕ
  pub updated_at : ℕ
  pub sent_at : Option ℕ

-- `bool(text)` of a text or None: an empty text is false too.
abbrev pub truthy : Option String → Bool
truthy none = false
truthy (some s) = not (str_eq s "")

pub is_retrying : Job → Bool
is_retrying job = is_pending job.status && ltb 0 job.attempts && truthy job.last_error

pub data Outcome : Type 0 where
  sent failed lease_expired : Outcome

pub record JobAttempt : Type 0 where
  pub attempt_no : ℕ
  pub worker_id : Option String
  pub outcome : Outcome
  pub error : Option String
  pub started_at : Option ℕ
  pub finished_at : ℕ
