-- ===== src/Tables.antt =====
-- migrations/versions/0001_initial.py: the tables that the repositories write, and their constraints.
-- A table is the list of its rows in no particular order. `now()` is the time a transaction began,
-- an argument of each operation. Foreign keys are not checked: no operation deletes a job.
pub mod Tx
pub mod Find
use notify_queue.Prelude.{
  ℕ, String, Bool, Option, some, none, List, ◌==◌, if◌then◌else◌, [], ◌∷◌, map, ◌≡◌,
}
use notify_queue.Domain.{Channel, Job, Outcome, WebhookEvent}

-- The values that `gen_random_uuid()` and `uuid4()` yield, by which draw it is; the draw of a claim
-- token is made once for each row, so it depends on the row's id as well.
pub record Uuids : Type 0 where
  pub job_id : ℕ → ℕ
  pub token : ℕ → ℕ → ℕ
  pub event_id : ℕ → ℕ

-- No random uuid comes up twice.
pub record IsFresh (u : Uuids) : Type 0 where
  pub job_id_once : (m n : ℕ) → u.job_id m ≡ u.job_id n → m ≡ n
  pub token_once : (m i n j : ℕ) → u.token m i ≡ u.token n j → (m ≡ n) × (i ≡ j)
  pub event_id_once : (m n : ℕ) → u.event_id m ≡ u.event_id n → m ≡ n

pub record Delivery : Type 0 where
  pub job_id : ℕ
  pub worker_id : String
  pub provider_message_id : Option String
  pub delivered_at : ℕ

pub record DeadLetter : Type 0 where
  pub job_id : ℕ
  pub reason : String
  pub attempts : ℕ
  pub last_error : Option String
  pub dead_lettered_at : ℕ

-- A row of `job_attempts`, without its serial number.
pub record AttemptRow : Type 0 where
  pub job_id : ℕ
  pub attempt_no : ℕ
  pub worker_id : Option String
  pub outcome : Outcome
  pub error : Option String
  pub started_at : Option ℕ
  pub finished_at : ℕ

pub record Bucket : Type 0 where
  pub recipient : String
  pub window_start : ℕ
  pub count : ℕ

-- The `data` of a webhook event, one constructor for each shape that the repository writes.
pub data EventData : Type 0 where
  sent : (recipient : String) (channel : Channel) (attempts sent_at : ℕ) → EventData
  retrying :
      (next_attempt_at : ℕ) (recipient : String) (channel : Channel) (attempts max_attempts : ℕ)
      (error : String)
      → EventData
  dead_lettered :
      (reason recipient : String) (channel : Channel) (attempts max_attempts : ℕ) (error : String)
      → EventData

pub record EventPayload : Type 0 where
  pub event_id : ℕ
  pub job_id : ℕ
  pub event : WebhookEvent
  pub content : EventData

pub data OutboxStatus : Type 0 where
  pending delivered failed : OutboxStatus

pub record OutboxRow : Type 0 where
  pub id : ℕ
  pub job_id : ℕ
  pub event : WebhookEvent
  pub payload : EventPayload
  pub target_url : String
  pub status : OutboxStatus
  pub attempts : ℕ
  pub next_attempt_at : ℕ
  pub last_error : Option String
  pub created_at : ℕ
  pub delivered_at : Option ℕ

-- The database. `draws` counts the uuids drawn so far.
pub record Db : Type 0 where
  pub jobs : List Job
  pub deliveries : List Delivery
  pub dead_letters : List DeadLetter
  pub job_attempts : List AttemptRow
  pub rate_limit_buckets : List Bucket
  pub webhook_outbox : List OutboxRow
  pub draws : ℕ

abbrev pub empty_db : Db
empty_db = record {
  jobs = [];
  deliveries = [];
  dead_letters = [];
  job_attempts = [];
  rate_limit_buckets = [];
  webhook_outbox = [];
  draws = 0;
}

-- The row with a primary key.
abbrev pub find : ℕ → List Job → Option Job
find i [] = none
find i (j ∷ rest) = let later = find i rest in if j.id == i then some j else later

abbrev pub ids : List Job → List ℕ
ids = map (λ j. j.id)
