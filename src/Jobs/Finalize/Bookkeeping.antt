-- ===== src/Jobs/Finalize/Bookkeeping.antt =====
-- What the finalizing writes and the reaper share: `_transition`, `_record_attempt`, `enqueue_webhook` and
-- `_after_failure`.
use notify_queue.Prelude.{
  ℕ, ◌+◌, String, Bool, true, false, not, ◌&&◌, Option, none, some, [], ◌∷◌, ◌++◌, map, ◌==◌,
  str_eq, if◌then◌else◌, first, select, update_where, exists_where,
}
use notify_queue.Domain.{Job, JobStatus, WebhookEvent, Outcome, is_dead}
use notify_queue.Tables.{Uuids, DeadLetter, AttemptRow, OutboxRow, OutboxStatus, EventData}
use notify_queue.Tables.Tx.{Tx, ◌>>=◌, ◌>>◌, pure, read, write, check, unique_violation}

pub record Transition : Type 0 where
  pub job_id : ℕ
  pub version : ℕ
  pub status : JobStatus

abbrev pub transition : Job → Transition
transition row = record { job_id = row.id; version = row.version; status = row.status }

-- `row["callback_url"] or default_callback_url`: None and the empty text give the default.
abbrev pub or_default : Option String → String → String
or_default none default = default
or_default (some url) default = if str_eq url "" then default else url

-- `UPDATE jobs SET set WHERE hit RETURNING ...`, its first row.
unfoldable pub update_jobs : (Job → Bool) → (Job → Job) → Tx (Option Job)
update_jobs hit set = do
  rows ← read (λ db. map set (select hit db.jobs))
  write λ db. record db { jobs = update_where hit set db.jobs }
  pure (first rows)

-- The row that `_record_attempt` adds to the history.
abbrev pub attempt_row :
    ℕ
    → (job_id attempt_no : ℕ) (worker_id : Option String) (outcome : Outcome)
      (error : Option String) (started_at : Option ℕ)
    → AttemptRow
attempt_row now job_id attempt_no worker_id outcome error started_at = record {
  job_id = job_id;
  attempt_no = attempt_no;
  worker_id = worker_id;
  outcome = outcome;
  error = error;
  started_at = started_at;
  finished_at = now;
}

-- UNIQUE (job_id, attempt_no) is checked.
unfoldable pub record_attempt :
    ℕ
    → (job_id attempt_no : ℕ) (worker_id : Option String) (outcome : Outcome)
      (error : Option String) (started_at : Option ℕ)
    → Tx (Unit {0})
record_attempt now job_id attempt_no worker_id outcome error started_at = do
  check unique_violation (λ db.
      not
        (exists_where (λ a. (a.job_id == job_id) && (a.attempt_no == attempt_no)) db.job_attempts))
  write λ db. record db {
    job_attempts =
        db.job_attempts
        ++ attempt_row now job_id attempt_no worker_id outcome error started_at ∷ [];
  }

-- The row that `enqueue_webhook` adds to the outbox.
abbrev pub event_row : ℕ → (event_id job_id : ℕ) → WebhookEvent → String → EventData → OutboxRow
event_row now event_id job_id event target_url content = record {
  id = event_id;
  job_id = job_id;
  event = event;
  payload = record { event_id = event_id; job_id = job_id; event = event; content = content };
  target_url = target_url;
  status = OutboxStatus.pending;
  attempts = 0;
  next_attempt_at = now;
  last_error = none;
  created_at = now;
  delivered_at = none;
}

-- The primary key of the outbox is checked.
unfoldable pub enqueue_webhook :
    Uuids
    → ℕ
    → (job_id : ℕ) (event : WebhookEvent) (target_url : String) (content : EventData) → Tx ℕ
enqueue_webhook u now job_id event target_url content = do
  event_id ← read (λ db. u.event_id db.draws)
  check unique_violation (λ db. not (exists_where (λ r. r.id == event_id) db.webhook_outbox))
  write λ db. record db {
    webhook_outbox =
        db.webhook_outbox ++ event_row now event_id job_id event target_url content ∷ [];
    draws = db.draws + 1;
  }
  pure event_id

abbrev pub letter_row : ℕ → ℕ → String → ℕ → String → DeadLetter
letter_row now job_id reason attempts error = record {
  job_id = job_id;
  reason = reason;
  attempts = attempts;
  last_error = some error;
  dead_lettered_at = now;
}

-- `INSERT INTO dead_letters`, whose primary key is the job.
unfoldable pub insert_dead_letter : ℕ → (job_id : ℕ) → String → ℕ → String → Tx (Unit {0})
insert_dead_letter now job_id reason attempts error = do
  check unique_violation (λ db. not (exists_where (λ d. d.job_id == job_id) db.dead_letters))
  write λ db. record db {
    dead_letters = db.dead_letters ++ letter_row now job_id reason attempts error ∷ [];
  }

-- `_after_failure`.
unfoldable pub after_failure :
    Uuids → ℕ → Job → (error reason default_callback_url : String) → Tx (Unit {0})
unfolding insert_dead_letter enqueue_webhook
after_failure u now row error reason default_callback_url =
    let target_url = or_default row.callback_url default_callback_url in
    let lettered : EventData =
      EventData.dead_lettered reason row.recipient row.channel row.attempts row.max_attempts
        error in
    let retrying : EventData =
      EventData.retrying row.run_at row.recipient row.channel row.attempts row.max_attempts error in
    elim (is_dead row.status) [
      | true ↦ do
        insert_dead_letter now row.id reason row.attempts error
        _ ← enqueue_webhook u now row.id WebhookEvent.dead_lettered target_url lettered
        pure tt
      | false ↦ do _ ← enqueue_webhook u now row.id WebhookEvent.failed target_url retrying; pure tt
    ]
