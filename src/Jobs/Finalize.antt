-- ===== src/Jobs/Finalize.antt =====
-- `mark_sent`, `mark_failed` and `return_to_queue`.
mod Bookkeeping
unfoldable pub use Bookkeeping.*
use notify_queue.Prelude.{
  ℕ, ◌+◌, ◌-◌, String, Bool, true, false, not, ◌&&◌, ◌||◌, Option, none, some, [], ◌∷◌, ◌++◌, map,
  leb, ◌==◌, str_eq, if◌then◌else◌, first, select, update_where, exists_where,
}
use notify_queue.Domain.{Job, JobStatus, WebhookEvent, Outcome, is_processing, is_dead}
use notify_queue.Tables.{
  Uuids, Delivery, DeadLetter, AttemptRow, OutboxRow, OutboxStatus, EventData,
}
use notify_queue.Tables.Tx.{Tx, ◌>>=◌, ◌>>◌, pure, read, write, check, unique_violation}

-- `WHERE id = :job_id AND claim_token = :claim_token AND status = 'processing'`
abbrev pub is_held : ℕ → ℕ → Job → Bool
is_held job_id claim_token job =
    (job.id == job_id)
    && elim job.claim_token [ none ↦ false | some t ↦ t == claim_token ]
    && is_processing job.status

abbrev pub delivery_row : ℕ → ℕ → String → Option String → Delivery
delivery_row now job_id worker_id provider_message_id = record {
  job_id = job_id;
  worker_id = worker_id;
  provider_message_id = provider_message_id;
  delivered_at = now;
}

-- `INSERT INTO deliveries`, whose primary key is the job.
unfoldable pub insert_delivery : ℕ → (job_id : ℕ) → String → Option String → Tx (Unit {0})
insert_delivery now job_id worker_id provider_message_id = do
  check unique_violation (λ db. not (exists_where (λ d. d.job_id == job_id) db.deliveries))
  write λ db. record db {
    deliveries = db.deliveries ++ delivery_row now job_id worker_id provider_message_id ∷ [];
  }

-- The SET clause of `_MARK_SENT`.
abbrev pub set_sent : ℕ → Job → Job
set_sent now job = record job {
  status = JobStatus.sent;
  sent_at = some now;
  last_error = none;
  claim_token = none;
  locked_by = none;
  lease_expires_at = none;
  version = job.version + 1;
  updated_at = now;
}

-- What `mark_sent` does with the row that its UPDATE returned.
unfoldable pub after_sent :
    Uuids
    → ℕ
    → (job_id : ℕ) (worker_id : String) (provider_message_id : Option String)
      (default_callback_url : String)
    → Option Job
    → Tx (Option Transition)
unfolding insert_delivery record_attempt enqueue_webhook
after_sent u now job_id worker_id provider_message_id default_callback_url none = pure none
after_sent u now job_id worker_id provider_message_id default_callback_url (some row) = do
  insert_delivery now job_id worker_id provider_message_id
  record_attempt now job_id row.attempts (some worker_id) Outcome.sent none row.claimed_at
  _ ←
      enqueue_webhook u now job_id WebhookEvent.sent
        (or_default row.callback_url default_callback_url)
        (EventData.sent row.recipient row.channel row.attempts now)
  pure (some (transition row))

unfoldable pub mark_sent :
    Uuids
    → ℕ
    → (job_id claim_token : ℕ) (worker_id : String) (provider_message_id : Option String)
      (default_callback_url : String)
    → Tx (Option Transition)
mark_sent u now job_id claim_token worker_id provider_message_id default_callback_url = do
  row ← update_jobs (is_held job_id claim_token) (set_sent now)
  after_sent u now job_id worker_id provider_message_id default_callback_url row

-- The SET clause of `_MARK_FAILED`.
abbrev pub set_failed : ℕ → (error : String) (retry_delay : ℕ) (permanent : Bool) → Job → Job
set_failed now error retry_delay permanent job =
    let over = permanent || leb job.max_attempts job.attempts in
    record job {
      status = if over then JobStatus.dead_lettered else JobStatus.pending;
      run_at = if over then job.run_at else now + retry_delay;
      last_error = some error;
      claim_token = none;
      locked_by = none;
      lease_expires_at = none;
      version = job.version + 1;
      updated_at = now;
    }

-- What `mark_failed` does with the row that its UPDATE returned.
unfoldable pub after_failed :
    Uuids
    → ℕ
    → (job_id : ℕ) (worker_id error : String) (permanent : Bool) (default_callback_url : String)
    → Option Job
    → Tx (Option Transition)
unfolding record_attempt after_failure
after_failed u now job_id worker_id error permanent default_callback_url none = pure none
after_failed u now job_id worker_id error permanent default_callback_url (some row) = do
  record_attempt now job_id row.attempts (some worker_id) Outcome.failed (some error) row.claimed_at
  after_failure u now row error (if permanent then "permanent error" else "max attempts exceeded")
      default_callback_url
  pure (some (transition row))

unfoldable pub mark_failed :
    Uuids
    → ℕ
    → (job_id claim_token : ℕ) (worker_id error : String) (retry_delay : ℕ) (permanent : Bool)
      (default_callback_url : String)
    → Tx (Option Transition)
mark_failed u now job_id claim_token worker_id error retry_delay permanent default_callback_url = do
  row ← update_jobs (is_held job_id claim_token) (set_failed now error retry_delay permanent)
  after_failed u now job_id worker_id error permanent default_callback_url row

-- The SET clause of `return_to_queue`.
abbrev pub set_returned : ℕ → (delay_seconds : ℕ) → Job → Job
set_returned now delay_seconds job = record job {
  status = JobStatus.pending;
  run_at = now + delay_seconds;
  attempts = job.attempts - 1;
  claim_token = none;
  locked_by = none;
  claimed_at = none;
  lease_expires_at = none;
  version = job.version + 1;
  updated_at = now;
}

abbrev pub to_transition : Option Job → Option Transition
to_transition none = none
to_transition (some row) = some (transition row)

unfoldable pub return_to_queue : ℕ → (job_id claim_token delay_seconds : ℕ) → Tx (Option Transition)
return_to_queue now job_id claim_token delay_seconds = do
  row ← update_jobs (is_held job_id claim_token) (set_returned now delay_seconds)
  pure (to_transition row)
