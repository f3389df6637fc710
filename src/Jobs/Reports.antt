-- ===== src/Jobs/Reports.antt =====
-- `job_counts` and `list_dead_letters`, which only read.
use notify_queue.Prelude.{
  ℕ, String, Bool, true, false, not, ◌&&◌, Option, none, some, List, [], ◌∷◌, leb, ltb, count_where,
  take, drop, sort_by,
}
use notify_queue.Domain.{
  Job, Channel, Priority, Outcome, is_pending, is_processing, is_sent, is_dead,
}
use notify_queue.Domain.Json.{Fields}
use notify_queue.Tables.{DeadLetter, OutboxStatus, find}
use notify_queue.Tables.Tx.{Tx, read}

pub record Counts : Type 0 where
  pub pending : ℕ
  pub pending_due : ℕ
  pub scheduled : ℕ
  pub retrying : ℕ
  pub processing : ℕ
  pub sent : ℕ
  pub dead_lettered : ℕ
  pub failed_attempts : ℕ
  pub webhooks_pending : ℕ

abbrev pub is_null : Option String → Bool
is_null none = true
is_null (some s) = false

-- `outcome <> 'sent'`
abbrev pub is_failure : Outcome → Bool
is_failure Outcome.sent = false
is_failure Outcome.failed = true
is_failure Outcome.lease_expired = true

abbrev pub is_waiting : OutboxStatus → Bool
is_waiting OutboxStatus.pending = true
is_waiting OutboxStatus.delivered = false
is_waiting OutboxStatus.failed = false

-- The FILTER conditions of the columns.
abbrev pub is_pending_due : ℕ → Job → Bool
is_pending_due now job = is_pending job.status && leb job.run_at now

abbrev pub is_scheduled : ℕ → Job → Bool
is_scheduled now job = is_pending job.status && ltb now job.run_at && is_null job.last_error

abbrev pub has_failed_before : Job → Bool
has_failed_before job = is_pending job.status && not (is_null job.last_error)

unfoldable pub job_counts : ℕ → Tx Counts
job_counts now = read λ db. record {
  pending = count_where (λ j. is_pending j.status) db.jobs;
  pending_due = count_where (is_pending_due now) db.jobs;
  scheduled = count_where (is_scheduled now) db.jobs;
  retrying = count_where has_failed_before db.jobs;
  processing = count_where (λ j. is_processing j.status) db.jobs;
  sent = count_where (λ j. is_sent j.status) db.jobs;
  dead_lettered = count_where (λ j. is_dead j.status) db.jobs;
  failed_attempts = count_where (λ a. is_failure a.outcome) db.job_attempts;
  webhooks_pending = count_where (λ r. is_waiting r.status) db.webhook_outbox;
}

pub record DeadLetterListing : Type 0 where
  pub job_id : ℕ
  pub reason : String
  pub attempts : ℕ
  pub last_error : Option String
  pub dead_lettered_at : ℕ
  pub recipient : String
  pub channel : Channel
  pub priority : Priority
  pub payload : Fields

-- `dead_letters d JOIN jobs j ON j.id = d.job_id`: a letter without its job is left out.
abbrev pub join_job : List Job → DeadLetter → List DeadLetterListing
join_job jobs d = elim (find d.job_id jobs) [
  | none ↦ []
  | some j ↦
      (record {
        job_id = d.job_id;
        reason = d.reason;
        attempts = d.attempts;
        last_error = d.last_error;
        dead_lettered_at = d.dead_lettered_at;
        recipient = j.recipient;
        channel = j.channel;
        priority = j.priority;
        payload = j.payload;
      })
      ∷ []
]

unfoldable pub join_jobs : List Job → List DeadLetter → List DeadLetterListing
join_jobs jobs [] = []
join_jobs jobs (d ∷ ds) =
    let rest = join_jobs jobs ds in elim (join_job jobs d) [ [] ↦ rest | row ∷ _ ↦ row ∷ rest ]

-- `ORDER BY d.dead_lettered_at DESC`
abbrev pub later : DeadLetterListing → DeadLetterListing → Bool
later a b = leb b.dead_lettered_at a.dead_lettered_at

unfoldable pub list_dead_letters : (limit offset : ℕ) → Tx (List DeadLetterListing)
list_dead_letters limit offset =
    read λ db. take limit (drop offset (sort_by later (join_jobs db.jobs db.dead_letters)))
