-- ===== src/Jobs/Reap.antt =====
-- `reap_expired_leases`, and `requeue_dead_letter`.
use notify_queue.Prelude.{
  ℕ, ◌+◌, String, Bool, true, false, not, ◌&&◌, Option, none, some, List, [], ◌∷◌, map, leb, ltb,
  ◌==◌, if◌then◌else◌, select, update_where, take, elem, sort_by,
}
use notify_queue.Domain.{Job, JobStatus, Outcome, is_processing, is_dead}
use notify_queue.Tables.{Uuids, ids}
use notify_queue.Tables.Tx.{Tx, ◌>>=◌, ◌>>◌, pure, read, write}
use notify_queue.Jobs.Finalize.{Transition, transition, record_attempt, after_failure, update_jobs}

-- `lease_expires_at < now()`, which is not true of a NULL lease.
abbrev pub lease_over : ℕ → Option ℕ → Bool
lease_over now none = false
lease_over now (some lease) = ltb lease now

-- The rows of the CTE `expired`, less those that other transactions hold locked.
abbrev pub is_expired : (ℕ → Bool) → ℕ → Job → Bool
is_expired locked now job =
    is_processing job.status && lease_over now job.lease_expires_at && not (locked job.id)

-- `ORDER BY lease_expires_at` (NULLs last, which do not occur here).
abbrev pub lease_before : Job → Job → Bool
lease_before a b = elim a.lease_expires_at [
  | none ↦ false
  | some m ↦ elim b.lease_expires_at [ none ↦ true | some n ↦ leb m n ]
]

unfoldable pub expired : (ℕ → Bool) → ℕ → ℕ → List Job → List Job
expired locked now limit jobs =
    take limit (sort_by lease_before (select (is_expired locked now) jobs))

abbrev pub lease_expired_error : String
lease_expired_error = "lease expired: worker crashed or exceeded its lease"

-- The SET clause of `_REAP_EXPIRED`.
abbrev pub set_reaped : ℕ → Job → Job
set_reaped now job = record job {
  status = if leb job.max_attempts job.attempts then JobStatus.dead_lettered else JobStatus.pending;
  run_at = now;
  last_error = some lease_expired_error;
  claim_token = none;
  locked_by = none;
  lease_expires_at = none;
  version = job.version + 1;
  updated_at = now;
}

-- A returned row: the job as it is now, with the owner and the claim time that the CTE read.
pub record ReapedRow : Type 0 where
  pub job : Job
  pub locked_by : Option String
  pub claimed_at : Option ℕ

abbrev pub reap_row : ℕ → Job → ReapedRow
reap_row now job = record {
  job = set_reaped now job;
  locked_by = job.locked_by;
  claimed_at = job.claimed_at;
}

-- The body of the loop over the returned rows.
unfoldable pub after_reap : Uuids → ℕ → (default_callback_url : String) → ReapedRow → Tx (Unit {0})
unfolding record_attempt after_failure
after_reap u now default_callback_url row = do
  record_attempt now row.job.id row.job.attempts row.locked_by Outcome.lease_expired
      (some lease_expired_error) row.claimed_at
  after_failure u now row.job lease_expired_error "max attempts exceeded" default_callback_url

unfoldable pub after_reap_all :
    Uuids → ℕ → (default_callback_url : String) → List ReapedRow → Tx (Unit {0})
after_reap_all u now default_callback_url [] = pure tt
after_reap_all u now default_callback_url (row ∷ rows) = do
  after_reap u now default_callback_url row
  after_reap_all u now default_callback_url rows

abbrev pub in_expired : (ℕ → Bool) → ℕ → ℕ → List Job → Job → Bool
in_expired locked now limit jobs job = elem job.id (ids (expired locked now limit jobs))

unfoldable pub reap_expired_leases :
    Uuids → (ℕ → Bool) → ℕ → (limit : ℕ) (default_callback_url : String) → Tx (List Transition)
reap_expired_leases u locked now limit default_callback_url = do
  before_update ← read (λ db. db)
  let hit = in_expired locked now limit before_update.jobs
  let rows = map (reap_row now) (select hit before_update.jobs)
  write λ db. record db { jobs = update_where hit (set_reaped now) db.jobs }
  after_reap_all u now default_callback_url rows
  pure (map (λ row. transition row.job) rows)

-- The SET clause of `requeue_dead_letter`.
abbrev pub set_requeued : ℕ → (extra_attempts : ℕ) → Job → Job
set_requeued now extra_attempts job = record job {
  status = JobStatus.pending;
  run_at = now;
  max_attempts = job.attempts + extra_attempts;
  last_error = none;
  version = job.version + 1;
  updated_at = now;
}

-- `DELETE FROM dead_letters WHERE job_id = :id`, and the transition, if a row was returned.
unfoldable pub after_requeue : ℕ → Option Job → Tx (Option Transition)
after_requeue job_id none = pure none
after_requeue job_id (some row) = do
  write λ db. record db { dead_letters = select (λ d. not (d.job_id == job_id)) db.dead_letters }
  pure (some (transition row))

unfoldable pub requeue_dead_letter : ℕ → (job_id extra_attempts : ℕ) → Tx (Option Transition)
requeue_dead_letter now job_id extra_attempts = do
  row ←
      update_jobs (λ job. (job.id == job_id) && is_dead job.status)
        (set_requeued now extra_attempts)
  after_requeue job_id row
