-- ===== src/Jobs/Claim.antt =====
-- `claim_due_jobs`.
use notify_queue.Prelude.{
  ℕ, ◌+◌, String, Bool, not, ◌&&◌, some, List, map, leb, ltb, ◌==◌, select, update_where, take,
  elem, sort_by, ◌||◌,
}
use notify_queue.Domain.{Job, JobStatus, is_pending, to_int}
use notify_queue.Tables.{Uuids, ids}
use notify_queue.Tables.Tx.{Tx, ◌>>=◌, ◌>>◌, pure, read, write}

-- `ORDER BY priority DESC, run_at ASC`, also the key `(-job.priority, job.run_at)` of the sort.
abbrev pub before : Job → Job → Bool
before a b =
    ltb (to_int b.priority) (to_int a.priority)
    || ((to_int a.priority == to_int b.priority) && leb a.run_at b.run_at)

-- `WHERE status = 'pending' AND run_at <= now()`, less the rows that other transactions hold locked
-- (SKIP LOCKED).
abbrev pub is_due : (ℕ → Bool) → ℕ → Job → Bool
is_due locked now job = is_pending job.status && leb job.run_at now && not (locked job.id)

-- The CTE `due`, in the table as it is.
unfoldable pub due : (ℕ → Bool) → ℕ → ℕ → List Job → List Job
due locked now batch_size jobs = take batch_size (sort_by before (select (is_due locked now) jobs))

-- The SET clause.
abbrev pub claimed : Uuids → ℕ → String → ℕ → ℕ → Job → Job
claimed u now worker_id lease_seconds draw job = record job {
  status = JobStatus.processing;
  claim_token = some (u.token draw job.id);
  locked_by = some worker_id;
  claimed_at = some now;
  lease_expires_at = some (now + lease_seconds);
  attempts = job.attempts + 1;
  version = job.version + 1;
  updated_at = now;
}

-- The rows that the UPDATE joins with `due`.
abbrev pub in_due : (ℕ → Bool) → ℕ → ℕ → List Job → Job → Bool
in_due locked now batch_size jobs job = elem job.id (ids (due locked now batch_size jobs))

unfoldable pub claim_due_jobs :
    Uuids → (ℕ → Bool) → ℕ → (worker_id : String) (batch_size lease_seconds : ℕ) → Tx (List Job)
claim_due_jobs u locked now worker_id batch_size lease_seconds = do
  before_update ← read (λ db. db)
  let hit = in_due locked now batch_size before_update.jobs
  let set = claimed u now worker_id lease_seconds before_update.draws
  write λ db. record db { jobs = update_where hit set db.jobs; draws = db.draws + 1 }
  pure (sort_by before (map set (select hit before_update.jobs)))
