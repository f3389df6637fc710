-- ===== src/Jobs/Create.antt =====
-- `create_job`, `get_job`, `get_job_by_idempotency_key` and `get_job_attempts`.
use notify_queue.Prelude.{
  ℕ, ◌+◌, String, Bool, true, false, not, Option, none, some, List, [], ◌∷◌, ◌++◌, map, leb, ◌==◌,
  str_eq, first, select, exists_where, sort_by,
}
use notify_queue.Domain.{Job, NewJob, JobStatus, JobAttempt}
use notify_queue.Tables.{Uuids, AttemptRow}
use notify_queue.Tables.Tx.{
  Tx, ◌>>=◌, ◌>>◌, pure, read, write, check, raise, check_violation, unique_violation,
  conflict_without_row,
}

-- `idempotency_key = :key`, which is not true of a NULL key.
abbrev pub has_key : String → Job → Bool
has_key key job = elim job.idempotency_key [ none ↦ false | some k ↦ str_eq k key ]

abbrev pub get_or : Option ℕ → ℕ → ℕ
get_or none d = d
get_or (some n) d = n

-- The row that the INSERT adds: its values, and the defaults of the other columns.
unfoldable pub new_row : Uuids → ℕ → NewJob → ℕ → Job
new_row u now new draw = record {
  id = u.job_id draw;
  idempotency_key = new.idempotency_key;
  request_hash = new.request_hash;
  recipient = new.recipient;
  channel = new.channel;
  payload = new.payload;
  priority = new.priority;
  status = JobStatus.pending;
  run_at = get_or new.send_at (now + get_or new.delay_seconds 0);
  attempts = 0;
  max_attempts = new.max_attempts;
  last_error = none;
  claim_token = none;
  locked_by = none;
  claimed_at = none;
  lease_expires_at = none;
  callback_url = new.callback_url;
  version = 1;
  created_at = now;
  updated_at = now;
  sent_at = none;
}

-- ON CONFLICT (idempotency_key): some row has the key.
unfoldable pub conflicts : Option String → List Job → Bool
conflicts none jobs = false
conflicts (some key) jobs = exists_where (has_key key) jobs

-- `_INSERT_JOB`: the CHECK constraint, then DO NOTHING on a conflict (no row is returned), then the
-- primary key.
unfoldable pub insert_job : Uuids → ℕ → NewJob → Tx (Option Job)
insert_job u now new = do
  check check_violation (λ db. leb 1 new.max_attempts)
  conflict ← read (λ db. conflicts new.idempotency_key db.jobs)
  elim conflict [
    | true ↦ pure none
    | false ↦ do
      job ← read (λ db. new_row u now new db.draws)
      check unique_violation (λ db. not (exists_where (λ j. j.id == job.id) db.jobs))
      write (λ db. record db { jobs = db.jobs ++ job ∷ []; draws = db.draws + 1 })
      pure (some job)
  ]

unfoldable pub get_job : ℕ → Tx (Option Job)
get_job job_id = read (λ db. first (select (λ j. j.id == job_id) db.jobs))

unfoldable pub get_job_by_idempotency_key : Option String → Tx (Option Job)
get_job_by_idempotency_key none = pure none
get_job_by_idempotency_key (some key) = read (λ db. first (select (has_key key) db.jobs))

-- Returns the job and whether it was created.
unfoldable pub create_job : Uuids → ℕ → NewJob → Tx (Job × Bool)
create_job u now new = do
  row ← insert_job u now new
  elim row [
    | some job ↦ pure (job, true)
    | none ↦ do
      existing ← get_job_by_idempotency_key new.idempotency_key
      elim existing [ none ↦ λ db. raise conflict_without_row | some job ↦ pure (job, false) ]
  ]

abbrev pub to_attempt : AttemptRow → JobAttempt
to_attempt row = record {
  attempt_no = row.attempt_no;
  worker_id = row.worker_id;
  outcome = row.outcome;
  error = row.error;
  started_at = row.started_at;
  finished_at = row.finished_at;
}

unfoldable pub get_job_attempts : ℕ → Tx (List JobAttempt)
get_job_attempts job_id = read λ db. map to_attempt (
    sort_by (λ a b. leb a.attempt_no b.attempt_no)
      (select (λ a. a.job_id == job_id) db.job_attempts))
