-- ===== src/Invariant.antt =====
-- What holds of the tables between two transactions, job by job.
pub mod Counts
pub mod Recording
pub mod Endings
pub mod Update
pub mod Held
pub mod Finalize
pub mod Claim
pub mod Losses
pub mod Reap
pub mod Create
pub mod Requeue
use notify_queue.Prelude.{
  ℕ, ◌+◌, ◌-◌, ◌≤◌, ◌<◌, ◌≡◌, ◌≢◌, Bool, true, false, ◌&&◌, Option, none, some, List, leb, ◌==◌,
  if◌then◌else◌, count_where, exists_where, Distinct, String,
}
use notify_queue.Domain.{Job, is_pending, is_processing, is_sent, is_dead}
use notify_queue.Tables.{Db, Uuids, find, ids}
use notify_queue.Jobs.Create.{has_key}

-- What the satellite tables hold for a job.
abbrev pub delivered : Db → ℕ → ℕ
delivered db i = count_where (λ d. d.job_id == i) db.deliveries

abbrev pub lettered : Db → ℕ → ℕ
lettered db i = count_where (λ d. d.job_id == i) db.dead_letters

abbrev pub tries : Db → ℕ → ℕ
tries db i = count_where (λ a. a.job_id == i) db.job_attempts

abbrev pub events : Db → ℕ → ℕ
events db i = count_where (λ r. r.job_id == i) db.webhook_outbox

abbrev pub tried : Db → ℕ → ℕ → Bool
tried db i n = exists_where (λ a. (a.job_id == i) && (a.attempt_no == n)) db.job_attempts

abbrev pub is_some {ℓ} : {A : Type ℓ} → Option A → Bool
is_some none = false
is_some (some a) = true

abbrev pub one_if : Bool → ℕ
one_if b = if b then 1 else 0

-- Attempts that are over: the one of a job in processing is not.
abbrev pub finished : Job → ℕ
finished j = if is_processing j.status then j.attempts - 1 else j.attempts

-- A job and its rows in the satellite tables fit together.
pub record JobOk (j : Job) (db : Db) (i : ℕ) : Type 0 where
  pub ledger : delivered db i ≡ one_if (is_sent j.status)
  pub letter : lettered db i ≡ one_if (is_dead j.status)
  pub counted : tries db i ≡ finished j
  pub announced : events db i ≡ finished j
  pub history : (n : ℕ) → tried db i n ≡ (leb 1 n && leb n (finished j))
  pub capped : j.attempts ≤ j.max_attempts
  pub room : is_pending j.status ≡ true → j.attempts < j.max_attempts
  pub running : is_processing j.status ≡ true → 0 < j.attempts
  pub token : is_some j.claim_token ≡ is_processing j.status
  pub lease : is_some j.lease_expires_at ≡ is_processing j.status

-- A job that is not there has no rows.
pub record NoRows (db : Db) (i : ℕ) : Type 0 where
  pub no_delivery : delivered db i ≡ 0
  pub no_letter : lettered db i ≡ 0
  pub no_tries : tries db i ≡ 0
  pub no_events : events db i ≡ 0
  pub no_history : (n : ℕ) → tried db i n ≡ false

abbrev pub RowOk : Option Job → Db → ℕ → Type 0
RowOk none db i = NoRows db i
RowOk (some j) db i = JobOk j db i

-- The database is well formed: every job fits its rows, the primary key and the idempotency key are
-- unique, and no uuid that is still to be drawn is in use.
pub record IsValid (u : Uuids) (db : Db) : Type 0 where
  pub rows : (i : ℕ) → RowOk (find i db.jobs) db i
  pub distinct : Distinct (ids db.jobs)
  pub keys : (k : String) → count_where (has_key k) db.jobs ≤ 1
  pub unused_ids : (n : ℕ) → db.draws ≤ n → find (u.job_id n) db.jobs ≡ none
  pub unused_tokens :
      (n i : ℕ) (j : Job)
      → db.draws ≤ n
      → find i db.jobs ≡ some j
      → j.claim_token ≢ some (u.token n i)
  pub unused_events :
      (n : ℕ) → db.draws ≤ n → exists_where (λ r. r.id == u.event_id n) db.webhook_outbox ≡ false
