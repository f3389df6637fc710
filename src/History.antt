-- ===== src/History.antt =====
-- The transactions of the repository in any order: the workers, the reapers and the API processes
-- interleave at their commits, which is what the row locks of each statement make of them.
pub mod Moves
pub mod Unseen
pub mod Evolution
pub mod Quiet
pub mod Safety
pub mod Fencing
pub mod Lifecycle
pub mod Versions
pub mod Idempotence
pub mod Endings
use notify_queue.Prelude.{ℕ, ◌≤◌, ◌≡◌, String, Bool, Option, List}
use notify_queue.Domain.{Job, NewJob}
use notify_queue.Tables.{Db, Uuids}
use notify_queue.Tables.Tx.{ok}
use notify_queue.Jobs.Create.{create_job}
use notify_queue.Jobs.Claim.{claim_due_jobs}
use notify_queue.Jobs.Finalize.{Transition, mark_sent, mark_failed, return_to_queue}
use notify_queue.Jobs.RateLimit.{try_acquire_rate_limit, delete_old_rate_limit_buckets}
use notify_queue.Outbox.{OutboxEvent, claim_outbox_events, mark_delivered, mark_attempt_failed}
use notify_queue.Jobs.Reap.{reap_expired_leases, requeue_dead_letter}

-- One committed transaction. One that raises is rolled back, and is no step. The route of a requeue asks
-- for at least one more attempt; its default, the setting max_attempts, is taken to be one at least.
pub data Step (u : Uuids) (db db' : Db) : Type 0 where
  creates :
      (now : ℕ) (new : NewJob) (r : Job × Bool)
      → create_job u now new db ≡ ok (r, db')
      → Step u db db'
  claims :
      (locked : ℕ → Bool) (now : ℕ) (worker_id : String) (batch_size lease : ℕ) (js : List Job)
      → claim_due_jobs u locked now worker_id batch_size lease db ≡ ok (js, db')
      → Step u db db'
  sends :
      (now x t : ℕ) (worker_id : String) (message : Option String) (url : String)
      (r : Option Transition)
      → mark_sent u now x t worker_id message url db ≡ ok (r, db')
      → Step u db db'
  fails :
      (now x t : ℕ) (worker_id error : String) (delay : ℕ) (permanent : Bool) (url : String)
      (r : Option Transition)
      → mark_failed u now x t worker_id error delay permanent url db ≡ ok (r, db')
      → Step u db db'
  returns :
      (now x t delay : ℕ) (r : Option Transition)
      → return_to_queue now x t delay db ≡ ok (r, db')
      → Step u db db'
  reaps :
      (locked : ℕ → Bool) (now limit : ℕ) (url : String) (ts : List Transition)
      → reap_expired_leases u locked now limit url db ≡ ok (ts, db')
      → Step u db db'
  requeues :
      (now x extra : ℕ) (r : Option Transition)
      → 1 ≤ extra
      → requeue_dead_letter now x extra db ≡ ok (r, db')
      → Step u db db'
  limits :
      (now : ℕ) (recipient : String) (limit window : ℕ) (r : Option ℕ)
      → try_acquire_rate_limit now recipient limit window db ≡ ok (r, db')
      → Step u db db'
  cleans :
      (now window n : ℕ) → delete_old_rate_limit_buckets now window db ≡ ok (n, db') → Step u db db'
  leases :
      (locked : ℕ → Bool) (now limit lease : ℕ) (es : List OutboxEvent)
      → claim_outbox_events locked now limit lease db ≡ ok (es, db')
      → Step u db db'
  marks : (now x : ℕ) → mark_delivered now x db ≡ ok (tt, db') → Step u db db'
  gives_up :
      (now x : ℕ) (error : String) (delay : Option ℕ)
      → mark_attempt_failed now x error delay db ≡ ok (tt, db')
      → Step u db db'

pub data Reach (u : Uuids) (db : Db) : Db → Type 0 where
  here : Reach u db db
  next : {mid db' : Db} → Reach u db mid → Step u mid db' → Reach u db db'
