-- ===== src/Services/DeadLetters.antt =====
-- src/notify_queue/services/dead_letters.py and api/routes/dead_letters.py: the requeue of a job.
use notify_queue.Prelude.{ℕ, suc, ◌≤◌, arith, zero, Option, none, some}
use notify_queue.Domain.Schemas.{JobOut}
use notify_queue.Tables.{Db}
use notify_queue.Tables.Tx.{Error, Result, ok, raise}
use notify_queue.Jobs.Finalize.{Transition}
use notify_queue.Jobs.Reap.{requeue_dead_letter}
use notify_queue.Cache.{Link, Store, invalidate}

-- How `requeue` ends: NotDeadLettered, or an exception of the database.
pub data RequeueReply : Type 0 where
  requeued not_dead_lettered : RequeueReply
  failed : Error → RequeueReply

abbrev pub on_requeued :
    Link → Store JobOut → Db → Result (Option Transition × Db) → RequeueReply × (Store JobOut × Db)
on_requeued link cache db (ok (some t, db')) =
    (requeued, (invalidate JobOut link t.job_id t.version cache, db'))
on_requeued link cache db (ok (none, db')) = (not_dead_lettered, (cache, db'))
on_requeued link cache db (raise e) = (failed e, (cache, db))

-- `DeadLetterService.requeue`
unfoldable pub requeue :
    Link → ℕ → (job_id extra_attempts : ℕ) → Store JobOut → Db → RequeueReply × (Store JobOut × Db)
requeue link now job_id extra_attempts cache db =
    on_requeued link cache db (requeue_dead_letter now job_id extra_attempts db)

-- `extra_attempts or settings.max_attempts` of the route; the query parameter is 1 to 20 if it is given.
abbrev pub extra_or_default : Option ℕ → (max_attempts : ℕ) → ℕ
extra_or_default none max_attempts = max_attempts
extra_or_default (some zero) max_attempts = max_attempts
extra_or_default (some n) max_attempts = n

pub extra_or_default-positive :
    (extra : Option ℕ) (max_attempts : ℕ)
    → 1 ≤ max_attempts
    → 1 ≤ extra_or_default extra max_attempts
extra_or_default-positive none max_attempts h = h
extra_or_default-positive (some zero) max_attempts h = h
extra_or_default-positive (some (suc n)) max_attempts h = omega arith
