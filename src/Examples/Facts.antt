-- ===== src/Examples/Facts.antt =====
-- What is true of the databases of Examples.Runs.
use notify_queue.Prelude.{
  ◌≤◌, ◌≡◌, refl, true, false, none, some, [], ◌∷◌, arith, select, update_where, exists_where, elem,
  insert_by, sort_by,
}
use notify_queue.Domain.{Job, JobStatus, Priority}
use notify_queue.Tables.{Db, empty_db, find}
use notify_queue.Tables.Find.{if_hit}
use notify_queue.Limits.Buckets.{used}
use notify_queue.Invariant.Held.{held}
use notify_queue.Invariant.Requeue.{is_dead_at}
use notify_queue.Tables.Tx.{ok}
use notify_queue.Jobs.Create.{
  create_job, insert_job, new_row, conflicts, get_job_by_idempotency_key,
}
use notify_queue.Jobs.Claim.{claim_due_jobs, due, in_due, is_due}
use notify_queue.Jobs.RateLimit.{try_acquire_rate_limit, upsert_bucket}
use notify_queue.Jobs.Finalize.{
  transition, set_sent, mark_sent, mark_failed, update_jobs, record_attempt, enqueue_webhook,
  insert_delivery, after_sent, after_failed, after_failure, insert_dead_letter,
}
use notify_queue.Jobs.Reap.{
  reap_expired_leases, expired, in_expired, set_reaped, after_reap, after_reap_all,
}
use notify_queue.History.{Reach, next, creates}
use notify_queue.Examples.Runs.{
  after, created, delivered_db, job_of, numbered, reaped_db, request, running, running_again,
  second_token, to_created, token, unlocked,
}

-- The first claim holds the job, and is lost when the second one holds it.
pub facts :
    (held 0 token running ≡ some (job_of running))
    × (held 0 second_token running_again ≡ some (job_of running_again))
    × (held 0 token running_again ≡ none)
    × (find 0 delivered_db.jobs ≡ some (job_of delivered_db))
    × (find 0 running.jobs ≡ some (job_of running))
    × (find 0 created.jobs ≡ some (job_of created))
    × (if_hit (is_dead_at 0) (find 0 reaped_db.jobs) ≡ some (job_of reaped_db))
    × (find 0 running_again.jobs ≡ some (job_of running_again))
unfolding create_job insert_job new_row conflicts get_job_by_idempotency_key exists_where select
    claim_due_jobs due elem insert_by sort_by update_where mark_sent after_sent update_jobs
    record_attempt enqueue_webhook insert_delivery mark_failed after_failed after_failure
    insert_dead_letter reap_expired_leases expired after_reap after_reap_all
facts = (refl, refl, refl, refl, refl, refl, refl, refl)

-- What the transactions ask of their rows.
pub tests :
    (conflicts request.idempotency_key empty_db.jobs ≡ false)
    × (conflicts request.idempotency_key created.jobs ≡ true)
    × (in_due unlocked 20 5 created.jobs (job_of created) ≡ true)
    × (in_expired unlocked 200 10 running_again.jobs (job_of running_again) ≡ true)
    × (if_hit (is_dead_at 0) (find 0 running.jobs) ≡ none)
    × (2 ≤ running_again.draws)
    × ((job_of created).idempotency_key ≡ some "k")
    × ((job_of delivered_db).status ≡ JobStatus.sent)
    × (used "ada@example.org" 0 empty_db.rate_limit_buckets ≤ 1)
unfolding create_job insert_job new_row conflicts get_job_by_idempotency_key exists_where select
    claim_due_jobs due elem insert_by sort_by update_where mark_sent after_sent update_jobs
    record_attempt enqueue_webhook insert_delivery mark_failed after_failed after_failure
    insert_dead_letter reap_expired_leases expired
tests = (refl, refl, refl, refl, refl, omega arith, refl, refl, omega arith)

-- The answers of the transactions.
pub answers :
    (mark_sent numbered 30 0 token "w1" (some "m-1") "url" running
      ≡ ok (some (transition (set_sent 30 (job_of running))), delivered_db))
    × (reap_expired_leases numbered unlocked 200 10 "url" running_again
        ≡ ok (transition (set_reaped 200 (job_of running_again)) ∷ [], reaped_db))
    × (claim_due_jobs numbered unlocked 20 "w1" 5 100 created ≡ ok (job_of running ∷ [], running))
    × (claim_due_jobs numbered unlocked 25 "w2" 5 100 running
        ≡ ok ([], record running { draws = 3 }))
unfolding create_job insert_job new_row conflicts get_job_by_idempotency_key exists_where select
    claim_due_jobs due elem insert_by sort_by update_where mark_sent after_sent update_jobs
    record_attempt enqueue_webhook insert_delivery mark_failed after_failed after_failure
    insert_dead_letter reap_expired_leases expired after_reap after_reap_all
answers = (refl, refl, refl, refl)

-- A second job of a lower priority waits in the queue.
abbrev pub queued : Db
queued = after (
    create_job numbered 12 (record request { priority = Priority.low; idempotency_key = none })
      created)

abbrev pub second_job : Job
second_job = elim queued.jobs [ _ ∷ j ∷ _ ↦ j | _ ↦ job_of queued ]

pub to_queued :
    Reach numbered empty_db queued
    × (find 0 queued.jobs ≡ some (job_of queued))
    × (find 1 queued.jobs ≡ some second_job)
    × (in_due unlocked 20 1 queued.jobs (job_of queued) ≡ true)
    × (is_due unlocked 20 second_job ≡ true)
    × (in_due unlocked 20 1 queued.jobs second_job ≡ false)
unfolding create_job insert_job new_row conflicts get_job_by_idempotency_key exists_where select due
    elem insert_by sort_by
to_queued = (
  next to_created (
      creates 12 (record request { priority = Priority.low; idempotency_key = none })
        (second_job, true) refl),
  refl,
  refl,
  refl,
  refl,
  refl,
)

-- The only send of a window is taken.
abbrev pub limited : Db
limited = after (try_acquire_rate_limit 3 "ada@example.org" 1 10 empty_db)

pub refused : try_acquire_rate_limit 8 "ada@example.org" 1 10 limited ≡ ok (some 2, limited)
unfolding try_acquire_rate_limit upsert_bucket select
refused = refl
