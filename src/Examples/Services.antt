-- ===== src/Examples/Services.antt =====
-- The theorems on the outbox and the cache, applied to small runs.
use notify_queue.Prelude.{
  ◌≤◌, ◌≡◌, refl, true, false, List, [], ◌∷◌, arith, count_where, exists_where, elem, Distinct,
  select, update_where, insert_by, sort_by,
}
use notify_queue.Tables.{Db}
use notify_queue.Tables.Tx.{ok}
use notify_queue.Jobs.Create.{
  create_job, insert_job, new_row, conflicts, get_job_by_idempotency_key,
}
use notify_queue.Jobs.Claim.{claim_due_jobs, due}
use notify_queue.Jobs.Finalize.{
  mark_failed, update_jobs, record_attempt, enqueue_webhook, after_failed, after_failure,
}
use notify_queue.Outbox.{OutboxEvent, claim_outbox_events, due_events}
use notify_queue.Outbox.Leases.{event_ids, row_ids, claims-apart}
use notify_queue.RateLimiter.Calls.{Call, acquires, releases, within, charged, refuses_early}
use notify_queue.RateLimiter.Window.{window-bounded}
use notify_queue.Examples.Runs.{retrying, after, answer}

-- The one event of the job that failed once is claimed, and a second claim comes too early.
abbrev leased_db : Db
leased_db = after (claim_outbox_events (λ i. false) 60 20 30 retrying)

abbrev leased_events : List OutboxEvent
leased_events = answer [] (claim_outbox_events (λ i. false) 60 20 30 retrying)

events_run :
    (claim_outbox_events (λ i. false) 60 20 30 retrying ≡ ok (leased_events, leased_db))
    × (claim_outbox_events (λ i. false) 80 20 30 leased_db ≡ ok ([], leased_db))
    × (elem 2 (event_ids leased_events) ≡ true)
    × Distinct (row_ids retrying.webhook_outbox)
unfolding create_job insert_job new_row conflicts get_job_by_idempotency_key exists_where select
    claim_due_jobs due elem insert_by sort_by update_where update_jobs record_attempt
    enqueue_webhook mark_failed after_failed after_failure claim_outbox_events due_events
events_run = (refl, refl, refl, (refl, tt))

claims-apart_example : elem 2 (event_ids []) ≡ false
claims-apart_example =
    claims-apart retrying events_run.3 (λ i. false) (λ i. false) 60 80 20 20 30 30 2 leased_events
      [] leased_db leased_db (omega arith) events_run.0 events_run.1 events_run.2

-- Four jobs of one recipient within a window of 100 in which 2 are allowed. The third is refused, the first
-- hands its slot back, and the fourth takes it.
abbrev calls : List Call
calls =
    acquires (record { now = 10; job_id = 0 })
    ∷ acquires (record { now = 20; job_id = 1 })
    ∷ acquires (record { now = 30; job_id = 2 })
    ∷ releases 0
    ∷ acquires (record { now = 40; job_id = 3 })
    ∷ []

window-bounded_example :
    (count_where (within 60 100) (charged 100 2 calls 0 [] []) ≤ 2)
    × (refuses_early 100 2 calls 0 [] [] ≡ false)
window-bounded_example =
    window-bounded 100 2 (omega arith) calls 60
      (omega arith, (omega arith, (omega arith, (omega arith, tt))))
