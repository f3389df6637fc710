-- ===== src/Examples/Callbacks.antt =====
-- The callback of a job's failure: the receiver is out at the first POST, and gets the second one twice.
use notify_queue.Prelude.{
  ◌≤◌, ◌≡◌, refl, ℕ, true, false, [], ◌∷◌, count_where, exists_where, select, elem, insert_by,
  sort_by, update_where,
}
use notify_queue.Tables.{Db, empty_db}
use notify_queue.Jobs.Create.{
  create_job, insert_job, new_row, conflicts, get_job_by_idempotency_key,
}
use notify_queue.Jobs.Claim.{claim_due_jobs, due}
use notify_queue.Jobs.Finalize.{
  mark_failed, update_jobs, record_attempt, enqueue_webhook, after_failed, after_failure,
}
use notify_queue.Outbox.{
  claim_outbox_events, due_events, OutboxEvent, to_event, mark_delivered, record_receipt,
}
use notify_queue.Outbox.Receipts.{of_event}
use notify_queue.Services.Routes.{receive_webhook}
use notify_queue.History
use notify_queue.History.{creates, fails}
use notify_queue.Dispatcher.{responded, claim_pass, dispatch}
use notify_queue.Dispatcher.Exchange.{
  Exchange, opening, after_post, claims, Actions, stay, turn, transacts, posts, records,
}
use notify_queue.Dispatcher.Postings.{is_done}
use notify_queue.Dispatcher.Callbacks.{is_missing, delivered-received}
use notify_queue.Examples.Runs.{
  numbered, request, unlocked, created, running, retrying, token, after, answer, job_of,
}
use notify_queue.Examples.Workers.{settings, outbox_row, digits, no_jitter}

abbrev announced : Exchange
announced = record (opening empty_db) { db = retrying }

to_announced : Actions numbered settings digits (opening empty_db) announced
unfolding create_job insert_job new_row conflicts get_job_by_idempotency_key exists_where select
    claim_due_jobs due elem insert_by sort_by update_where update_jobs record_attempt
    enqueue_webhook mark_failed after_failed after_failure
to_announced =
    turn
      (turn
        (turn stay (
          transacts created
            (creates 10 request
              (answer (job_of empty_db, false) (create_job numbered 10 request empty_db)) refl)
            refl))
        (transacts running
          (History.claims unlocked 20 "w1" 5 100
            (answer [] (claim_due_jobs numbered unlocked 20 "w1" 5 100 created)) refl)
          refl))
      (transacts retrying (fails 30 0 token "w1" "timeout" 5 false "url" _ refl) refl)

abbrev leased_db : Db
leased_db = after (claim_pass settings unlocked 60 retrying)

abbrev leased : Exchange
leased = record announced {
  db = leased_db;
  claimed = answer [] (claim_pass settings unlocked 60 retrying);
}

abbrev failure : OutboxEvent
failure = elim leased.claimed [ [] ↦ to_event outbox_row | e ∷ es ↦ e ]

abbrev received : Exchange
received =
    after_post false 64 failure (after_post false 63 failure (after_post true 61 failure leased))

abbrev delivered_db : Db
delivered_db = after (mark_delivered 65 failure.id leased_db)

abbrev exchanged : Exchange
exchanged = record received { db = delivered_db }

exchange_run :
    Actions numbered settings digits (opening empty_db) exchanged
    × (exists_where (λ r. is_done r.status) exchanged.db.webhook_outbox ≡ true)
unfolding create_job insert_job new_row conflicts get_job_by_idempotency_key exists_where select
    claim_due_jobs due elem insert_by sort_by update_where update_jobs record_attempt
    enqueue_webhook mark_failed after_failed after_failure claim_pass claim_outbox_events due_events
    mark_delivered dispatch receive_webhook record_receipt
exchange_run = (
  turn
      (turn
        (turn
          (turn (turn to_announced (claims unlocked 60 leased.claimed leased_db refl))
            (posts 0 failure true 61 refl))
          (posts 0 failure false 63 refl))
        (posts 0 failure false 64 refl))
      (records 0 failure no_jitter 65 (responded 200) (mark_delivered 65 failure.id) delivered_db
        refl refl refl refl),
  refl,
)

delivered-received_example :
    ((i : ℕ) → count_where (of_event i) exchanged.receipts ≤ 1)
    × (exists_where (is_missing exchanged.receipts) exchanged.db.webhook_outbox ≡ false)
delivered-received_example =
    delivered-received numbered settings digits empty_db exchanged refl exchange_run.0
