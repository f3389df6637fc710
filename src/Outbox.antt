-- ===== src/Outbox.antt =====
-- src/notify_queue/repositories/webhooks.py: the outbox of webhook events, and the receiver that stands
-- in for a client.
pub mod Leases
pub mod Receipts
use notify_queue.Prelude.{
  ℕ, ◌+◌, String, Bool, true, false, not, ◌&&◌, Option, none, some, List, [], ◌∷◌, ◌++◌, map,
  reverse, leb, ◌==◌, if◌then◌else◌, select, update_where, exists_where, take, elem, sort_by,
}
use notify_queue.Domain.{WebhookEvent}
use notify_queue.Tables.{Db, OutboxRow, OutboxStatus, EventPayload}
use notify_queue.Tables.Tx.{Tx, ◌>>=◌, ◌>>◌, pure, read, write}
use notify_queue.Jobs.Reports.{is_waiting}

pub record OutboxEvent : Type 0 where
  pub id : ℕ
  pub job_id : ℕ
  pub event : WebhookEvent
  pub payload : EventPayload
  pub target_url : String
  pub attempts : ℕ

-- The columns of RETURNING.
abbrev pub to_event : OutboxRow → OutboxEvent
to_event r = record {
  id = r.id;
  job_id = r.job_id;
  event = r.event;
  payload = r.payload;
  target_url = r.target_url;
  attempts = r.attempts;
}

-- `status = 'pending' AND next_attempt_at <= now()`, less the rows that other transactions hold locked.
abbrev pub is_due_event : (ℕ → Bool) → ℕ → OutboxRow → Bool
is_due_event locked now r = is_waiting r.status && leb r.next_attempt_at now && not (locked r.id)

abbrev pub earlier : OutboxRow → OutboxRow → Bool
earlier a b = leb a.next_attempt_at b.next_attempt_at

abbrev pub row_id : OutboxRow → ℕ
row_id r = r.id

-- The CTE `due`.
unfoldable pub due_events : (ℕ → Bool) → ℕ → (limit : ℕ) → List OutboxRow → List OutboxRow
due_events locked now limit rows =
    take limit (sort_by earlier (select (is_due_event locked now) rows))

-- The SET clause of `_CLAIM_OUTBOX`.
abbrev pub set_leased : ℕ → (lease_seconds : ℕ) → OutboxRow → OutboxRow
set_leased now lease_seconds r = record r {
  next_attempt_at = now + lease_seconds;
  attempts = r.attempts + 1;
}

-- The rows that the UPDATE joins with `due`.
abbrev pub in_due_events : (ℕ → Bool) → ℕ → ℕ → List OutboxRow → OutboxRow → Bool
in_due_events locked now limit rows r = elem r.id (map row_id (due_events locked now limit rows))

unfoldable pub claim_outbox_events :
    (ℕ → Bool) → ℕ → (limit lease_seconds : ℕ) → Tx (List OutboxEvent)
claim_outbox_events locked now limit lease_seconds = do
  rows ← read (λ db. db.webhook_outbox)
  let hit = in_due_events locked now limit rows
  let set = set_leased now lease_seconds
  write λ db. record db { webhook_outbox = update_where hit set db.webhook_outbox }
  pure (map (λ r. to_event (set r)) (select hit rows))

abbrev pub set_delivered : ℕ → OutboxRow → OutboxRow
set_delivered now r = record r {
  status = OutboxStatus.delivered;
  delivered_at = some now;
  last_error = none;
}

unfoldable pub mark_delivered : ℕ → (event_id : ℕ) → Tx (Unit {0})
mark_delivered now event_id = write λ db. record db {
  webhook_outbox = update_where (λ r. r.id == event_id) (set_delivered now) db.webhook_outbox;
}

-- No delay: give up.
abbrev pub set_attempt_failed :
    ℕ → (error : String) (retry_delay : Option ℕ) → OutboxRow → OutboxRow
set_attempt_failed now error none r = record r {
  status = OutboxStatus.failed;
  next_attempt_at = now + 0;
  last_error = some error;
}
set_attempt_failed now error (some delay) r = record r {
  status = OutboxStatus.pending;
  next_attempt_at = now + delay;
  last_error = some error;
}

unfoldable pub mark_attempt_failed :
    ℕ → (event_id : ℕ) (error : String) (retry_delay : Option ℕ) → Tx (Unit {0})
mark_attempt_failed now event_id error retry_delay = write λ db. record db {
  webhook_outbox =
      update_where (λ r. r.id == event_id) (set_attempt_failed now error retry_delay)
        db.webhook_outbox;
}

-- A row of `mock_webhook_receipts`; its serial number is its place in the list.
pub record Receipt : Type 0 where
  pub event_id : ℕ
  pub job_id : ℕ
  pub event : WebhookEvent
  pub payload : EventPayload
  pub received_at : ℕ

-- `ON CONFLICT (event_id) DO NOTHING`: false for an event that was received before.
unfoldable pub record_receipt : ℕ → EventPayload → List Receipt → Bool × List Receipt
record_receipt now payload receipts =
    let row : Receipt = record {
      event_id = payload.event_id;
      job_id = payload.job_id;
      event = payload.event;
      payload = payload;
      received_at = now;
    } in
    if exists_where (λ r. r.event_id == payload.event_id) receipts
    then (false, receipts)
    else (true, receipts ++ row ∷ [])

-- `CAST(:job_id AS uuid) IS NULL OR job_id = :job_id`
abbrev pub is_wanted : Option ℕ → Receipt → Bool
is_wanted none r = true
is_wanted (some job_id) r = r.job_id == job_id

-- The latest first.
unfoldable pub list_receipts : (job_id : Option ℕ) (limit : ℕ) → List Receipt → List Receipt
list_receipts job_id limit receipts = take limit (reverse (select (is_wanted job_id) receipts))
