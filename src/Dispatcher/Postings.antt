-- ===== src/Dispatcher/Postings.antt =====
-- That no transaction but `mark_delivered` marks a row of the outbox delivered, and that the payload of
-- each row carries its id.
use notify_queue.Prelude.{
  Bool-cases, inl, inr, ℕ, ◌≡◌, String, Bool, true, false, not, ◌&&◌, ◌||◌, Option, none, some,
  List, [], ◌∷◌, arith, exists_where, ◌==◌,
}
use notify_queue.Domain.{is_dead, Job, Outcome, WebhookEvent}
use notify_queue.Tables.{Db, Uuids, EventData, OutboxRow, OutboxStatus}
use notify_queue.Tables.Tx.{Tx, ◌>>=◌, Result, ok, raise, continue}
use notify_queue.Jobs.Finalize.{
  record_attempt, enqueue_webhook, insert_dead_letter, insert_delivery, after_sent, after_failure,
  after_failed, event_row,
}
use notify_queue.Jobs.Reap.{ReapedRow, after_reap, after_reap_all}
use notify_queue.Invariant.Counts.{exists_where-snoc}

abbrev pub is_done : OutboxStatus → Bool
is_done OutboxStatus.pending = false
is_done OutboxStatus.delivered = true
is_done OutboxStatus.failed = false

-- Another event's payload, or delivered without a receipt.
abbrev pub is_astray : (received : ℕ → Bool) → OutboxRow → Bool
is_astray received r = not (r.payload.event_id == r.id) || (is_done r.status && not (received r.id))

abbrev pub Sound : (received : ℕ → Bool) → Db → Type 0
Sound received db = exists_where (is_astray received) db.webhook_outbox ≡ false

-- A result that commits no row that is astray.
abbrev pub Keeps : {A : Type 0} → (ℕ → Bool) → Db → Result (A × Db) → Type 0
Keeps received db (ok (a, db')) = Sound received db → Sound received db'
Keeps received db (raise e) = Unit {0}

-- A transaction that commits no row that is astray.
abbrev pub Steady : {A : Type 0} → (received : ℕ → Bool) → Tx A → Type 0
Steady received m = (db : Db) → Keeps received db (m db)

module _ (p : ℕ → Bool) where
  pub then-Steady :
      {A B : Type 0} (m : Tx A) (k : A → Tx B)
      → Steady p m
      → ((a : A) → Steady p (k a))
      → Steady p (m >>= k)
  then-Steady {A = A} {B = B} m k h more db = next (m db) (h db)
    where
      after :
          (mid : Db) (r : Result (B × Db))
          → (Sound p db → Sound p mid)
          → Keeps p mid r
          → Keeps p db r
      after mid (ok (b, db')) f g = λ s. g (f s)
      after mid (raise e) f g = tt

      next : (r : Result (A × Db)) → Keeps p db r → Keeps p db (continue r k)
      next (ok (a, mid)) f = after mid (k a mid) f (more a mid)
      next (raise e) f = tt

  pub record_attempt-Steady :
      (now i n : ℕ) (w : Option String) (o : Outcome) (e : Option String) (t : Option ℕ)
      → Steady p (record_attempt now i n w o e t)
  unfolding record_attempt
  record_attempt-Steady now i n w o e t db = ground arith

  pub insert_delivery-Steady :
      (now i : ℕ) (w : String) (m : Option String) → Steady p (insert_delivery now i w m)
  unfolding insert_delivery
  insert_delivery-Steady now i w m db = ground arith

  pub insert_dead_letter-Steady :
      (now i : ℕ) (reason : String) (n : ℕ) (error : String)
      → Steady p (insert_dead_letter now i reason n error)
  unfolding insert_dead_letter
  insert_dead_letter-Steady now i reason n error db = ground arith

  pub enqueue_webhook-Steady :
      (u : Uuids) (now i : ℕ) (event : WebhookEvent) (url : String) (content : EventData)
      → Steady p (enqueue_webhook u now i event url content)
  unfolding enqueue_webhook
  enqueue_webhook-Steady u now i event url content db = ground (
    arith,
    exists_where-snoc (is_astray p) db.webhook_outbox
        (event_row now (u.event_id db.draws) i event url content),
  )

  pub after_sent-Steady :
      (u : Uuids) (now x : ℕ) (w : String) (m : Option String) (url : String) (row : Option Job)
      → Steady p (after_sent u now x w m url row)
  unfolding after_sent
  after_sent-Steady u now x w m url none = λ db h. h
  after_sent-Steady u now x w m url (some row) =
      then-Steady _ _ (insert_delivery-Steady now x w m) (λ _.
        then-Steady _ _
          (record_attempt-Steady now x row.attempts (some w) Outcome.sent none row.claimed_at)
          (λ _.
            then-Steady _ _ (enqueue_webhook-Steady u now x WebhookEvent.sent _ _) (λ _ db h. h)))

  pub after_failure-Steady :
      (u : Uuids) (now : ℕ) (row : Job) (error reason url : String)
      → Steady p (after_failure u now row error reason url)
  unfolding after_failure
  after_failure-Steady u now row error reason url = elim (Bool-cases (is_dead row.status)) [
    | inl y ↦
        rw (y, after_failure)
          (then-Steady _ _ (insert_dead_letter-Steady now row.id reason row.attempts error) (λ _.
            then-Steady _ _ (enqueue_webhook-Steady u now row.id WebhookEvent.dead_lettered _ _)
              (λ _ db h. h)))
    | inr z ↦
        rw (z, after_failure)
          (then-Steady _ _ (enqueue_webhook-Steady u now row.id WebhookEvent.failed _ _)
            (λ _ db h. h))
  ]

  pub after_failed-Steady :
      (u : Uuids) (now x : ℕ) (w error : String) (q : Bool) (url : String) (row : Option Job)
      → Steady p (after_failed u now x w error q url row)
  unfolding after_failed
  after_failed-Steady u now x w error q url none = λ db h. h
  after_failed-Steady u now x w error q url (some row) =
      then-Steady _ _
        (record_attempt-Steady now x row.attempts (some w) Outcome.failed (some error)
          row.claimed_at)
        (λ _. then-Steady _ _ (after_failure-Steady u now row error _ url) (λ _ db h. h))

  pub after_reap-Steady :
      (u : Uuids) (now : ℕ) (url : String) (row : ReapedRow) → Steady p (after_reap u now url row)
  unfolding after_reap
  after_reap-Steady u now url row =
      then-Steady _ _
        (record_attempt-Steady now row.job.id row.job.attempts row.locked_by _ _ row.claimed_at)
        (λ _. after_failure-Steady u now row.job _ _ url)

  pub after_reap_all-Steady :
      (u : Uuids) (now : ℕ) (url : String) (rows : List ReapedRow)
      → Steady p (after_reap_all u now url rows)
  unfolding after_reap_all
  after_reap_all-Steady u now url [] = λ db h. h
  after_reap_all-Steady u now url (row ∷ rows) =
      then-Steady _ _ (after_reap-Steady u now url row) (λ _. after_reap_all-Steady u now url rows)
