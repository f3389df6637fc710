-- ===== src/History/Unseen.antt =====
-- The transactions that no job's row shows: those on the rate-limit buckets, and those on the outbox.
use notify_queue.Prelude.{
  ℕ, ◌+◌, ◌-◌, ◌*◌, ◌/◌, ◌≡◌, refl, sym, ◌∙◌, Bool, Option, none, some, List, arith, String, ltb,
  Bool-cases, inl, inr, update_where, exists_where, count_where, ◌==◌,
}
use mathlib.Core.Path.{subst}
use notify_queue.Domain.{Job}
use notify_queue.Tables.{Db, Uuids, Bucket, OutboxRow, find}
use notify_queue.Tables.Tx.{ok, continue, pure, ok-pair}
use notify_queue.Limits.Buckets.{upsert_result}
use notify_queue.Jobs.RateLimit.{
  window_start, try_acquire_rate_limit, delete_old_rate_limit_buckets,
}
use notify_queue.Outbox.{
  OutboxEvent, in_due_events, set_leased, set_delivered, set_attempt_failed, claim_outbox_events,
  mark_delivered, mark_attempt_failed,
}
use notify_queue.Invariant.{IsValid, RowOk, events}
use notify_queue.Invariant.Counts.{count_where-update, exists_where-update}
use notify_queue.History.Moves.{Evolves, stay}

-- Only the buckets differ, and the outbox in other columns than its keys.
pub record Unseen (db db' : Db) : Type 0 where
  pub buckets : List Bucket
  pub outbox : List OutboxRow
  pub same : db' ≡ record db { rate_limit_buckets = buckets; webhook_outbox = outbox }
  pub counts :
      (i : ℕ)
      → count_where (λ r. r.job_id == i) outbox ≡ count_where (λ r. r.job_id == i) db.webhook_outbox
  pub keys :
      (i : ℕ)
      → exists_where (λ r. r.id == i) outbox ≡ exists_where (λ r. r.id == i) db.webhook_outbox

row-unseen :
    (db : Db) (buckets : List Bucket) (outbox : List OutboxRow) (i : ℕ) (o : Option Job)
    → count_where (λ r. r.job_id == i) outbox ≡ events db i
    → RowOk o db i
    → RowOk o (record db { rate_limit_buckets = buckets; webhook_outbox = outbox }) i
row-unseen db buckets outbox i none e n = record {
  no_delivery = n.no_delivery;
  no_letter = n.no_letter;
  no_tries = n.no_tries;
  no_events = e ∙ n.no_events;
  no_history = n.no_history;
}
row-unseen db buckets outbox i (some j) e k = record {
  ledger = k.ledger;
  letter = k.letter;
  counted = k.counted;
  announced = e ∙ k.announced;
  history = k.history;
  capped = k.capped;
  room = k.room;
  running = k.running;
  token = k.token;
  lease = k.lease;
}

pub Unseen-Evolves : (u : Uuids) {db db' : Db} → IsValid u db → Unseen db db' → Evolves u db db'
Unseen-Evolves u {db} {db'} v n =
    let after : Db = record db { rate_limit_buckets = n.buckets; webhook_outbox = n.outbox } in
    let valid : IsValid u after = record {
      rows = λ i. row-unseen db n.buckets n.outbox i (find i db.jobs) (n.counts i) (v.rows i);
      distinct = v.distinct;
      keys = v.keys;
      unused_ids = v.unused_ids;
      unused_tokens = v.unused_tokens;
      unused_events = λ d h. n.keys (u.event_id d) ∙ v.unused_events d h;
    } in
    subst (Evolves u db) (sym n.same) (record {
      valid = valid;
      grows = omega arith;
      moves = λ i j h. (j, h, stay refl);
      born = λ i h j' h'. cc;
    })

module _ {db db' : Db} where
  buckets-Unseen :
      (buckets : List Bucket) → db' ≡ record db { rate_limit_buckets = buckets } → Unseen db db'
  buckets-Unseen buckets e = record {
    buckets = buckets;
    outbox = db.webhook_outbox;
    same = e;
    counts = λ i. refl;
    keys = λ i. refl;
  }

  -- Some rows of the outbox change in a way that keeps their keys.
  outbox-Unseen :
      (hit : OutboxRow → Bool) (set : OutboxRow → OutboxRow)
      → ((r : OutboxRow) → ((set r).id ≡ r.id) × ((set r).job_id ≡ r.job_id))
      → db' ≡ record db { webhook_outbox = update_where hit set db.webhook_outbox }
      → Unseen db db'
  outbox-Unseen hit set keeps e = record {
    buckets = db.rate_limit_buckets;
    outbox = update_where hit set db.webhook_outbox;
    same = e;
    counts = λ i.
        count_where-update (λ (r : OutboxRow). r.job_id == i) hit set (λ r. ground (arith, keeps r))
          db.webhook_outbox;
    keys = λ i.
        exists_where-update (λ (r : OutboxRow). r.id == i) hit set (λ r. ground (arith, keeps r))
          db.webhook_outbox;
  }

  pub limits-Unseen :
      (now : ℕ) (recipient : String) (limit window : ℕ) (r : Option ℕ)
      → try_acquire_rate_limit now recipient limit window db ≡ ok (r, db')
      → Unseen db db'
  unfolding try_acquire_rate_limit
  limits-Unseen now recipient limit window r e = elim (Bool-cases (ltb 0 window)) [
    | inr z ↦ cc (rw z at e)
    | inl y ↦
        let (o, rows, done) = upsert_result recipient (window_start now window) limit db in
        buckets-Unseen rows (bucket_rows rows o (rw (y, done) at e))
  ]
    where
      bucket_rows :
          (rows : List Bucket) (o : Option ℕ)
          → continue (ok (o, record db { rate_limit_buckets = rows })) (λ row. elim row [
            | some n ↦ pure none
            | none ↦ pure (some ((now / window + 1) * window - now))
          ])
            ≡ ok (r, db')
          → db' ≡ record db { rate_limit_buckets = rows }
      bucket_rows rows none h = sym (ok-pair h).1
      bucket_rows rows (some n) h = sym (ok-pair h).1

  pub cleans-Unseen :
      (now window n : ℕ) → delete_old_rate_limit_buckets now window db ≡ ok (n, db') → Unseen db db'
  unfolding delete_old_rate_limit_buckets
  cleans-Unseen now window n e = buckets-Unseen _ (sym (ok-pair e).1)

  pub leases-Unseen :
      (locked : ℕ → Bool) (now limit lease : ℕ) (es : List OutboxEvent)
      → claim_outbox_events locked now limit lease db ≡ ok (es, db')
      → Unseen db db'
  unfolding claim_outbox_events
  leases-Unseen locked now limit lease es e =
      outbox-Unseen (in_due_events locked now limit db.webhook_outbox) (set_leased now lease)
        (λ r. (refl, refl)) (sym (ok-pair e).1)

  pub marks-Unseen : (now x : ℕ) → mark_delivered now x db ≡ ok (tt, db') → Unseen db db'
  unfolding mark_delivered
  marks-Unseen now x e =
      outbox-Unseen (λ r. r.id == x) (set_delivered now) (λ r. (refl, refl)) (sym (ok-pair e).1)

  pub gives_up-Unseen :
      (now x : ℕ) (error : String) (delay : Option ℕ)
      → mark_attempt_failed now x error delay db ≡ ok (tt, db')
      → Unseen db db'
  unfolding mark_attempt_failed
  gives_up-Unseen now x error none e =
      outbox-Unseen (λ r. r.id == x) (set_attempt_failed now error none) (λ r. (refl, refl))
        (sym (ok-pair e).1)
  gives_up-Unseen now x error (some d) e =
      outbox-Unseen (λ r. r.id == x) (set_attempt_failed now error (some d)) (λ r. (refl, refl))
        (sym (ok-pair e).1)
