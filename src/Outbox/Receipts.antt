-- ===== src/Outbox/Receipts.antt =====
-- Webhooks are sent at least once; the receiver keeps each event once.
use notify_queue.Prelude.{
  ℕ, ◌+◌, ◌≡◌, refl, ap, Bool, true, not, ◌&&◌, List, [], ◌∷◌, arith, ◌==◌, ==_iff, if◌then◌else◌,
  exists_where, count_where, count_where-append, Bool-cases, inl, inr,
}
use notify_queue.Tables.{EventPayload}
use notify_queue.Outbox.{Receipt, record_receipt}

-- A delivery of an event, at a time.
pub record Post : Type 0 where
  pub now : ℕ
  pub payload : EventPayload

unfoldable pub receive : List Post → List Receipt → List Receipt
receive [] receipts = receipts
receive (p ∷ ps) receipts = receive ps (record_receipt p.now p.payload receipts).1

abbrev pub of_event : ℕ → Receipt → Bool
of_event e r = r.event_id == e

abbrev pub posts : ℕ → Post → Bool
posts e p = p.payload.event_id == e

pub record_receipt-count :
    (e : ℕ) (p : Post) (rs : List Receipt)
    → count_where (of_event e) (record_receipt p.now p.payload rs).1
      ≡ (if posts e p && not (exists_where (of_event e) rs) then 1 else 0)
        + count_where (of_event e) rs
unfolding record_receipt count_where
record_receipt-count e p rs =
    let known = exists_where (λ r. r.event_id == p.payload.event_id) rs in
    let row : Receipt = record {
      event_id = p.payload.event_id;
      job_id = p.payload.job_id;
      event = p.payload.event;
      payload = p.payload;
      received_at = p.now;
    } in
    let more = count_where-append (of_event e) rs (row ∷ []) in
    let same : posts e p ≡ true → known ≡ exists_where (of_event e) rs =
      λ h. ap (λ n. exists_where (λ r. r.event_id == n) rs) ((==_iff p.payload.event_id e).0 h) in
    elim (Bool-cases known) [
      | inl y ↦ rw y (ground (arith, same))
      | inr z ↦ rw z (ground (arith, same, more))
    ]

pub exists-count :
    (e : ℕ) (rs : List Receipt)
    → exists_where (of_event e) rs ≡ not (count_where (of_event e) rs == 0)
unfolding exists_where count_where
exists-count e [] = refl
exists-count e (r ∷ rs) = ground (arith, exists-count e rs)

receive-count :
    (ps : List Post) (e : ℕ) (rs : List Receipt)
    → count_where (of_event e) (receive ps rs) ≡ (
        if count_where (of_event e) rs == 0
        then (if exists_where (posts e) ps then 1 else 0)
        else count_where (of_event e) rs)
unfolding receive exists_where
receive-count [] e rs = ground arith
receive-count (p ∷ ps) e rs =
    let one = record_receipt-count e p rs in
    ground (arith, one, exists-count e rs, receive-count ps e (record_receipt p.now p.payload rs).1)

-- However often and in whatever order events are posted, a receiver that starts empty has one
-- receipt of each event that was posted and none of any other.
pub receive-once :
    (ps : List Post) (e : ℕ)
    → count_where (of_event e) (receive ps []) ≡ (if exists_where (posts e) ps then 1 else 0)
unfolding count_where
receive-once ps e = receive-count ps e []
