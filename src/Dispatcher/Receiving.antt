-- ===== src/Dispatcher/Receiving.antt =====
-- What a POST leaves of the receipts.
use notify_queue.Prelude.{
  ℕ, ◌+◌, if◌then◌else◌, zero, suc, ◌≡◌, ◌≤◌, refl, Bool, true, false, not, ◌&&◌, some, List, [],
  ◌∷◌, arith, ◌==◌, exists_where, count_where, get_elem?,
}
use notify_queue.Tables.{EventPayload}
use notify_queue.Outbox.{Receipt, record_receipt}
use notify_queue.Outbox.Receipts.{of_event, record_receipt-count, exists-count}
use notify_queue.Services.Routes.{receive_webhook, event}
use notify_queue.Dispatcher.{is_success}
use notify_queue.Dispatcher.Exchange.{status_of}

abbrev pub has : List Receipt → ℕ → Bool
has receipts i = exists_where (of_event i) receipts

module _ {ℓ} {A : Type ℓ} where
  pub exists_where_mono :
      {p q : A → Bool}
      → ((a : A) → q a ≡ true → p a ≡ true)
      → (xs : List A) → exists_where p xs ≡ false
      → exists_where q xs ≡ false
  unfolding exists_where
  exists_where_mono m [] h = refl
  exists_where_mono m (x ∷ xs) h = ground (arith, m x, exists_where_mono m xs)

  pub get_elem-none :
      (p : A → Bool) (xs : List A) (k : ℕ) {x : A}
      → exists_where p xs ≡ false
      → get_elem? xs k ≡ some x
      → p x ≡ false
  unfolding exists_where
  get_elem-none p [] k h e = cc
  get_elem-none p (y ∷ xs) zero h e = ground arith
  get_elem-none p (y ∷ xs) (suc k) h e = get_elem-none p xs k (ground arith) e

-- What a POST that is answered with a status leaves of the receipts.
pub record Received (id status : ℕ) (rs rs' : List Receipt) : Type 0 where
  pub kept : (i : ℕ) → has rs i ≡ true → has rs' i ≡ true
  pub got : is_success status ≡ true → has rs' id ≡ true
  pub once : (i : ℕ) → count_where (of_event i) rs ≤ 1 → count_where (of_event i) rs' ≤ 1

pub receive-Received :
    (outage : Bool) (now : ℕ) (payload : EventPayload) (rs : List Receipt)
    → let reply = receive_webhook outage now (event payload) rs in
      Received payload.event_id (status_of reply.0) rs reply.1
unfolding receive_webhook
receive-Received true now payload rs = record { kept = λ i h. h; got = λ h. cc; once = λ i h. h }
receive-Received false now payload rs =
    let rs' = (record_receipt now payload rs).1 in
    let counts : (i : ℕ)
        → count_where (of_event i) rs'
          ≡ (if (payload.event_id == i) && not (has rs i) then 1 else 0)
            + count_where (of_event i) rs =
      λ i. record_receipt-count i (record { now = now; payload = payload }) rs in
    record {
      kept = λ i h. ground (arith, counts i, exists-count i rs, exists-count i rs');
      got = λ h. ground (
        arith,
        counts payload.event_id,
        exists-count payload.event_id rs,
        exists-count payload.event_id rs',
      );
      once = λ i h. ground (arith, counts i, exists-count i rs);
    }
