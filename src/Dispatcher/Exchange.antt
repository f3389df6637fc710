-- ===== src/Dispatcher/Exchange.antt =====
-- The dispatchers and the receiver that stands in for a client, as turns that interleave with one
-- another and with the other transactions: webhook_dispatcher.py's `run_once` and `_dispatch`, and
-- `receive_webhook` of src/notify_queue/api/routes/mock.py. Every callback URL is taken to be the
-- receiver's.
use notify_queue.Prelude.{
  ℕ, ◌≡◌, Bool, true, false, ◌&&◌, String, some, List, [], ◌∷◌, ◌++◌, ◌==◌, exists_where, get_elem?,
}
use notify_queue.Domain.Backoff.{Uniform}
use notify_queue.Settings.{Settings}
use notify_queue.Tables.{Db, Uuids}
use notify_queue.Tables.Tx.{Tx, ok}
use notify_queue.Outbox.{OutboxEvent, Receipt}
use notify_queue.Services.Routes.{Answer, answer, refused, exception, event, receive_webhook}
use notify_queue.History.{Step}
use notify_queue.Dispatcher.{Response, responded, http_error, other_error, claim_pass, dispatch}
use notify_queue.Dispatcher.Marks.{is_marking}

-- The status with which the receiver answered a POST of an event.
pub record Acknowledgement : Type 0 where
  pub event_id : ℕ
  pub status : ℕ

-- The events that a dispatcher has claimed, at any time, and the answers that the receiver has given.
pub record Exchange : Type 0 where
  pub db : Db
  pub receipts : List Receipt
  pub claimed : List OutboxEvent
  pub answers : List Acknowledgement

abbrev pub opening : Db → Exchange
opening db = record { db = db; receipts = []; claimed = []; answers = [] }

abbrev pub status_of : {A : Type 0} → Answer A → ℕ
status_of (answer status body) = status
status_of (refused status) = status
status_of (exception e) = 500

-- A POST of the event as the receiver carries it out.
abbrev pub after_post : (outage : Bool) (now : ℕ) → OutboxEvent → Exchange → Exchange
after_post outage now e x =
    let reply = receive_webhook outage now (event e.payload) x.receipts in
    record x {
      receipts = reply.1;
      answers = (record { event_id = e.id; status = status_of reply.0 }) ∷ x.answers;
    }

-- HTTP: a response is one that the receiver gave. An exception may come whatever the receiver did.
abbrev pub IsAnswer : Exchange → OutboxEvent → Response → Type 0
IsAnswer x e (responded code) =
    exists_where (λ (a : Acknowledgement). (a.event_id == e.id) && (a.status == code)) x.answers
    ≡ true
IsAnswer x e (http_error name message) = Unit {0}
IsAnswer x e other_error = Unit {0}

-- A POST can reach the receiver at any time after the claim, also again and after the dispatcher has
-- given it up.
pub data Action (u : Uuids) (s : Settings) (decimal : ℕ → String) (x : Exchange)
    : Exchange → Type 0 where
  transacts :
      (db' : Db) (t : Step u x.db db')
      → is_marking t ≡ false
      → Action u s decimal x (record x { db = db' })
  claims :
      (locked : ℕ → Bool) (now : ℕ) (es : List OutboxEvent) (db' : Db)
      → claim_pass s locked now x.db ≡ ok (es, db')
      → Action u s decimal x (record x { db = db'; claimed = es ++ x.claimed })
  posts :
      (k : ℕ) (e : OutboxEvent) (outage : Bool) (now : ℕ)
      → get_elem? x.claimed k ≡ some e
      → Action u s decimal x (after_post outage now e x)
  records :
      (k : ℕ) (e : OutboxEvent) (rng : Uniform) (now : ℕ) (response : Response) (tx : Tx (Unit {0}))
      (db' : Db)
      → get_elem? x.claimed k ≡ some e
      → IsAnswer x e response
      → dispatch s decimal rng now e response ≡ some tx
      → tx x.db ≡ ok (tt, db')
      → Action u s decimal x (record x { db = db' })

pub data Actions (u : Uuids) (s : Settings) (decimal : ℕ → String) (x : Exchange)
    : Exchange → Type 0 where
  stay : Actions u s decimal x x
  turn :
      {mid x' : Exchange}
      → Actions u s decimal x mid
      → Action u s decimal mid x'
      → Actions u s decimal x x'
