-- ===== src/Dispatcher/Callbacks.antt =====
-- That the receiver has one receipt of each event that the outbox shows as delivered.
use notify_queue.Prelude.{
  List, not, ◌&&◌, ◌==◌, ℕ, String, ◌≡◌, ◌≤◌, refl, ap, Bool, true, false, some, [], arith, ==_iff,
  exists_where, count_where, get_elem?,
}
use mathlib.Core.Path.{subst}
use notify_queue.Dispatcher.Outcomes.{is_accepted}
use notify_queue.Settings.{Settings}
use notify_queue.Tables.{Db, Uuids, OutboxRow}
use notify_queue.Outbox.{Receipt, OutboxEvent}
use notify_queue.Outbox.Receipts.{of_event, exists-count}
use notify_queue.Services.Routes.{receive_webhook, event}
use notify_queue.Dispatcher.{Response, responded, http_error, other_error, is_success}
use notify_queue.Dispatcher.Postings.{is_done, is_astray, Sound, Keeps}
use notify_queue.Dispatcher.Marks.{Step-Sound}
use notify_queue.Dispatcher.Exchange.{
  Exchange, Acknowledgement, opening, after_post, status_of, IsAnswer, Action, transacts, claims,
  posts, records, Actions, stay, turn,
}
use notify_queue.Dispatcher.Receiving.{has, exists_where_mono, get_elem-none, receive-Received}
use notify_queue.Dispatcher.Recording.{
  is_mismatched, is_unbacked, exists_where-join, claim-matched, answer-backed, dispatch-Steady,
}

-- A row that is delivered, and whose event has not exactly one receipt.
abbrev pub is_missing : List Receipt → OutboxRow → Bool
is_missing receipts row = is_done row.status && not (count_where (of_event row.id) receipts == 1)

record Sent (x : Exchange) : Type 0 where
  sound : Sound (has x.receipts) x.db
  matched : exists_where is_mismatched x.claimed ≡ false
  backed : exists_where (is_unbacked x.receipts) x.answers ≡ false
  once : (i : ℕ) → count_where (of_event i) x.receipts ≤ 1

module _ (u : Uuids) (s : Settings) (decimal : ℕ → String) where
  post-Sent :
      (outage : Bool) (now k : ℕ) (e : OutboxEvent) (x : Exchange)
      → get_elem? x.claimed k ≡ some e
      → Sent x
      → Sent (after_post outage now e x)
  unfolding exists_where
  post-Sent outage now k e x h i =
      let r = receive-Received outage now e.payload x.receipts in
      let own : e.payload.event_id ≡ e.id =
        (==_iff e.payload.event_id e.id).0
          (ground (arith, get_elem-none is_mismatched x.claimed k {x = e} i.matched h)) in
      record {
        sound =
            exists_where_mono (λ row. ground (arith, r.kept row.id)) x.db.webhook_outbox i.sound;
        matched = i.matched;
        backed =
            let status = status_of (receive_webhook outage now (event e.payload) x.receipts).0 in
            let old =
              exists_where_mono {p = is_unbacked x.receipts}
                {q = is_unbacked (after_post outage now e x).receipts}
                (λ (a : Acknowledgement). ground (arith, r.kept a.event_id)) x.answers i.backed in
            let new : is_success status ≡ true
                → has (after_post outage now e x).receipts e.id ≡ true =
              λ y. subst (λ n. has (after_post outage now e x).receipts n ≡ true) own (r.got y) in
            ground (arith, old, new);
        once = λ n. r.once n (i.once n);
      }

  Action-Sent : (x x' : Exchange) → Action u s decimal x x' → Sent x → Sent x'
  Action-Sent x x' (transacts db' t h) i = record {
    sound = Step-Sound (has x.receipts) t h i.sound;
    matched = i.matched;
    backed = i.backed;
    once = i.once;
  }
  Action-Sent x x' (claims locked now es db' h) i =
      let (new, sound) = claim-matched (has x.receipts) s locked now es x.db db' h i.sound in
      record {
        sound = sound;
        matched = exists_where-join is_mismatched es x.claimed new i.matched;
        backed = i.backed;
        once = i.once;
      }
  Action-Sent x x' (posts k e outage now h) i = post-Sent outage now k e x h i
  Action-Sent x x' (records k e rng now response tx db' h a d t) i = record {
    sound =
        subst (Keeps (has x.receipts) x.db) t
          (dispatch-Steady (has x.receipts) s decimal rng now e response tx (accepted response a) d
            x.db)
          i.sound;
    matched = i.matched;
    backed = i.backed;
    once = i.once;
  }
    where
      accepted :
          (response : Response)
          → IsAnswer x e response
          → is_accepted response ≡ true
          → has x.receipts e.id ≡ true
      accepted (responded code) a y = answer-backed x.receipts e.id code x.answers i.backed a y
      accepted (http_error name message) a y = cc
      accepted other_error a y = cc

  Actions-Sent : (x x' : Exchange) → Actions u s decimal x x' → Sent x → Sent x'
  Actions-Sent x x' stay i = i
  Actions-Sent x x' (turn {mid = mid} r t) i = Action-Sent mid x' t (Actions-Sent x mid r i)

  opening-Sent : (db : Db) → db.webhook_outbox ≡ [] → Sent (opening db)
  unfolding exists_where count_where
  opening-Sent db h = record {
    sound = ap (exists_where (is_astray (has []))) h;
    matched = refl;
    backed = refl;
    once = λ i. omega arith;
  }

  -- From an empty outbox and a receiver without receipts, while the dispatchers, the receiver and
  -- the other transactions of the repository take their turns in any order, and whichever POSTs are
  -- refused, repeated, lost on the way back, or carried out after the dispatcher gave them up: the
  -- receiver has at most one receipt of each event, and no row of the outbox is delivered whose
  -- event has not exactly one receipt. Every callback is taken to go to the mock receiver, and a
  -- response to be one that the receiver gave.
  pub delivered-received :
      (db : Db) (x : Exchange)
      → db.webhook_outbox ≡ []
      → Actions u s decimal (opening db) x
      → ((i : ℕ) → count_where (of_event i) x.receipts ≤ 1)
        × (exists_where (is_missing x.receipts) x.db.webhook_outbox ≡ false)
  delivered-received db x h run =
      let end = Actions-Sent (opening db) x run (opening-Sent db h) in
      (
        end.once,
        exists_where_mono (λ row. ground (arith, exists-count row.id x.receipts, end.once row.id))
            x.db.webhook_outbox end.sound,
      )
