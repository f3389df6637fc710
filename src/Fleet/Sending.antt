-- ===== src/Fleet/Sending.antt =====
-- A send at the provider, and its record in the ledger.
use notify_queue.Prelude.{
  ℕ, ◌≤◌, ◌≡◌, ◌≢◌, sym, ◌∙◌, ap, inl, inr, String, Bool, true, false, Option, none, some, List,
  arith, Bool-cases, Option-cases,
}
use mathlib.Core.Path.{subst}
use notify_queue.Domain.{Job}
use notify_queue.Domain.Json.{get_field}
use notify_queue.Senders.{ProviderRow, SendReply, failed, is_text, mock_send, record_send}
use notify_queue.Senders.Provider.{accepted, record_send-accepted}
use notify_queue.Tables.{Db, Uuids, IsFresh, find}
use notify_queue.Tables.Tx.{ok-pair}
use notify_queue.Invariant.{IsValid, RowOk, delivered}
use notify_queue.Invariant.Held.{held}
use notify_queue.Invariant.Finalize.{fenced, mark_sent-held}
use notify_queue.Cache.{Link, answered, lost, down}
use notify_queue.History.{Reach, here, next, sends}
use notify_queue.History.Safety.{Reach-IsValid}
use notify_queue.Worker.{Config, Moment, send_with_timeout, on_reply}
use notify_queue.Fleet.Paths.{Sends}
use notify_queue.Fleet.Segments.{is_accepted}

-- What a send leaves of the provider's log: it forgets nothing, counts no job twice, and an answer that is
-- to be recorded as sent means that it has accepted the job.
pub record Sound (job : Job) (log log' : List ProviderRow) (accepts : Bool) : Type 0 where
  pub grows : (i : ℕ) → accepted log i ≤ accepted log' i
  pub once : (i : ℕ) → accepted log i ≤ 1 → accepted log' i ≤ 1
  pub own : accepted log job.id ≤ 1 → accepts ≡ true → accepted log' job.id ≡ 1

module _ (job : Job) (log : List ProviderRow) where
  unsent-Sound : Sound job log log false
  unsent-Sound = record { grows = λ i. omega arith; once = λ i h. h; own = λ h e. cc }

  recorded-Sound :
      (serial now : ℕ) (accepts : Bool) → Sound job log (record_send serial now job log).1 accepts
  recorded-Sound serial now accepts = record {
    grows = λ i. ground (arith, record_send-accepted serial now job log i);
    once = λ i h. ground (arith, record_send-accepted serial now job log i);
    own = λ h e. ground (arith, record_send-accepted serial now job log job.id);
  }

  mock_send-Sound :
      (decimal : ℕ → String) (fails : Bool) (serial now : ℕ)
      → let sent = mock_send decimal fails serial now job log in
        Sound job log sent.1 (is_accepted (on_reply sent.0))
  unfolding mock_send
  mock_send-Sound decimal fails serial now =
      let simulate = get_field "simulate" job.payload in
      elim (Bool-cases (is_text "poison" simulate)) [
        | inl y ↦ rw y unsent-Sound
        | inr z ↦ elim (Bool-cases (is_text "permanent_failure" simulate)) [
          | inl y ↦ rw (z, y) unsent-Sound
          | inr z' ↦ elim (Bool-cases fails) [
            | inl y ↦ rw (z, z', y) unsent-Sound
            | inr z'' ↦ rw (z, z', z'') (recorded-Sound serial now true)
          ]
        ]
      ]

  weaken : {log' : List ProviderRow} {b : Bool} → Sound job log log' b → Sound job log log' false
  weaken s = record { grows = s.grows; once = s.once; own = λ h e. cc }

  pub send-Sound :
      (c : Config) (m : Moment)
      → let sent = send_with_timeout c m job log in
        Sound job log sent.1 (is_accepted (on_reply sent.0))
  unfolding send_with_timeout
  send-Sound c m =
      by_link m.send_link (mock_send c.decimal m.send_fails m.serial m.now job log)
        (mock_send-Sound c.decimal m.send_fails m.serial m.now)
    where
      by_link :
          (l : Link) (sent : SendReply × List ProviderRow)
          → Sound job log sent.1 (is_accepted (on_reply sent.0))
          → let r : SendReply × List ProviderRow = elim l [
            | answered ↦ sent
            | lost ↦ (failed "TimeoutError" "", sent.1)
            | down ↦ (failed "TimeoutError" "", log)
          ] in
            Sound job log r.1 (is_accepted (on_reply r.0))
      by_link answered sent h = h
      by_link lost sent h = weaken h
      by_link down sent h = unsent-Sound

delivered-le : {u : Uuids} {db : Db} → IsValid u db → (i : ℕ) → delivered db i ≤ 1
delivered-le {u} {db} v i = bound (find i db.jobs) (v.rows i)
  where
    bound : (o : Option Job) → RowOk o db i → delivered db i ≤ 1
    bound none n = omega (arith, n.no_delivery)
    bound (some j) k = ground (arith, k.ledger)

-- A `mark_sent` of job x delivers at most x, and x at most once.
module _ (u : Uuids) (f : IsFresh u) {db db' : Db} (v : IsValid u db) (x : ℕ) where
  pub Sends-delivered :
      Sends u x db db'
      → IsValid u db'
        × Reach u db db'
        × (delivered db' x ≤ 1)
        × ((i : ℕ) → x ≢ i → delivered db' i ≡ delivered db i)
  Sends-delivered (now, t, worker_id, message, url, r, e) =
      let path : Reach u db db' = next here (sends now x t worker_id message url r e) in
      let valid = Reach-IsValid u f v path in
      (
        valid,
        path,
        delivered-le valid x,
        elim (Option-cases (held x t db)) [
          | inl n ↦ λ i ne.
              let same =
                (ok-pair (sym (fenced u v x t now n worker_id "" url message 0 false).0 ∙ e)).1 in
              ap (λ d. delivered d i) (sym same)
          | inr (j, h) ↦ λ i ne.
              let (mid, done, ended) = mark_sent-held u v x t now f h worker_id url message in
              let same = (ok-pair (sym done ∙ e)).1 in
              subst (λ d. delivered d i ≡ delivered db i) same
                (ended.other_rows i ne).same_delivered
        ],
      )
