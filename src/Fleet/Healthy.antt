-- ===== src/Fleet/Healthy.antt =====
-- A delivery that nothing goes wrong with (worker/loop.py, `_deliver`).
use notify_queue.Prelude.{
  ℕ, ◌+◌, ◌≤◌, ◌≡◌, refl, sym, ◌∙◌, ap, String, true, false, Option, none, some, List, [], ◌∷◌,
  arith, Bool-cases, inl, inr,
}
use mathlib.Core.Path.{subst}
use notify_queue.Domain.{Job}
use notify_queue.Settings.{send_budget_seconds}
use notify_queue.Senders.{SendResult, replied}
use notify_queue.Tables.{Db, IsFresh, find}
use notify_queue.Tables.Tx.{ok, ok-pair}
use notify_queue.Jobs.Finalize.{Transition, is_held, transition, set_sent, or_default}
use notify_queue.Tables.Find.{if_hit}
use notify_queue.RateLimiter.{
  Allowance, Answer, admitted, wait, script_error, on_reply, postgres_acquire, redis_acquire,
}
use notify_queue.Cache.{Link, answered, lost, down}
use notify_queue.Invariant.{IsValid, delivered}
use notify_queue.Invariant.Held.{held}
use notify_queue.Invariant.Finalize.{mark_sent-held}
use notify_queue.History.Unseen.{limits-Unseen}
use notify_queue.Worker.{
  World, Config, Moment, Phase, acquiring, budgeting, sending, recording, done, Task, allowance,
  uses_redis, put_slots, limiter_acquire, after_commit, has_budget, send_with_timeout, count_dedup,
}
use notify_queue.Worker.Delivery.{on_acquired, conclude, record_result, advance, at_phase, deliver}
use notify_queue.Fleet.Backed.{count_dedup-same}
use notify_queue.Fleet.Segments.{acquire-Quiet}
use notify_queue.History.Safety.{Reach-IsValid}
use notify_queue.Fleet.Paths.{Quiet-Reach}

module _ (now : ℕ) (job : Job) (db db' : Db) (o : Option ℕ) (a : Allowance) where
  postgres_acquire-jobs : postgres_acquire a now job db ≡ ok (o, db') → db'.jobs ≡ db.jobs
  unfolding postgres_acquire
  postgres_acquire-jobs e =
      ap (λ (d : Db). d.jobs) (limits-Unseen now job.recipient a.per_window a.window o e).same

  on_reply-jobs :
      (link : Link) (r : Answer) → on_reply a now job link r db ≡ ok (o, db') → db'.jobs ≡ db.jobs
  unfolding on_reply
  on_reply-jobs answered script_error e = postgres_acquire-jobs e
  on_reply-jobs answered admitted e = sym (ap (λ (d : Db). d.jobs) (ok-pair e).1)
  on_reply-jobs answered (wait ms) e = sym (ap (λ (d : Db). d.jobs) (ok-pair e).1)
  on_reply-jobs lost r e = postgres_acquire-jobs e
  on_reply-jobs down r e = postgres_acquire-jobs e

module _ (c : Config) where
  limiter_acquire-jobs :
      (m : Moment) (job : Job) (w : World) (o : Option ℕ) (db' : Db)
      → (limiter_acquire c.settings m job w).1 ≡ ok (o, db')
      → db'.jobs ≡ w.db.jobs
  unfolding redis_acquire
  limiter_acquire-jobs m job w o db' e = elim (Bool-cases (uses_redis c.settings)) [
    | inl y ↦ on_reply-jobs m.now job w.db db' o (allowance c.settings) m.link _ (rw y at e)
    | inr z ↦ postgres_acquire-jobs m.now job w.db db' o (allowance c.settings) (rw z at e)
  ]

  deliver-next :
      (m : Moment) (ms : List Moment) (task : Task) (w : World) {next : Phase × World}
      → advance c m task w ≡ next
      → deliver c (m ∷ ms) task w ≡ deliver c ms (at_phase task next.0) next.1
  unfolding deliver
  deliver-next m ms task w e = ap (λ n. deliver c ms (at_phase task n.0) n.1) e

  conclude-db : (t : Transition) (w : World) → (conclude c.settings false t w).db ≡ w.db
  conclude-db t w = ground arith

  module _ (task : Task) (w : World) (m : Moment) where
    acquired :
        (db' : Db)
        → (limiter_acquire c.settings m task.job w).1 ≡ ok (none, db')
        → advance c m (at_phase task acquiring) w
          ≡ (budgeting, record w { slots = (limiter_acquire c.settings m task.job w).0; db = db' })
    unfolding advance
    acquired db' e =
        ap
          (λ r.
            after_commit r (record w { slots = (limiter_acquire c.settings m task.job w).0 })
              on_acquired)
          e

    allowed :
        m.monotonic + send_budget_seconds c.settings ≤ task.lease_deadline
        → advance c m (at_phase task budgeting) w ≡ (sending, w)
    unfolding advance
    allowed h =
        let y : has_budget c.settings task.lease_deadline m.monotonic ≡ true = ground arith in
        rw y refl

    delivered_now :
        (r : SendResult)
        → (send_with_timeout c m task.job w.provider).0 ≡ replied r
        → (v : World) × (v.db ≡ w.db)
          × (advance c m (at_phase task sending) w
              ≡ (recording none false false (some r.provider_message_id), v))
    unfolding advance
    delivered_now r e =
        let sent = send_with_timeout c m task.job w.provider in
        let called : World = record w { provider = sent.1 } in
        (
          count_dedup (replied r) called,
          (count_dedup-same (replied r) called).0,
          ap (λ reply. (notify_queue.Worker.on_reply reply, count_dedup reply called)) e,
        )

    recorded :
        (f : IsFresh c.uuids) {j : Job} (message : Option String)
        → IsValid c.uuids w.db
        → held task.job.id task.claim_token w.db ≡ some j
        → let next = advance c m (at_phase task (recording none false false message)) w in
          (next.0 ≡ done)
          × (find task.job.id next.1.db.jobs ≡ some (set_sent m.now j))
          × (delivered next.1.db task.job.id ≡ 1)
    unfolding advance record_result
    recorded f {j} message v h =
        let (db', e, ended) =
          mark_sent-held c.uuids v task.job.id task.claim_token m.now f h
            (or_default task.job.locked_by c.worker_id) c.settings.default_callback_url message in
        let same = conclude-db (transition (set_sent m.now j)) (record w { db = db' }) in
        rw e (
          refl,
          ap (λ d. find task.job.id d.jobs) same ∙ ended.row,
          ap (λ d. delivered d task.job.id) same ∙ ended.delivery,
        )

  -- With fresh uuids, on a well-formed database, for a task at its start whose claim holds: if the
  -- limiter admits it, the check of the budget comes while the lease has room for a send, and the
  -- provider answers, then four segments later the delivery is done, the job is as the UPDATE of
  -- mark_sent makes it, and it is in the ledger exactly once.
  pub healthy_delivery :
      (f : IsFresh c.uuids) (task : Task) (w : World) {j : Job}
      → IsValid c.uuids w.db
      → task.phase ≡ acquiring
      → held task.job.id task.claim_token w.db ≡ some j
      → (m1 m2 m3 m4 : Moment) (db' : Db)
      → (limiter_acquire c.settings m1 task.job w).1 ≡ ok (none, db')
      → m2.monotonic + send_budget_seconds c.settings ≤ task.lease_deadline
      → (r : SendResult) → (send_with_timeout c m3 task.job w.provider).0 ≡ replied r
      → let run = deliver c (m1 ∷ m2 ∷ m3 ∷ m4 ∷ []) task w in
        (run.0.phase ≡ done)
        × (find task.job.id run.1.db.jobs ≡ some (set_sent m4.now j))
        × (delivered run.1.db task.job.id ≡ 1)
  unfolding deliver
  healthy_delivery f task w {j} valid start h m1 m2 m3 m4 db' admit in_time r reply =
      let message : Option String = some r.provider_message_id in
      let w1 : World = record w {
        slots = (limiter_acquire c.settings m1 task.job w).0;
        db = db';
      } in
      let (w2, same, accepted) = delivered_now task w1 m3 r reply in
      let first : advance c m1 task w ≡ (budgeting, w1) =
        ap (λ p. advance c m1 (at_phase task p) w) start ∙ acquired task w m1 db' admit in
      let run =
        deliver-next m1 (m2 ∷ m3 ∷ m4 ∷ []) task w first
        ∙ deliver-next m2 (m3 ∷ m4 ∷ []) (at_phase task budgeting) w1 (allowed task w1 m2 in_time)
        ∙ deliver-next m3 (m4 ∷ []) (at_phase task sending) w1 accepted in
      let still : held task.job.id task.claim_token w2.db ≡ some j =
        ap (λ (d : Db). held task.job.id task.claim_token d) same
        ∙ ap (λ js. if_hit (is_held task.job.id task.claim_token) (find task.job.id js))
            (limiter_acquire-jobs m1 task.job w none db' admit)
        ∙ h in
      let valid2 : IsValid c.uuids w2.db = subst (IsValid c.uuids) (sym same) (
        Reach-IsValid c.uuids f valid
          (Quiet-Reach c.uuids (acquire-Quiet c m1 task.job w none db' admit))) in
      let (over, row, one) = recorded task w2 m4 f {j = j} message valid2 still in
      subst
        (λ run.
          (run.0.phase ≡ done)
          × (find task.job.id run.1.db.jobs ≡ some (set_sent m4.now j))
          × (delivered run.1.db task.job.id ≡ 1))
        (sym run) (over, row, one)
