-- ===== src/Worker/Termination.antt =====
-- src/notify_queue/worker/loop.py: that a delivery ends, and is counted once.
use notify_queue.Prelude.{
  ℕ, ◌+◌, ◌≤◌, ◌≡◌, refl, true, Option, none, some, List, [], ◌∷◌, arith, length, Bool-cases,
  Option-cases, inl, inr, ◌⊎◌, ap,
}
use notify_queue.Jobs.Finalize.{Transition, return_to_queue}
use notify_queue.Worker.{
  errors, rate_limited, lease_budget_exceeded, World, Config, Moment, Phase, acquiring, budgeting,
  giving_back, sending, done, postponing, releasing, recording, refunding, Task, limiter_acquire,
  limiter_release, has_budget, send_with_timeout, count_dedup,
}
use notify_queue.Worker.Delivery.{
  invalidate_if, on_acquired, on_postponed, on_given_back, on_recorded, record_result, has_error,
  advance, at_phase, deliver,
}
use notify_queue.Worker.Accounting.{
  segments_left, endings, owes, Progress, count_ending, schedule_invalidation-endings,
  limiter_release-endings, invalidate_if-endings, count_dedup-endings, conclude-endings,
  after_commit-Progress, on_recorded-Progress, on_reply-Progress,
}

module _ (c : Config) (m : Moment) where
  pub advance-Progress :
      (task : Task) (p : Phase) (w : World)
      → 1 ≤ segments_left p
      → Progress p w (advance c m (at_phase task p) w)
  unfolding advance
  advance-Progress task acquiring w h =
      let run = limiter_acquire c.settings m task.job w in
      after_commit-Progress acquiring run.1 (record w { slots = run.0 }) on_acquired h acquired
    where
      acquired :
          (o : Option ℕ) (v : World)
          → endings v ≡ endings w
          → Progress acquiring w (on_acquired o v)
      acquired none v e = (omega arith, omega (arith, e))
      acquired (some d) v e = (omega arith, omega (arith, e))
  advance-Progress task (postponing d) w h =
      after_commit-Progress (postponing d)
        (return_to_queue m.now task.job.id task.claim_token d w.db) w (on_postponed c.settings) h
        (λ t v e. (
          omega arith,
          omega (
            arith,
            count_ending (invalidate_if c.settings t v) rate_limited refl,
            invalidate_if-endings v c.settings t,
            e,
          ),
        ))
  advance-Progress task budgeting w h =
      elim (Bool-cases (has_budget c.settings task.lease_deadline m.monotonic)) [
        | inl y ↦ rw y (omega arith, omega arith)
        | inr z ↦ rw z (omega arith, omega arith)
      ]
  advance-Progress task giving_back w h =
      after_commit-Progress giving_back (return_to_queue m.now task.job.id task.claim_token 0 w.db)
        w (on_given_back c.settings) h given_back
    where
      given_back :
          (o : Option Transition) (v : World)
          → endings v ≡ endings w
          → Progress giving_back w (on_given_back c.settings o v)
      given_back none v e =
          (omega arith, omega (arith, e, count_ending v lease_budget_exceeded refl))
      given_back (some t) v e =
          (omega arith, omega (arith, e, schedule_invalidation-endings v c.settings t))
  advance-Progress task releasing w h =
      let freed = limiter_release c.settings m task.job w in
      (
        omega arith,
        omega (
          arith,
          count_ending freed lease_budget_exceeded refl,
          limiter_release-endings w c.settings m task.job,
        ),
      )
  advance-Progress task sending w h =
      let sent = send_with_timeout c m task.job w.provider in
      on_reply-Progress sent.0 w (count_dedup sent.0 (record w { provider = sent.1 }))
        (count_dedup-endings (record w { provider = sent.1 }) sent.0)
  advance-Progress task (recording error permanent refund_slot message) w h =
      elim (Option-cases (
        record_result c m (at_phase task (recording error permanent refund_slot message)) error
          permanent message)) [
            | inl e ↦ rw (e, advance) (omega arith, omega (arith, count_ending w errors refl))
            | inr (tx, e) ↦
                rw (e, advance)
                  (after_commit-Progress (recording error permanent refund_slot message) (tx w.db) w
                    (on_recorded c.settings (has_error error) refund_slot) h
                    (λ t v.
                      on_recorded-Progress c.settings error permanent (has_error error) refund_slot
                        message t w v))
          ]
  advance-Progress task (refunding t) w h =
      let freed = limiter_release c.settings m task.job w in
      (
        omega arith,
        omega (
          arith,
          conclude-endings c.settings true t freed,
          limiter_release-endings w c.settings m task.job,
        ),
      )
  advance-Progress task done w h = absurd (omega (arith, h))

pub ended_or_not : (p : Phase) → (p ≡ done) ⊎ ((1 ≤ segments_left p) × (owes p ≡ 1))
ended_or_not p = ground arith

deliver-done :
    (c : Config) (ms : List Moment) (task : Task) (w : World)
    → deliver c ms (at_phase task done) w ≡ (at_phase task done, w)
unfolding deliver advance
deliver-done c [] task w = refl
deliver-done c (m ∷ ms) task w = deliver-done c ms task w

-- A delivery that has come to phase p, done or to be continued.
segment_done :
    (c : Config) (ms : List Moment) (task : Task) (p : Phase) (v : World)
    → (1 ≤ segments_left p
        → ((deliver c ms (at_phase task p) v).0.phase ≡ done)
          × (endings (deliver c ms (at_phase task p) v).1 ≡ endings v + 1))
    → ((deliver c ms (at_phase task p) v).0.phase ≡ done)
      × (endings (deliver c ms (at_phase task p) v).1 ≡ endings v + owes p)
segment_done c ms task p v rest = elim (ended_or_not p) [
  | inl e ↦
      let same : at_phase task p ≡ at_phase task done = ap (at_phase task) e in
      rw (same, e, deliver-done c ms task v) (refl, omega arith)
  | inr (more, owed) ↦ ((rest more).0, omega (arith, (rest more).1, owed))
]

-- Whatever the clocks, the database, Redis and the provider answer: after as many segments as its
-- phase has left, which are five from the start, a delivery is done, and exactly one of the counters
-- of the ways in which it can end has gone up, by one.
pub deliver-counted :
    (c : Config) (ms : List Moment) (task : Task) (w : World)
    → 1 ≤ segments_left task.phase
    → segments_left task.phase ≤ length ms
    → ((deliver c ms task w).0.phase ≡ done) × (endings (deliver c ms task w).1 ≡ endings w + 1)
unfolding deliver
deliver-counted c [] task w h enough = absurd (omega (arith, h, enough))
deliver-counted c (m ∷ ms) task w h enough =
    let next = advance c m task w in
    let progress = advance-Progress c m task task.phase w h in
    let (over, counted) = segment_done c ms task next.0 next.1 (λ more.
      deliver-counted c ms (at_phase task next.0) next.1 more
        (omega (arith, enough, progress.0))) in
    (over, omega (arith, counted, progress.1))
