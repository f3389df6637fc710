-- ===== src/Fleet/Refinement.antt =====
-- The running system does to the database only what the transactions of the repository do.
use notify_queue.Prelude.{◌≤◌, sym, inl, inr, List, [], ◌∷◌, Option-cases}
use mathlib.Core.Path.{subst}
use notify_queue.Tables.{Db, Uuids}
use notify_queue.Jobs.Finalize.{Transition}
use notify_queue.History.{Reach, here, next, sends}
use notify_queue.Worker.{World, Config, Moment, sending, Task, send_with_timeout}
use notify_queue.Worker.Delivery.{advance, at_phase}
use notify_queue.Services.DeadLetters.{extra_or_default, extra_or_default-positive}
use notify_queue.Fleet.{
  Fleet, Event, requested, polled, advanced, crashed, reaped, requeued, invalidated, leased, posted,
  handle, run_events, task_at, drain_one,
}
use notify_queue.Fleet.Paths.{Quiet-Reach}
use notify_queue.Fleet.Segments.{advance-Segment}
use notify_queue.Fleet.Starts.{polled-Calm}
use notify_queue.Fleet.Events.{
  requested-Calm, leased-Calm, posted-Calm, requeued-Quiet, reaped-Calm,
}
use notify_queue.Fleet.Backed.{is_sending_phase, count_dedup-same}

pub Reach-append : {u : Uuids} {a b d : Db} → Reach u a b → Reach u b d → Reach u a d
Reach-append r here = r
Reach-append r (next q s) = next (Reach-append r q) s

module _ (c : Config) (positive : 1 ≤ c.settings.max_attempts) where
  send-Reach :
      (m : Moment) (task : Task) (w : World)
      → Reach c.uuids w.db (advance c m (at_phase task sending) w).1.db
  unfolding advance
  send-Reach m task w =
      let reply = send_with_timeout c m task.job w.provider in
      subst (Reach c.uuids w.db)
        (sym (count_dedup-same reply.0 (record w { provider = reply.1 })).0) here

  advance-Reach :
      (m : Moment) (task : Task) (w : World) → Reach c.uuids w.db (advance c m task w).1.db
  advance-Reach m task w = elim (is_sending_phase task.phase) [
    | inl same ↦
        subst (λ p. Reach c.uuids w.db (advance c m (at_phase task p) w).1.db) (sym same)
          (send-Reach m task w)
    | inr other ↦ elim ((advance-Segment c m task task.phase w other).commits) [
      | inl quiet ↦ Quiet-Reach c.uuids quiet
      | inr (y, (now, t, worker_id, message, url, r, e)) ↦
          next here (sends now task.job.id t worker_id message url r e)
    ]
  ]

  handle-Reach : (e : Event) (s : Fleet) → Reach c.uuids s.world.db (handle c e s).world.db
  unfolding handle
  handle-Reach (requested now new) s =
      Quiet-Reach c.uuids (requested-Calm c.uuids now new s.world).quiet
  handle-Reach (polled locked loop_id monotonic now) s =
      Quiet-Reach c.uuids (polled-Calm c locked loop_id monotonic now s.world).0.quiet
  handle-Reach (advanced n m) s = elim (Option-cases (task_at n s.tasks)) [
    | inl e ↦ rw e here
    | inr (task, e) ↦ rw e (advance-Reach m task s.world)
  ]
  handle-Reach (crashed n) s = elim (Option-cases (task_at n s.tasks)) [
    | inl e ↦ rw e here
    | inr (task, e) ↦ rw e here
  ]
  handle-Reach (reaped locked now) s = Quiet-Reach c.uuids (reaped-Calm c locked now s.world).quiet
  handle-Reach (requeued link now job_id extra) s = Quiet-Reach c.uuids (
      requeued-Quiet c.uuids link now job_id (extra_or_default extra c.settings.max_attempts)
        s.world.cache s.world.db (extra_or_default-positive extra c.settings.max_attempts positive))
  handle-Reach (invalidated link) s = drained s.world.tasks
    where
      drained : (ts : List Transition) → Reach c.uuids s.world.db (drain_one link ts s.world).db
      drained [] = here
      drained (t ∷ ts) = here
  handle-Reach (leased locked now) s =
      Quiet-Reach c.uuids (leased-Calm c.uuids c.settings locked now s.world).quiet
  handle-Reach (posted now rng event response) s =
      Quiet-Reach c.uuids
        (posted-Calm c.uuids c.settings rng now event s.world c.decimal response).quiet

  -- With at least one attempt for a job: every run of the API, the workers, the reapers and the
  -- dispatchers, however they interleave, crash and time out, takes the database through a history
  -- of the repository's transactions.
  pub run_events-Reach :
      (es : List Event) (s : Fleet) → Reach c.uuids s.world.db (run_events c es s).world.db
  unfolding run_events
  run_events-Reach [] s = here
  run_events-Reach (e ∷ es) s = Reach-append (handle-Reach e s) (run_events-Reach es (handle c e s))
