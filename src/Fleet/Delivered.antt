-- ===== src/Fleet/Delivered.antt =====
-- What every run of the system keeps: the ledger of deliveries against the provider's log, and the
-- transactions of the repository.
use notify_queue.Prelude.{
  ℕ, ◌≤◌, ◌≡◌, refl, sym, inl, inr, some, List, [], ◌∷◌, ◌++◌, arith, Option-cases, count_where,
}
use mathlib.Core.Path.{subst}
use notify_queue.Domain.{Job, JobStatus}
use notify_queue.Senders.Provider.{accepted}
use notify_queue.Tables.{IsFresh, find}
use notify_queue.Jobs.Finalize.{Transition}
use notify_queue.Invariant.{JobOk, delivered}
use notify_queue.History.Safety.{empty-IsValid}
use notify_queue.Worker.{Config, Moment, done}
use notify_queue.Worker.Delivery.{at_phase, run_batch}
use notify_queue.Services.DeadLetters.{extra_or_default, extra_or_default-positive}
use notify_queue.Fleet.{
  Fleet, Event, requested, polled, advanced, crashed, reaped, requeued, invalidated, leased, posted,
  handle, run_events, idle, task_at, put_task, step_task, drop_task, drain_one,
}
use notify_queue.Fleet.Paths.{rests}
use notify_queue.Fleet.Starts.{polled-Calm, task_at-append}
use notify_queue.Fleet.Events.{
  Calm, requested-Calm, leased-Calm, posted-Calm, requeued-Quiet, reaped-Calm,
}
use notify_queue.Fleet.Backed.{
  Backed, Calm-Backed, put_task_old, stepped, sending-Backed, other_Backed, is_sending_phase,
}

module _ (c : Config) (f : IsFresh c.uuids) (positive : 1 ≤ c.settings.max_attempts) where
  advanced-Backed :
      (s : Fleet) (n : ℕ) (m : Moment)
      → Backed c s
      → Backed c (step_task c n m (task_at n s.tasks) s)
  unfolding stepped
  advanced-Backed s n m b = elim (Option-cases (task_at n s.tasks)) [
    | inl e ↦ rw e b
    | inr (task, e) ↦ rw e (elim (is_sending_phase task.phase) [
      | inl same ↦
          subst (λ p. Backed c (stepped c f s b m n task p)) (sym same)
            (sending-Backed c f s b m n task)
      | inr other ↦ other_Backed c f s b m n task task.phase e other
    ])
  ]

  crashed-Backed : (s : Fleet) (n : ℕ) → Backed c s → Backed c (drop_task n (task_at n s.tasks) s)
  crashed-Backed s n b = elim (Option-cases (task_at n s.tasks)) [
    | inl e ↦ rw e b
    | inr (task, e) ↦ rw e (
        Calm-Backed c f s b s.world (put_task n (at_phase task done) s.tasks) calm
          (put_task_old c f s b n (at_phase task done) refl))
  ]
    where
      calm : Calm c.uuids s.world s.world
      calm = record { quiet = rests; same_provider = refl }

  handle-Backed : (e : Event) (s : Fleet) → Backed c s → Backed c (handle c e s)
  unfolding handle
  handle-Backed (requested now new) s b =
      Calm-Backed c f s b _ s.tasks (requested-Calm c.uuids now new s.world) (λ n t h y. (n, h))
  handle-Backed (polled locked loop_id monotonic now) s b =
      let (calm, none_yet) = polled-Calm c locked loop_id monotonic now s.world in
      let started = (run_batch c locked loop_id monotonic now s.world).0 in
      Calm-Backed c f s b _ (s.tasks ++ started) calm (λ n t h y.
        elim (task_at-append s.tasks started n t h) [
          | inl old ↦ (n, old)
          | inr (k, new) ↦ cc (y, none_yet k t new)
        ])
  handle-Backed (advanced n m) s b = advanced-Backed s n m b
  handle-Backed (crashed n) s b = crashed-Backed s n b
  handle-Backed (reaped locked now) s b =
      Calm-Backed c f s b _ s.tasks (reaped-Calm c locked now s.world) (λ n t h y. (n, h))
  handle-Backed (requeued link now job_id extra) s b =
      Calm-Backed c f s b _ s.tasks
        (record {
          quiet =
              requeued-Quiet c.uuids link now job_id
                (extra_or_default extra c.settings.max_attempts) s.world.cache s.world.db
                (extra_or_default-positive extra c.settings.max_attempts positive);
          same_provider = refl;
        })
        (λ n t h y. (n, h))
  handle-Backed (invalidated link) s b =
      Calm-Backed c f s b _ s.tasks (drained s.world.tasks) (λ n t h y. (n, h))
    where
      drained : (ts : List Transition) → Calm c.uuids s.world (drain_one link ts s.world)
      drained [] = record { quiet = rests; same_provider = refl }
      drained (t ∷ ts) = record { quiet = rests; same_provider = refl }
  handle-Backed (leased locked now) s b =
      Calm-Backed c f s b _ s.tasks (leased-Calm c.uuids c.settings locked now s.world)
        (λ n t h y. (n, h))
  handle-Backed (posted now rng event response) s b =
      Calm-Backed c f s b _ s.tasks
        (posted-Calm c.uuids c.settings rng now event s.world c.decimal response)
        (λ n t h y. (n, h))

  run_events-Backed : (es : List Event) (s : Fleet) → Backed c s → Backed c (run_events c es s)
  unfolding run_events
  run_events-Backed [] s b = b
  run_events-Backed (e ∷ es) s b = run_events-Backed es (handle c e s) (handle-Backed e s b)

  idle-Backed : Backed c idle
  unfolding count_where
  idle-Backed = record {
    valid = empty-IsValid c.uuids;
    once = λ i. omega arith;
    ledger = λ i. omega arith;
    flying = λ n t e y. cc;
  }

  -- With fresh uuids and at least one attempt for a job: however the API, the workers, the reapers,
  -- the dispatchers and the background tasks interleave from an empty system, with whatever crashes,
  -- lost answers and timeouts, the provider has accepted no job twice; the ledger has no delivery
  -- that the provider has not accepted; and a job with status sent was accepted exactly once and is
  -- in the ledger exactly once.
  pub sent_was_accepted :
      (es : List Event) (i : ℕ)
      → let w = (run_events c es idle).world in
        (accepted w.provider i ≤ 1)
        × (delivered w.db i ≤ accepted w.provider i)
        × ((j : Job)
            → find i w.db.jobs ≡ some j
            → j.status ≡ JobStatus.sent
            → (accepted w.provider i ≡ 1) × (delivered w.db i ≡ 1))
  sent_was_accepted es i =
      let b = run_events-Backed es idle idle-Backed in
      (b.once i, b.ledger i, λ j e sent. in_ledger b j (rw e at (b.valid.rows i)) sent)
    where
      in_ledger :
          Backed c (run_events c es idle)
          → (j : Job) → JobOk j (run_events c es idle).world.db i
          → j.status ≡ JobStatus.sent
          → (accepted (run_events c es idle).world.provider i ≡ 1)
            × (delivered (run_events c es idle).world.db i ≡ 1)
      in_ledger b j k sent =
          let one : delivered (run_events c es idle).world.db i ≡ 1 =
            ground (arith, k.ledger, sent) in
          (omega (arith, one, b.once i, b.ledger i), one)
