-- ===== src/Process/Remaining.antt =====
-- What the tasks of a process have left to do once the stop event is set: each turn makes it less.
use notify_queue.Prelude.{
  ℕ, suc, ◌+◌, ◌≤◌, ◌<◌, ◌≡◌, refl, ◌⊎◌, inl, inr, Bool, true, false, none, some, List, [], ◌∷◌,
  String, arith, length, get_elem?, remove, total, total-set, total-remove, length-remove,
  Bool-cases, Option-cases,
}
use notify_queue.Settings.{Settings}
use notify_queue.Domain.{Job}
use notify_queue.Tables.{Db}
use notify_queue.Tables.Tx.{Result, ok, raise}
use notify_queue.Jobs.Claim.{claim_due_jobs}
use notify_queue.Outbox.{OutboxEvent}
use notify_queue.Worker.{World, Config, Moment, Phase, done, Task}
use notify_queue.Worker.Delivery.{advance, at_phase, on_claimed}
use notify_queue.Worker.Accounting.{segments_left}
use notify_queue.Worker.Termination.{advance-Progress}
use notify_queue.Dispatcher.{Response, claim_pass, dispatch}
use notify_queue.Polling.{
  Loop, fresh, returned, passing, napping, Batch, claiming, delivering, gathered, after_claim,
  is_done, put_back, claim_turn, Round, leasing, posting, posted_all, after_lease, commit_dispatch,
  after_dispatch, dispatcher_turn,
}
use notify_queue.Process.{claim_is_due, dispatcher_is_due}

-- The claims that are on their way, and the awaits that the tasks have before them at most.
abbrev pub claims_of : Loop Batch → ℕ
claims_of (passing (claiming started)) = 1
claims_of _ = 0

abbrev pub task_left : Task → ℕ
task_left task = suc (segments_left task.phase)

abbrev pub left_of : Loop Batch → ℕ
left_of fresh = 1
left_of returned = 0
left_of (napping until) = 1
left_of (passing (claiming started)) = 1
left_of (passing (delivering tasks)) = suc (total task_left tasks)

-- What a turn after the stop does to the claim loop, or the dispatcher.
abbrev pub Falls : (claims left claims' left' : ℕ) → Type 0
Falls claims left claims' left' = (claims' < claims) ⊎ ((claims' ≡ claims) × (left' < left))

module _ (s : Settings) (m : Moment) where
  gathered-settles : (tasks : List Task) → claims_of (gathered s true m tasks) ≡ 0
  gathered-settles [] = refl
  gathered-settles (task ∷ tasks) = refl

  gathered-left :
      (tasks : List Task) → left_of (gathered s true m tasks) ≤ suc (total task_left tasks)
  gathered-left [] = omega arith
  gathered-left (task ∷ tasks) = omega arith

  after_claim-settles :
      (r : Result (List Job × Db)) (started : List Task × World)
      → claims_of (after_claim s true m r started).0 ≡ 0
  after_claim-settles (ok ([], db)) started = refl
  after_claim-settles (ok (job ∷ jobs, db)) started = gathered-settles started.0
  after_claim-settles (raise e) started = refl

-- The segment of a delivery.
put_back-less :
    (k : ℕ) (tasks : List Task) (task : Task) (p : Phase)
    → get_elem? tasks k ≡ some task
    → (segments_left p + 1 ≤ segments_left task.phase) ⊎ (is_done p ≡ true)
    → total task_left (put_back k (at_phase task p) tasks) < total task_left tasks
put_back-less k tasks task p e h = elim (Bool-cases (is_done p)) [
  | inl y ↦ rw y (omega (arith, total-remove task_left tasks k task e))
  | inr z ↦ rw z (ground (arith, h, total-set task_left tasks k task (at_phase task p) e))
]

ended_or_more : (p : Phase) → (p ≡ done) ⊎ (1 ≤ segments_left p)
ended_or_more p = ground arith

module _ (c : Config) (m : Moment) (w : World) where
  advance-less :
      (task : Task)
      → (segments_left (advance c m task w).0 + 1 ≤ segments_left task.phase)
        ⊎ (is_done (advance c m task w).0 ≡ true)
  unfolding advance
  advance-less task = elim (ended_or_more task.phase) [
    | inl e ↦ inr (rw e refl)
    | inr h ↦ inl (advance-Progress c m task task.phase w h).0
  ]

  pub claim_turn-Falls :
      (locked : ℕ → Bool) (name : String) (k : ℕ) (loop : Loop Batch)
      → claim_is_due true m k loop ≡ true
      → let next = (claim_turn c true m locked name k loop w).0 in
        Falls (claims_of loop) (left_of loop) (claims_of next) (left_of next)
  unfolding claim_turn
  claim_turn-Falls locked name k fresh h = inr (refl, omega arith)
  claim_turn-Falls locked name k returned h = cc
  claim_turn-Falls locked name k (napping until) h = inr (refl, omega arith)
  claim_turn-Falls locked name k (passing (claiming started)) h =
      let outcome =
        claim_due_jobs c.uuids locked m.now name c.settings.batch_size c.settings.lease_seconds
          w.db in
      inl (
        omega (
          arith,
          after_claim-settles c.settings m outcome
              (on_claimed (started + c.settings.lease_seconds) w outcome),
        ))
  claim_turn-Falls locked name k (passing (delivering tasks)) h =
      elim (Option-cases (get_elem? tasks k)) [
        | inl e ↦ rw e (missing tasks e h)
        | inr (task, e) ↦
            let next = advance c m task w in
            let left = put_back k (at_phase task next.0) tasks in
            rw e (
              inr (
                gathered-settles c.settings m left,
                omega (
                  arith,
                  gathered-left c.settings m left,
                  put_back-less k tasks task next.0 e (advance-less task),
                ),
              ))
      ]
    where
      missing :
          (ts : List Task)
          → get_elem? ts k ≡ none
          → claim_is_due true m k (passing (delivering ts)) ≡ true
          → Falls 0
              (suc (total task_left ts))
              (claims_of (gathered c.settings true m ts))
              (left_of (gathered c.settings true m ts))
      missing [] e h = inr (refl, omega arith)
      missing (t ∷ ts) e h = cc (rw e at h)

-- The dispatcher, with the dispatches that go on by themselves.
abbrev pub leases_of : Loop Round → ℕ
leases_of (passing leasing) = 1
leases_of _ = 0

abbrev pub round_left : Loop Round → ℕ
round_left fresh = 1
round_left returned = 0
round_left (napping until) = 1
round_left (passing leasing) = 1
round_left (passing (posting events)) = suc (suc (length events))

module _ (c : Config) (m : Moment) where
  after_lease-settles :
      (r : Result (List OutboxEvent × Db)) (w : World)
      → leases_of (after_lease c.settings true m r w).0 ≡ 0
  after_lease-settles (ok ([], db)) w = refl
  after_lease-settles (ok (event ∷ events, db)) w = refl
  after_lease-settles (raise e) w = refl

  after_dispatch-less :
      (left : List OutboxEvent) (end : Bool × World)
      → let next = after_dispatch c.settings true m left end in
        (leases_of next.0 ≡ 0) × (round_left next.0 + length next.2 ≤ suc (suc (length left)))
  after_dispatch-less [] (false, w) = (refl, omega arith)
  after_dispatch-less (event ∷ left) (false, w) = (refl, omega arith)
  after_dispatch-less left (true, w) = (refl, omega arith)

  pub dispatcher_turn-Falls :
      (locked : ℕ → Bool) (response : Response) (k : ℕ) (loop : Loop Round) (w : World)
      → dispatcher_is_due true m k loop ≡ true
      → let next = dispatcher_turn c true m locked response k loop w in
        Falls
          (leases_of loop)
          (round_left loop)
          (leases_of next.0)
          (round_left next.0 + length next.2)
  unfolding dispatcher_turn
  dispatcher_turn-Falls locked response k fresh w h = inr (refl, omega arith)
  dispatcher_turn-Falls locked response k returned w h = cc
  dispatcher_turn-Falls locked response k (napping until) w h = inr (refl, omega arith)
  dispatcher_turn-Falls locked response k (passing leasing) w h =
      inl (omega (arith, after_lease-settles (claim_pass c.settings locked m.now w.db) w))
  dispatcher_turn-Falls locked response k (passing (posting events)) w h =
      elim (Option-cases (get_elem? events k)) [
        | inl e ↦ rw e (missing events e h)
        | inr (event, e) ↦
            let (settled, less) =
              after_dispatch-less (remove k events)
                (commit_dispatch (dispatch c.settings c.decimal m.rng m.now event response) w) in
            rw e (inr (settled, omega (arith, less, length-remove events k event e)))
      ]
    where
      missing :
          (es : List OutboxEvent)
          → get_elem? es k ≡ none
          → dispatcher_is_due true m k (passing (posting es)) ≡ true
          → Falls 0
              (suc (suc (length es)))
              (leases_of (posted_all c.settings true m es))
              (round_left (posted_all c.settings true m es) + 0)
      missing [] e h = inr (refl, omega arith)
      missing (t ∷ ts) e h = cc (rw e at h)

abbrev pub reaper_left : Loop (Unit {0}) → ℕ
reaper_left fresh = 1
reaper_left returned = 0
reaper_left (napping until) = 1
reaper_left (passing tt) = 2

abbrev pub watcher_left : Loop ⊥ → ℕ
watcher_left returned = 0
watcher_left _ = 1
