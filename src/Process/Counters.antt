-- ===== src/Process/Counters.antt =====
-- The counters of a process and its deliveries in flight, over one turn of each task.
use notify_queue.Prelude.{
  ℕ, suc, ◌+◌, ◌≡◌, refl, ◌∙◌, inl, inr, String, Bool, true, false, Option, none, some, List, [],
  ◌∷◌, ◌++◌, arith, length, get_elem?, remove, total, total-set, total-remove, Bool-cases,
  Option-cases,
}
use notify_queue.Domain.{Job}
use notify_queue.Settings.{Settings}
use notify_queue.Tables.{Db}
use notify_queue.Tables.Tx.{Result, ok, raise, Tx}
use notify_queue.Jobs.Claim.{claim_due_jobs}
use notify_queue.Jobs.Finalize.{Transition}
use notify_queue.Outbox.{OutboxEvent}
use notify_queue.Worker.{errors, count, schedule_invalidation, World, Config, Moment, Phase, Task}
use notify_queue.Worker.Delivery.{advance, at_phase, on_claimed, start_all, start_under}
use notify_queue.Worker.Accounting.{endings, owes, count_ending, schedule_invalidation-endings}
use notify_queue.Worker.Termination.{advance-Progress, ended_or_not}
use notify_queue.Reaper.{run_once, reap_pass, on_reaped, invalidate_all}
use notify_queue.Dispatcher.{Response, dispatch, claim_pass}
use notify_queue.Polling.{
  Loop, fresh, returned, passing, napping, Batch, claiming, delivering, gathered, after_claim,
  is_done, put_back, claim_turn, reaper_turn, after_lease, commit_dispatch, after_dispatch,
  dispatch_one, dispatcher_turn, Round, leasing, posting,
}

-- The jobs that a turn claims: those that the claim of a loop returns.
abbrev pub claimed_of : Result (List Job × Db) → ℕ
claimed_of (ok (jobs, db)) = length jobs
claimed_of (raise e) = 0

abbrev pub loop_claims : Config → Moment → (ℕ → Bool) → String → Option (Loop Batch) → World → ℕ
loop_claims c m locked name (some (passing (claiming started))) w =
    claimed_of
      (claim_due_jobs c.uuids locked m.now name c.settings.batch_size c.settings.lease_seconds w.db)
loop_claims c m locked name _ w = 0

-- The deliveries that have not ended.
abbrev pub task_owes : Task → ℕ
task_owes task = owes task.phase

abbrev pub deliveries_of : Loop Batch → ℕ
deliveries_of (passing (delivering tasks)) = total task_owes tasks
deliveries_of _ = 0

start_all-counted :
    (deadline : ℕ) (jobs : List Job) (w : World)
    → let started = start_all deadline jobs w in
      endings started.1 + total task_owes started.0 ≡ endings w + length jobs
unfolding start_all total
start_all-counted deadline [] w = omega arith
start_all-counted deadline (job ∷ jobs) w =
    started job.claim_token (λ v. start_all-counted deadline jobs v)
  where
    started :
        (t : Option ℕ)
        → ((v : World)
            → endings (start_all deadline jobs v).1 + total task_owes (start_all deadline jobs v).0
              ≡ endings v + length jobs)
        → let one = start_under t deadline job w in
          let rest = start_all deadline jobs one.1 in
          endings rest.1 + total task_owes (one.0 ++ rest.0) ≡ endings w + suc (length jobs)
    started none rest = omega (arith, rest (count errors w), count_ending w errors refl)
    started (some t) rest = omega (arith, rest w)

-- What a turn of a claim loop does to the counters and to the deliveries in flight.
abbrev pub Balances : (before claimed : ℕ) → World → Loop Batch × World × Bool → Type 0
Balances before claimed w next =
    endings next.1 + deliveries_of next.0 ≡ endings w + before + claimed

module _ (s : Settings) (stop : Bool) (m : Moment) where
  gathered-deliveries :
      (tasks : List Task) → deliveries_of (gathered s stop m tasks) ≡ total task_owes tasks
  unfolding total
  gathered-deliveries [] = ground arith
  gathered-deliveries (task ∷ tasks) = refl

  after_claim-Balances :
      (deadline : ℕ) (w : World) (r : Result (List Job × Db))
      → Balances 0 (claimed_of r) w (after_claim s stop m r (on_claimed deadline w r))
  unfolding start_all
  after_claim-Balances deadline w (raise e) = omega arith
  after_claim-Balances deadline w (ok ([], db)) = omega arith
  after_claim-Balances deadline w (ok (job ∷ jobs, db)) =
      let started = start_all deadline (job ∷ jobs) (record w { db = db }) in
      omega (
        arith,
        gathered-deliveries started.0,
        start_all-counted deadline (job ∷ jobs) (record w { db = db }),
      )

owes-done : (p : Phase) → is_done p ≡ true → owes p ≡ 0
owes-done p h = ground arith

put_back-owes :
    (k : ℕ) (tasks : List Task) (task : Task) (p : Phase)
    → get_elem? tasks k ≡ some task
    → total task_owes (put_back k (at_phase task p) tasks) + owes task.phase
      ≡ total task_owes tasks + owes p
put_back-owes k tasks task p e = elim (Bool-cases (is_done p)) [
  | inl y ↦ rw y (omega (arith, total-remove task_owes tasks k task e, owes-done p y))
  | inr z ↦ rw z (total-set task_owes tasks k task (at_phase task p) e)
]

module _ (c : Config) (m : Moment) (w : World) where
  advance-owes :
      (task : Task)
      → let next = advance c m task w in endings next.1 + owes next.0 ≡ endings w + owes task.phase
  unfolding advance
  advance-owes task = elim (ended_or_not task.phase) [
    | inl e ↦ rw e refl
    | inr (more, owed) ↦ omega (arith, owed, (advance-Progress c m task task.phase w more).1)
  ]

  pub claim_turn-Balances :
      (stop : Bool) (locked : ℕ → Bool) (name : String) (k : ℕ) (loop : Loop Batch)
      → Balances
          (deliveries_of loop)
          (loop_claims c m locked name (some loop) w)
          w
          (claim_turn c stop m locked name k loop w)
  unfolding claim_turn
  claim_turn-Balances stop locked name k fresh = ground arith
  claim_turn-Balances stop locked name k returned = omega arith
  claim_turn-Balances stop locked name k (napping until) = ground arith
  claim_turn-Balances stop locked name k (passing (claiming started)) =
      after_claim-Balances c.settings stop m (started + c.settings.lease_seconds) w (
        claim_due_jobs c.uuids locked m.now name c.settings.batch_size c.settings.lease_seconds
          w.db)
  claim_turn-Balances stop locked name k (passing (delivering tasks)) =
      elim (Option-cases (get_elem? tasks k)) [
        | inl e ↦ rw e (omega (arith, gathered-deliveries c.settings stop m tasks))
        | inr (task, e) ↦
            let next = advance c m task w in
            let left = put_back k (at_phase task next.0) tasks in
            rw e (
              omega (
                arith,
                gathered-deliveries c.settings stop m left,
                put_back-owes k tasks task next.0 e,
                advance-owes task,
              ))
      ]

-- The other tasks leave the counters alone.
invalidate_all-endings :
    (s : Settings) (ts : List Transition) (w : World) → endings (invalidate_all s ts w) ≡ endings w
invalidate_all-endings s [] w = refl
invalidate_all-endings s (t ∷ ts) w =
    invalidate_all-endings s ts (schedule_invalidation s t w) ∙ schedule_invalidation-endings w s t

on_reaped-endings :
    (s : Settings) (w : World) (r : Result (List Transition × Db))
    → endings (on_reaped s w r).1 ≡ endings w
on_reaped-endings s w (ok (ts, db)) = invalidate_all-endings s ts (record w { db = db })
on_reaped-endings s w (raise e) = refl

pub reaper_turn-endings :
    (c : Config) (stop : Bool) (m : Moment) (locked : ℕ → Bool) (loop : Loop (Unit {0})) (w : World)
    → endings (reaper_turn c stop m locked loop w).1 ≡ endings w
unfolding reaper_turn run_once
reaper_turn-endings c stop m locked fresh w = refl
reaper_turn-endings c stop m locked returned w = refl
reaper_turn-endings c stop m locked (napping until) w = refl
reaper_turn-endings c stop m locked (passing tt) w =
    on_reaped-endings c.settings w (reap_pass c locked m.now w.db)

pub commit_dispatch-endings :
    (t : Option (Tx (Unit {0}))) (w : World) → endings (commit_dispatch t w).1 ≡ endings w
commit_dispatch-endings none w = refl
commit_dispatch-endings (some tx) w = ground arith

pub dispatcher_turn-endings :
    (c : Config) (stop : Bool) (m : Moment) (locked : ℕ → Bool) (response : Response) (k : ℕ)
    (loop : Loop Round) (w : World)
    → endings (dispatcher_turn c stop m locked response k loop w).1 ≡ endings w
unfolding dispatcher_turn
dispatcher_turn-endings c stop m locked response k fresh w = refl
dispatcher_turn-endings c stop m locked response k returned w = refl
dispatcher_turn-endings c stop m locked response k (napping until) w = refl
dispatcher_turn-endings c stop m locked response k (passing leasing) w =
    leased (claim_pass c.settings locked m.now w.db)
  where
    leased :
        (r : Result (List OutboxEvent × Db))
        → endings (after_lease c.settings stop m r w).1 ≡ endings w
    leased (ok ([], db)) = refl
    leased (ok (event ∷ events, db)) = refl
    leased (raise e) = refl
dispatcher_turn-endings c stop m locked response k (passing (posting events)) w =
    posted (get_elem? events k)
  where
    ended :
        (left : List OutboxEvent) (end : Bool × World)
        → endings (after_dispatch c.settings stop m left end).1 ≡ endings end.1
    ended left (false, v) = refl
    ended left (true, v) = refl

    posted :
        (o : Option OutboxEvent)
        → endings (dispatch_one c stop m response k events o w).1 ≡ endings w
    posted none = refl
    posted (some event) =
        let tx = dispatch c.settings c.decimal m.rng m.now event response in
        ended (remove k events) (commit_dispatch tx w) ∙ commit_dispatch-endings tx w
