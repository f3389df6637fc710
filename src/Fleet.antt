-- ===== src/Fleet.antt =====
-- The running system: workers, reapers, dispatchers and API processes on one database, one Redis and one
-- provider (docs: DESIGN.md). An event is one atomic segment of one of them, at its await or commit.
pub mod Paths
pub mod Segments
pub mod Events
pub mod Starts
pub mod Sending
pub mod Backed
pub mod Delivered
pub mod Refinement
pub mod Lease
pub mod Healthy
use notify_queue.Prelude.{ℕ, suc, zero, String, Bool, Option, none, some, List, [], ◌∷◌, ◌++◌}
use notify_queue.Domain.{NewJob}
use notify_queue.Domain.Backoff.{Uniform}
use notify_queue.Domain.Schemas.{JobOut}
use notify_queue.Tables.{Db, empty_db}
use notify_queue.Tables.Tx.{Result, ok, raise, Tx}
use notify_queue.Jobs.Create.{create_job}
use notify_queue.Jobs.Finalize.{Transition}
use notify_queue.Outbox.{OutboxEvent}
use notify_queue.Cache.{Link, Entry, invalidate}
use notify_queue.Worker.{World, Config, Moment, Phase, done, Task}
use notify_queue.Worker.Delivery.{advance, at_phase, run_batch}
use notify_queue.Reaper.{run_once}
use notify_queue.Dispatcher.{Response, claim_pass, dispatch}
use notify_queue.Services.DeadLetters.{requeue, extra_or_default}

pub record Fleet : Type 0 where
  pub world : World
  pub tasks : List Task

pub data Event : Type 0 where
  requested : (now : ℕ) (new : NewJob) → Event
  polled : (locked : ℕ → Bool) (loop_id : String) (monotonic now : ℕ) → Event
  advanced : (task_no : ℕ) (m : Moment) → Event
  crashed : (task_no : ℕ) → Event
  reaped : (locked : ℕ → Bool) (now : ℕ) → Event
  requeued : (link : Link) (now job_id : ℕ) (extra_attempts : Option ℕ) → Event
  invalidated : (link : Link) → Event
  leased : (locked : ℕ → Bool) (now : ℕ) → Event
  posted : (now : ℕ) (rng : Uniform) (event : OutboxEvent) (response : Response) → Event

-- `async with engine.begin()`: an exception rolls back.
abbrev pub commit : {A : Type 0} → Result (A × Db) → World → World
commit (ok (a, db)) w = record w { db = db }
commit (raise e) w = w

abbrev pub commit_if : Option (Tx (Unit {0})) → World → World
commit_if none w = w
commit_if (some tx) w = commit (tx w.db) w

-- The first of the background tasks runs.
abbrev pub drain_one : Link → List Transition → World → World
drain_one link [] w = w
drain_one link (t ∷ ts) w = record w {
  tasks = ts;
  cache = invalidate JobOut link t.job_id t.version w.cache;
}

abbrev pub task_at : ℕ → List Task → Option Task
task_at n [] = none
task_at zero (t ∷ ts) = some t
task_at (suc n) (t ∷ ts) = task_at n ts

abbrev pub put_task : ℕ → Task → List Task → List Task
put_task n task [] = []
put_task zero task (t ∷ ts) = task ∷ ts
put_task (suc n) task (t ∷ ts) = t ∷ put_task n task ts

abbrev pub step_task : Config → ℕ → Moment → Option Task → Fleet → Fleet
step_task c n m none s = s
step_task c n m (some task) s =
    let next = advance c m task s.world in
    record { world = next.1; tasks = put_task n (at_phase task next.0) s.tasks }

-- The process of the task is gone.
abbrev pub drop_task : ℕ → Option Task → Fleet → Fleet
drop_task n none s = s
drop_task n (some task) s = record s { tasks = put_task n (at_phase task done) s.tasks }

unfoldable pub handle : Config → Event → Fleet → Fleet
handle c (requested now new) s = record s {
  world = commit (create_job c.uuids now new s.world.db) s.world;
}
handle c (polled locked loop_id monotonic now) s =
    let started = run_batch c locked loop_id monotonic now s.world in
    record { world = started.1; tasks = s.tasks ++ started.0 }
handle c (advanced n m) s = step_task c n m (task_at n s.tasks) s
handle c (crashed n) s = drop_task n (task_at n s.tasks) s
handle c (reaped locked now) s = record s { world = (run_once c locked now s.world).1 }
handle c (requeued link now job_id extra) s =
    let w = s.world in
    let left =
      (requeue link now job_id (extra_or_default extra c.settings.max_attempts) w.cache w.db).1 in
    record s { world = record w { cache = left.0; db = left.1 } }
handle c (invalidated link) s = record s { world = drain_one link s.world.tasks s.world }
handle c (leased locked now) s = record s {
  world = commit (claim_pass c.settings locked now s.world.db) s.world;
}
handle c (posted now rng event response) s = record s {
  world = commit_if (dispatch c.settings c.decimal rng now event response) s.world;
}

unfoldable pub run_events : Config → List Event → Fleet → Fleet
run_events c [] s = s
run_events c (e ∷ es) s = run_events c es (handle c e s)

-- Empty tables, an empty Redis, a provider without requests, and no delivery in flight.
abbrev pub idle : Fleet
idle = record {
  world = record {
    db = empty_db;
    slots = λ r. [];
    cache = λ i. none;
    provider = [];
    tasks = [];
    stats = [];
  };
  tasks = [];
}
