-- ===== src/Polling.antt =====
-- The tasks of a worker process that run until the stop event is set: the claim loops of
-- src/notify_queue/worker/loop.py, and `run` of reaper.py and webhook_dispatcher.py, with `sleep_or_stop` of
-- common.py. A task runs from one await to the next; a turn is told the moment.
use notify_queue.Prelude.{
  ℕ, zero, suc, ◌+◌, ◌/◌, String, Bool, true, false, ◌||◌, Option, none, some, List, [], ◌∷◌, leb,
  get_elem?, remove, set, if◌then◌else◌,
}
use notify_queue.Domain.{Job}
use notify_queue.Domain.Backoff.{Uniform}
use notify_queue.Settings.{Settings}
use notify_queue.Tables.{Db}
use notify_queue.Tables.Tx.{Result, ok, raise, Tx}
use notify_queue.Jobs.Claim.{claim_due_jobs}
use notify_queue.Outbox.{OutboxEvent}
use notify_queue.Worker.{World, Config, Moment, Phase, done, Task}
use notify_queue.Worker.Delivery.{advance, at_phase, on_claimed}
use notify_queue.Reaper.{run_once}
use notify_queue.Dispatcher.{Response, claim_pass, dispatch}

-- Where a task waits: it has not run yet; it is in a pass; it sleeps until a time of the process's clock;
-- or `run` has returned.
pub data Loop (Pass : Type 0) : Type 0 where
  fresh returned : Loop Pass
  passing : Pass → Loop Pass
  napping : (until : ℕ) → Loop Pass

module _ {Pass : Type 0} where
  -- `while not stop.is_set()`, and the start of the next pass.
  abbrev pub next_pass : Bool → Pass → Loop Pass
  next_pass stop start = if stop then returned else passing start

-- `sleep_or_stop` is over.
abbrev pub is_awake : Bool → (monotonic until : ℕ) → Bool
is_awake stop monotonic until = stop || leb until monotonic

-- `poll_interval * random.uniform(0.5, 1.5)`
abbrev pub jittered : Uniform → ℕ → ℕ
jittered rng seconds = seconds / 2 + rng.uniform seconds

-- A pass of a claim loop: at its claim, before which it read the clock, or at the deliveries of its batch.
pub data Batch : Type 0 where
  claiming : (started : ℕ) → Batch
  delivering : List Task → Batch

-- The end of `run_batch`, at the number of jobs that it claimed; an exception counts as 0.
abbrev pub after_batch : Settings → Bool → Moment → (claimed : ℕ) → Loop Batch
after_batch s stop m zero = napping (m.monotonic + jittered m.rng s.poll_interval)
after_batch s stop m (suc n) = next_pass stop (claiming m.monotonic)

-- The deliveries that are left of a batch that claimed something; `gather` returns after the last.
abbrev pub gathered : Settings → Bool → Moment → List Task → Loop Batch
gathered s stop m [] = after_batch s stop m 1
gathered s stop m (task ∷ tasks) = passing (delivering (task ∷ tasks))

-- The claim's outcome: what it leads to, and whether it sets `last_activity`.
abbrev pub after_claim :
    Settings
    → Bool
    → Moment
    → Result (List Job × Db)
    → List Task × World
    → Loop Batch × World × Bool
after_claim s stop m (ok ([], db)) started = (after_batch s stop m 0, started.1, false)
after_claim s stop m (ok (job ∷ jobs, db)) started = (gathered s stop m started.0, started.1, true)
after_claim s stop m (raise e) started = (after_batch s stop m 0, started.1, false)

abbrev pub is_done : Phase → Bool
is_done done = true
is_done _ = false

-- The k-th delivery after a segment.
abbrev pub put_back : ℕ → Task → List Task → List Task
put_back k task tasks = if is_done task.phase then remove k tasks else set tasks k task

-- The k-th delivery of the batch goes on.
abbrev pub deliver_one :
    Config → Bool → Moment → ℕ → List Task → Option Task → World → Loop Batch × World × Bool
deliver_one c stop m k tasks none w = (gathered c.settings stop m tasks, w, false)
deliver_one c stop m k tasks (some task) w =
    let next = advance c m task w in
    (gathered c.settings stop m (put_back k (at_phase task next.0) tasks), next.1, false)

-- A turn of `_loop`: the loop, what it did to the world, and whether it claimed jobs.
unfoldable pub claim_turn :
    Config
    → Bool
    → Moment
    → (locked : ℕ → Bool) (loop_id : String) (k : ℕ) → Loop Batch
    → World
    → Loop Batch × World × Bool
claim_turn c stop m locked loop_id k fresh w = (next_pass stop (claiming m.monotonic), w, false)
claim_turn c stop m locked loop_id k returned w = (returned, w, false)
claim_turn c stop m locked loop_id k (napping until) w = (
  (if is_awake stop m.monotonic until
      then next_pass stop (claiming m.monotonic)
      else napping until),
  w,
  false,
)
claim_turn c stop m locked loop_id k (passing (claiming started)) w =
    let s = c.settings in
    let outcome = claim_due_jobs c.uuids locked m.now loop_id s.batch_size s.lease_seconds w.db in
    after_claim s stop m outcome (on_claimed (started + s.lease_seconds) w outcome)
claim_turn c stop m locked loop_id k (passing (delivering tasks)) w =
    deliver_one c stop m k tasks (get_elem? tasks k) w

-- A turn of the reaper's `run`: its pass is one transaction, `run_once`.
unfoldable pub reaper_turn :
    Config → Bool → Moment → (locked : ℕ → Bool) → Loop (Unit {0}) → World → Loop (Unit {0}) × World
reaper_turn c stop m locked fresh w = (next_pass stop tt, w)
reaper_turn c stop m locked returned w = (returned, w)
reaper_turn c stop m locked (napping until) w =
    ((if is_awake stop m.monotonic until then next_pass stop tt else napping until), w)
reaper_turn c stop m locked (passing tt) w =
    (napping (m.monotonic + c.settings.reaper_interval), (run_once c locked m.now w).1)

-- A pass of the dispatcher: at its claim, or at the POSTs of the events that it claimed.
pub data Round : Type 0 where
  leasing : Round
  posting : List OutboxEvent → Round

-- The end of the dispatcher's `run_once`, at the number of events; an exception counts as 0.
abbrev pub after_round : Settings → Bool → Moment → (sent : ℕ) → Loop Round
after_round s stop m zero = napping (m.monotonic + s.webhook_poll_interval)
after_round s stop m (suc n) = next_pass stop leasing

abbrev pub posted_all : Settings → Bool → Moment → List OutboxEvent → Loop Round
posted_all s stop m [] = after_round s stop m 1
posted_all s stop m (event ∷ events) = passing (posting (event ∷ events))

abbrev pub after_lease :
    Settings → Bool → Moment → Result (List OutboxEvent × Db) → World → Loop Round × World
after_lease s stop m (ok ([], db)) w = (after_round s stop m 0, record w { db = db })
after_lease s stop m (ok (event ∷ events, db)) w =
    (passing (posting (event ∷ events)), record w { db = db })
after_lease s stop m (raise e) w = (after_round s stop m 0, w)

-- The transaction that ends a dispatch: whether an exception leaves `_dispatch`, and the world.
abbrev pub commit_dispatch : Option (Tx (Unit {0})) → World → Bool × World
commit_dispatch none w = (true, w)
commit_dispatch (some tx) w = elim (tx w.db) [
  | ok (_, db) ↦ (false, record w { db = db })
  | raise e ↦ (true, w)
]

-- A dispatch has ended. An exception ends the pass, and the other dispatches of it go on by themselves.
abbrev pub after_dispatch :
    Settings
    → Bool
    → Moment
    → (left : List OutboxEvent) → Bool × World
    → Loop Round × World × List OutboxEvent
after_dispatch s stop m left (false, w) = (posted_all s stop m left, w, [])
after_dispatch s stop m left (true, w) = (after_round s stop m 0, w, left)

-- The k-th dispatch of the pass ends, with the response to its POST.
abbrev pub dispatch_one :
    Config
    → Bool
    → Moment
    → Response
    → ℕ
    → List OutboxEvent
    → Option OutboxEvent
    → World
    → Loop Round × World × List OutboxEvent
dispatch_one c stop m response k events none w = (posted_all c.settings stop m events, w, [])
dispatch_one c stop m response k events (some event) w =
    after_dispatch c.settings stop m (remove k events)
      (commit_dispatch (dispatch c.settings c.decimal m.rng m.now event response) w)

-- A turn of the dispatcher's `run`: the loop, the world, and the dispatches that no longer have a pass.
unfoldable pub dispatcher_turn :
    Config
    → Bool
    → Moment
    → (locked : ℕ → Bool) → Response
    → (k : ℕ) → Loop Round
    → World
    → Loop Round × World × List OutboxEvent
dispatcher_turn c stop m locked response k fresh w = (next_pass stop leasing, w, [])
dispatcher_turn c stop m locked response k returned w = (returned, w, [])
dispatcher_turn c stop m locked response k (napping until) w =
    ((if is_awake stop m.monotonic until then next_pass stop leasing else napping until), w, [])
dispatcher_turn c stop m locked response k (passing leasing) w =
    let leased = after_lease c.settings stop m (claim_pass c.settings locked m.now w.db) w in
    (leased.0, leased.1, [])
dispatcher_turn c stop m locked response k (passing (posting events)) w =
    dispatch_one c stop m response k events (get_elem? events k) w
