-- ===== src/Process.antt =====
-- src/notify_queue/worker/main.py: one worker process, which is `run_worker` with the claim loops of
-- `Worker.run`. Its tasks take turns at their awaits, in any order; what the other processes do to the world
-- between two turns is the world of the turn. The signal handlers and `idle_watch` set the stop event.
-- The log, the arguments of the command line and the set-up of the connections are left out.
pub mod Remaining
pub mod Stopping
pub mod Shutdown
pub mod Counters
pub mod Claimed
use notify_queue.Prelude.{
  ℕ, zero, suc, ◌+◌, ◌*◌, String, Bool, true, false, ◌||◌, ◌&&◌, Option, none, some, List, [], ◌∷◌,
  ◌++◌, ltb, get_elem?, remove, set, if◌then◌else◌, str_append,
}
use notify_queue.Domain.{Job}
use notify_queue.Domain.Schemas.{is_some}
use notify_queue.Settings.{Settings}
use notify_queue.Outbox.{OutboxEvent}
use notify_queue.Worker.{World, Config, Moment}
use notify_queue.Dispatcher.{Response, dispatch}
use notify_queue.Polling.{
  Loop, fresh, returned, passing, napping, is_awake, Batch, claiming, delivering, claim_turn,
  reaper_turn, Round, leasing, posting, commit_dispatch, dispatcher_turn,
}

-- In microseconds.
abbrev pub stats_interval : ℕ
stats_interval = 10 * 1000000

abbrev pub watch_interval : ℕ
watch_interval = 500000

-- The tasks of a process. `exit_when_idle` is the idle time that ends it, if one was given; `detached` are
-- the dispatches whose pass an exception ended.
pub record Process : Type 0 where
  pub stop : Bool
  pub last_activity : ℕ
  pub exit_when_idle : Option ℕ
  pub claim_loops : List (Loop Batch)
  pub reaper : Loop (Unit {0})
  pub dispatcher : Loop Round
  pub detached : List OutboxEvent
  pub reporter : Loop ⊥
  pub idle_watch : Loop ⊥

abbrev pub replicate : ℕ → Loop Batch → List (Loop Batch)
replicate zero x = []
replicate (suc n) x = x ∷ replicate n x

-- The tasks that `gather` starts.
unfoldable pub run_worker : Settings → (monotonic : ℕ) → Option ℕ → Process
run_worker s monotonic exit_when_idle = record {
  stop = false;
  last_activity = monotonic;
  exit_when_idle = exit_when_idle;
  claim_loops = replicate s.worker_concurrency fresh;
  reaper = fresh;
  dispatcher = fresh;
  detached = [];
  reporter = fresh;
  idle_watch = if is_some exit_when_idle then fresh else returned;
}

-- Whose turn it is: a signal, the k-th delivery or another await of the i-th claim loop, the reaper, the
-- k-th dispatch or another await of the dispatcher, a detached dispatch, or one of the two watchers.
pub data Turn : Type 0 where
  signalled : Turn
  of_claim_loop : (i k : ℕ) (locked : ℕ → Bool) → Turn
  of_reaper : (locked : ℕ → Bool) → Turn
  of_dispatcher : (k : ℕ) (locked : ℕ → Bool) (response : Response) → Turn
  of_detached : (k : ℕ) (response : Response) → Turn
  of_reporter : Turn
  of_idle_watch : Turn

-- `report`, and `idle_watch` but for its test: they sleep, and look at the stop event.
abbrev pub watcher_turn : Bool → Moment → (seconds : ℕ) → Loop ⊥ → Loop ⊥
watcher_turn stop m seconds fresh = if stop then returned else napping (m.monotonic + seconds)
watcher_turn stop m seconds returned = returned
watcher_turn stop m seconds (passing never) = elim never [ ]
watcher_turn stop m seconds (napping until) =
    if stop
    then returned
    else if is_awake stop m.monotonic until
    then napping (m.monotonic + seconds)
    else napping until

-- Whether a watcher goes on at its next turn.
abbrev pub is_due : Bool → Moment → Loop ⊥ → Bool
is_due stop m fresh = true
is_due stop m returned = false
is_due stop m (passing never) = elim never [ ]
is_due stop m (napping until) = is_awake stop m.monotonic until

-- `monotonic() - worker.last_activity > idle_seconds`
abbrev pub is_idle : Process → Moment → Option ℕ → Bool
is_idle p m none = false
is_idle p m (some idle_seconds) = ltb (p.last_activity + idle_seconds) m.monotonic

-- Whether a claim loop that gets the turn has something to do: none while it sleeps, or for a delivery
-- that it does not have.
abbrev pub claim_is_due : Bool → Moment → (k : ℕ) → Loop Batch → Bool
claim_is_due stop m k fresh = true
claim_is_due stop m k returned = false
claim_is_due stop m k (napping until) = is_awake stop m.monotonic until
claim_is_due stop m k (passing (claiming started)) = true
claim_is_due stop m k (passing (delivering [])) = true
claim_is_due stop m k (passing (delivering (task ∷ tasks))) = is_some (get_elem? (task ∷ tasks) k)

abbrev pub reaper_is_due : Bool → Moment → Loop (Unit {0}) → Bool
reaper_is_due stop m fresh = true
reaper_is_due stop m returned = false
reaper_is_due stop m (napping until) = is_awake stop m.monotonic until
reaper_is_due stop m (passing tt) = true

abbrev pub dispatcher_is_due : Bool → Moment → (k : ℕ) → Loop Round → Bool
dispatcher_is_due stop m k fresh = true
dispatcher_is_due stop m k returned = false
dispatcher_is_due stop m k (napping until) = is_awake stop m.monotonic until
dispatcher_is_due stop m k (passing leasing) = true
dispatcher_is_due stop m k (passing (posting [])) = true
dispatcher_is_due stop m k (passing (posting (event ∷ events))) =
    is_some (get_elem? (event ∷ events) k)

abbrev pub loop_is_due : Bool → Moment → (k : ℕ) → Option (Loop Batch) → Bool
loop_is_due stop m k none = false
loop_is_due stop m k (some loop) = claim_is_due stop m k loop

-- Whether the task whose turn it is goes on: the event loop gives no other turns.
abbrev pub goes_on : Turn → Moment → Process → Bool
goes_on signalled m p = false
goes_on (of_claim_loop i k locked) m p = loop_is_due p.stop m k (get_elem? p.claim_loops i)
goes_on (of_reaper locked) m p = reaper_is_due p.stop m p.reaper
goes_on (of_dispatcher k locked response) m p = dispatcher_is_due p.stop m k p.dispatcher
goes_on (of_detached k response) m p = is_some (get_elem? p.detached k)
goes_on of_reporter m p = is_due p.stop m p.reporter
goes_on of_idle_watch m p = is_due p.stop m p.idle_watch

abbrev pub loop_name : Config → ℕ → String
loop_name c i = str_append c.worker_id (str_append "/" (c.decimal i))

-- The i-th claim loop's turn, if there is one.
abbrev pub claim_loop_turn :
    Config
    → Moment
    → (i k : ℕ) (locked : ℕ → Bool) → Option (Loop Batch)
    → Process
    → World
    → Process × World
claim_loop_turn c m i k locked none p w = (p, w)
claim_loop_turn c m i k locked (some loop) p w =
    let run = claim_turn c p.stop m locked (loop_name c i) k loop w in
    (
      record p {
        claim_loops = set p.claim_loops i run.0;
        last_activity = if run.2 then m.monotonic else p.last_activity;
      },
      run.1,
    )

abbrev pub detached_turn :
    Config → Moment → (k : ℕ) → Response → Option OutboxEvent → Process → World → Process × World
detached_turn c m k response none p w = (p, w)
detached_turn c m k response (some event) p w = (
  record p { detached = remove k p.detached },
  (commit_dispatch (dispatch c.settings c.decimal m.rng m.now event response) w).1,
)

-- One turn.
unfoldable pub take_turn : Config → Turn → Moment → Process → World → Process × World
take_turn c signalled m p w = (record p { stop = true }, w)
take_turn c (of_claim_loop i k locked) m p w =
    claim_loop_turn c m i k locked (get_elem? p.claim_loops i) p w
take_turn c (of_reaper locked) m p w =
    let run = reaper_turn c p.stop m locked p.reaper w in (record p { reaper = run.0 }, run.1)
take_turn c (of_dispatcher k locked response) m p w =
    let run = dispatcher_turn c p.stop m locked response k p.dispatcher w in
    (record p { dispatcher = run.0; detached = p.detached ++ run.2 }, run.1)
take_turn c (of_detached k response) m p w =
    detached_turn c m k response (get_elem? p.detached k) p w
take_turn c of_reporter m p w =
    (record p { reporter = watcher_turn p.stop m stats_interval p.reporter }, w)
take_turn c of_idle_watch m p w =
    let quits = is_due p.stop m p.idle_watch && is_idle p m p.exit_when_idle in
    (
      record p {
        stop = p.stop || quits;
        idle_watch = watcher_turn p.stop m watch_interval p.idle_watch;
      },
      w,
    )
