-- ===== src/Process/Stopping.antt =====
-- One turn of a process whose stop event is set.
use notify_queue.Prelude.{
  ℕ, ◌+◌, ◌≤◌, ◌<◌, ◌≡◌, refl, inl, inr, Bool, true, false, ◌++◌, String, arith, length,
  length-append, get_elem?, set, total, total-set, length-remove, Option-cases,
}
use notify_queue.Worker.{World, Config, Moment}
use notify_queue.Dispatcher.{Response}
use notify_queue.Polling.{
  Loop, fresh, returned, passing, napping, Batch, claim_turn, reaper_turn, Round, dispatcher_turn,
}
use notify_queue.Process.{
  Process, Turn, signalled, of_claim_loop, of_reaper, of_dispatcher, of_detached, of_reporter,
  of_idle_watch, claim_is_due, reaper_is_due, dispatcher_is_due, is_due, watcher_turn, goes_on,
  take_turn, loop_name, stats_interval, watch_interval,
}
use notify_queue.Process.Remaining.{
  claims_of, left_of, Falls, claim_turn-Falls, leases_of, round_left, dispatcher_turn-Falls,
  reaper_left, watcher_left,
}

-- The claims that are on their way, and the awaits that the process has before it at most.
abbrev pub claims : Process → ℕ
claims p = total claims_of p.claim_loops + leases_of p.dispatcher

abbrev pub left : Process → ℕ
left p =
    total left_of p.claim_loops
    + reaper_left p.reaper
    + round_left p.dispatcher
    + length p.detached
    + watcher_left p.reporter
    + watcher_left p.idle_watch

module _ {Pass : Type 0} where
  abbrev pub is_passing : Loop Pass → ℕ
  is_passing (passing x) = 1
  is_passing _ = 0

-- The tasks that are in a pass.
abbrev pub passes : Process → ℕ
passes p = total is_passing p.claim_loops + is_passing p.reaper + is_passing p.dispatcher

is_passing-le-one : {Pass : Type 0} (loop : Loop Pass) → is_passing loop ≤ 1
is_passing-le-one fresh = omega arith
is_passing-le-one returned = omega arith
is_passing-le-one (passing x) = omega arith
is_passing-le-one (napping until) = omega arith

-- Each kind of task, at a stop event that is set.
module _ (c : Config) (m : Moment) (w : World) where
  claim_Stops :
      (stop : Bool) (locked : ℕ → Bool) (name : String) (k : ℕ) (loop : Loop Batch)
      → stop ≡ true
      → claim_is_due stop m k loop ≡ true
      → let next = (claim_turn c stop m locked name k loop w).0 in
        Falls (claims_of loop) (left_of loop) (claims_of next) (left_of next)
        × (is_passing next ≤ is_passing loop)
  unfolding claim_turn
  claim_Stops true locked name k loop e h = (claim_turn-Falls c m w locked name k loop h, kept loop)
    where
      kept : (x : Loop Batch) → is_passing (claim_turn c true m locked name k x w).0 ≤ is_passing x
      kept fresh = omega arith
      kept returned = omega arith
      kept (napping until) = omega arith
      kept (passing x) = is_passing-le-one (claim_turn c true m locked name k (passing x) w).0
  claim_Stops false locked name k loop e h = cc

  reaper_Stops :
      (stop : Bool) (locked : ℕ → Bool) (loop : Loop (Unit {0}))
      → stop ≡ true
      → reaper_is_due stop m loop ≡ true
      → let next = (reaper_turn c stop m locked loop w).0 in
        (reaper_left next < reaper_left loop) × (is_passing next ≤ is_passing loop)
  unfolding reaper_turn
  reaper_Stops true locked fresh e h = (omega arith, omega arith)
  reaper_Stops true locked returned e h = cc
  reaper_Stops true locked (napping until) e h = (omega arith, omega arith)
  reaper_Stops true locked (passing tt) e h = (omega arith, omega arith)
  reaper_Stops false locked loop e h = cc

  dispatcher_Stops :
      (stop : Bool) (locked : ℕ → Bool) (response : Response) (k : ℕ) (loop : Loop Round)
      → stop ≡ true
      → dispatcher_is_due stop m k loop ≡ true
      → let next = dispatcher_turn c stop m locked response k loop w in
        Falls
          (leases_of loop)
          (round_left loop)
          (leases_of next.0)
          (round_left next.0 + length next.2)
        × (is_passing next.0 ≤ is_passing loop)
  unfolding dispatcher_turn
  dispatcher_Stops true locked response k loop e h =
      (dispatcher_turn-Falls c m locked response k loop w h, kept loop)
    where
      kept :
          (x : Loop Round)
          → is_passing (dispatcher_turn c true m locked response k x w).0 ≤ is_passing x
      kept fresh = omega arith
      kept returned = omega arith
      kept (napping until) = omega arith
      kept (passing x) =
          is_passing-le-one (dispatcher_turn c true m locked response k (passing x) w).0
  dispatcher_Stops false locked response k loop e h = cc

watcher_Stops :
    (m : Moment) (stop : Bool) (seconds : ℕ) (loop : Loop ⊥)
    → stop ≡ true
    → is_due stop m loop ≡ true
    → watcher_left (watcher_turn stop m seconds loop) < watcher_left loop
watcher_Stops m true seconds fresh e h = omega arith
watcher_Stops m true seconds returned e h = cc
watcher_Stops m true seconds (napping until) e h = omega arith
watcher_Stops m true seconds (passing never) e h = elim never [ ]
watcher_Stops m false seconds loop e h = cc

-- One task's part of a whole.
Falls-whole :
    (a b a' b' claims left claims' left' : ℕ)
    → Falls a b a' b'
    → claims' + a ≡ claims + a'
    → left' + b ≡ left + b'
    → Falls claims left claims' left'
Falls-whole a b a' b' claims left claims' left' f one two = elim f [
  | inl fewer ↦ inl (omega arith)
  | inr (same, less) ↦ inr (omega arith, omega arith)
]

-- What one turn does to a stopped process.
abbrev pub Stops : Process → Process → Type 0
Stops p q = (q.stop ≡ true) × Falls (claims p) (left p) (claims q) (left q) × (passes q ≤ passes p)

module _ (c : Config) (m : Moment) (w : World) (p : Process) (stopped : p.stop ≡ true) where
  pub take_turn-Stops : (t : Turn) → goes_on t m p ≡ true → Stops p (take_turn c t m p w).0
  unfolding take_turn
  take_turn-Stops signalled h = cc
  take_turn-Stops (of_claim_loop i k locked) h = elim (Option-cases (get_elem? p.claim_loops i)) [
    | inl e ↦ cc (rw e at h)
    | inr (loop, e) ↦
        let (falls, kept) =
          claim_Stops c m w p.stop locked (loop_name c i) k loop stopped (rw e at h) in
        let next = (claim_turn c p.stop m locked (loop_name c i) k loop w).0 in
        let one = total-set claims_of p.claim_loops i loop next e in
        let two = total-set left_of p.claim_loops i loop next e in
        let three = total-set is_passing p.claim_loops i loop next e in
        rw e (
          stopped,
          Falls-whole (claims_of loop) (left_of loop) (claims_of next) (left_of next) (claims p)
              (left p) (total claims_of (set p.claim_loops i next) + leases_of p.dispatcher)
              (left (record p { claim_loops = set p.claim_loops i next })) falls
              (omega (arith, one)) (omega (arith, two)),
          omega (arith, kept, three),
        )
  ]
  take_turn-Stops (of_reaper locked) h =
      let (less, kept) = reaper_Stops c m w p.stop locked p.reaper stopped h in
      (stopped, inr (refl, omega (arith, less)), omega (arith, kept))
  take_turn-Stops (of_dispatcher k locked response) h =
      let run = dispatcher_turn c p.stop m locked response k p.dispatcher w in
      let (falls, kept) = dispatcher_Stops c m w p.stop locked response k p.dispatcher stopped h in
      let grown = length-append p.detached run.2 in
      (
        stopped,
        Falls-whole (leases_of p.dispatcher) (round_left p.dispatcher) (leases_of run.0)
            (round_left run.0 + length run.2) (claims p) (left p)
            (total claims_of p.claim_loops + leases_of run.0)
            (left (record p { dispatcher = run.0; detached = p.detached ++ run.2 })) falls
            (omega arith) (omega (arith, grown)),
        omega (arith, kept),
      )
  take_turn-Stops (of_detached k response) h = elim (Option-cases (get_elem? p.detached k)) [
    | inl e ↦ cc (rw e at h)
    | inr (event, e) ↦
        rw e (stopped, inr (refl, omega (arith, length-remove p.detached k event e)), omega arith)
  ]
  take_turn-Stops of_reporter h = (
    stopped,
    inr (refl, omega (arith, watcher_Stops m p.stop stats_interval p.reporter stopped h)),
    omega arith,
  )
  take_turn-Stops of_idle_watch h = (
    ground (arith, stopped),
    inr (refl, omega (arith, watcher_Stops m p.stop watch_interval p.idle_watch stopped h)),
    omega arith,
  )
