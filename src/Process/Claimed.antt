-- ===== src/Process/Claimed.antt =====
-- The deliveries of a process over all its turns: what it claims it ends.
use notify_queue.Prelude.{
  ℕ, zero, suc, ◌+◌, ◌≡◌, refl, inl, inr, true, Option, List, [], ◌∷◌, arith, get_elem?, total,
  total-set, Option-cases,
}
use notify_queue.Settings.{Settings}
use notify_queue.Worker.{World, Config, Moment}
use notify_queue.Worker.Accounting.{endings}
use notify_queue.Dispatcher.{dispatch}
use notify_queue.Polling.{Loop, fresh, returned, passing, napping, Batch, claim_turn}
use notify_queue.Process.{
  Process, Turn, signalled, of_claim_loop, of_reaper, of_dispatcher, of_detached, of_reporter,
  of_idle_watch, run_worker, replicate, take_turn, loop_name,
}
use notify_queue.Process.Shutdown.{all_of, all_returned}
use notify_queue.Process.Counters.{
  loop_claims, deliveries_of, claim_turn-Balances, reaper_turn-endings, commit_dispatch-endings,
  dispatcher_turn-endings,
}

-- A turn, the moment of it, and what the other processes have made of the world by then. The counters and
-- the background tasks are the process's own.
pub record Visit : Type 0 where
  pub turn : Turn
  pub moment : Moment
  pub meanwhile : World → World

abbrev pub seen_by : World → World → World
seen_by own meanwhile = record meanwhile { stats = own.stats; tasks = own.tasks }

unfoldable pub run_turns : Config → List Visit → Process → World → Process × World
run_turns c [] p w = (p, w)
run_turns c (v ∷ vs) p w =
    let next = take_turn c v.turn v.moment p (seen_by w (v.meanwhile w)) in
    run_turns c vs next.0 next.1

abbrev pub turn_claims : Config → Turn → Moment → Process → World → ℕ
turn_claims c (of_claim_loop i k locked) m p w =
    loop_claims c m locked (loop_name c i) (get_elem? p.claim_loops i) w
turn_claims c _ m p w = 0

unfoldable pub jobs_claimed : Config → List Visit → Process → World → ℕ
jobs_claimed c [] p w = 0
jobs_claimed c (v ∷ vs) p w =
    let seen = seen_by w (v.meanwhile w) in
    let next = take_turn c v.turn v.moment p seen in
    turn_claims c v.turn v.moment p seen + jobs_claimed c vs next.0 next.1

-- The deliveries that have not ended.
abbrev pub in_flight : Process → ℕ
in_flight p = total deliveries_of p.claim_loops

take_turn-balance :
    (c : Config) (t : Turn) (m : Moment) (p : Process) (w : World)
    → let next = take_turn c t m p w in
      endings next.1 + in_flight next.0 ≡ endings w + in_flight p + turn_claims c t m p w
unfolding take_turn
take_turn-balance c signalled m p w = omega arith
take_turn-balance c (of_claim_loop i k locked) m p w =
    elim (Option-cases (get_elem? p.claim_loops i)) [
      | inl e ↦ rw e (omega arith)
      | inr (loop, e) ↦
          let run = claim_turn c p.stop m locked (loop_name c i) k loop w in
          rw e (
            omega (
              arith,
              claim_turn-Balances c m w p.stop locked (loop_name c i) k loop,
              total-set deliveries_of p.claim_loops i loop run.0 e,
            ))
    ]
take_turn-balance c (of_reaper locked) m p w =
    omega (arith, reaper_turn-endings c p.stop m locked p.reaper w)
take_turn-balance c (of_dispatcher k locked response) m p w =
    omega (arith, dispatcher_turn-endings c p.stop m locked response k p.dispatcher w)
take_turn-balance c (of_detached k response) m p w = elim (Option-cases (get_elem? p.detached k)) [
  | inl e ↦ rw e (omega arith)
  | inr (event, e) ↦ rw e (
      omega (
        arith,
        commit_dispatch-endings (dispatch c.settings c.decimal m.rng m.now event response) w,
      ))
]
take_turn-balance c of_reporter m p w = omega arith
take_turn-balance c of_idle_watch m p w = omega arith

run_turns-balance :
    (c : Config) (vs : List Visit) (p : Process) (w : World)
    → let end = run_turns c vs p w in
      endings end.1 + in_flight end.0 ≡ endings w + in_flight p + jobs_claimed c vs p w
unfolding run_turns jobs_claimed
run_turns-balance c [] p w = omega arith
run_turns-balance c (v ∷ vs) p w =
    let seen = seen_by w (v.meanwhile w) in
    let next = take_turn c v.turn v.moment p seen in
    omega (arith, take_turn-balance c v.turn v.moment p seen, run_turns-balance c vs next.0 next.1)

returned-none : (loops : List (Loop Batch)) → all_of loops ≡ true → total deliveries_of loops ≡ 0
unfolding total
returned-none [] h = refl
returned-none (returned ∷ loops) h = omega (arith, returned-none loops h)
returned-none (fresh ∷ loops) h = cc
returned-none (passing x ∷ loops) h = cc
returned-none (napping n ∷ loops) h = cc

fresh-none : (n : ℕ) → total deliveries_of (replicate n fresh) ≡ 0
unfolding total
fresh-none zero = refl
fresh-none (suc n) = omega (arith, fresh-none n)

run_worker-none :
    (s : Settings) (monotonic : ℕ) (exit_when_idle : Option ℕ)
    → in_flight (run_worker s monotonic exit_when_idle) ≡ 0
unfolding run_worker
run_worker-none s monotonic exit_when_idle = fresh-none s.worker_concurrency

loops_returned : (p : Process) → all_returned p ≡ true → all_of p.claim_loops ≡ true
loops_returned p h = ground arith

-- For a worker process from its start, however its tasks take turns, whatever the other processes do
-- meanwhile, and as long as it does not crash: the deliveries that have ended, each counted once by
-- how it ended, and those in flight are together the jobs that its claims returned. So when all its
-- tasks have returned, stopped or not, each job that it claimed has had its delivery end.
pub claimed_jobs_end :
    (c : Config) (vs : List Visit) (monotonic : ℕ) (exit_when_idle : Option ℕ) (w : World)
    → let p = run_worker c.settings monotonic exit_when_idle in
      let end = run_turns c vs p w in
      (endings end.1 + in_flight end.0 ≡ endings w + jobs_claimed c vs p w)
      × (all_returned end.0 ≡ true → endings end.1 ≡ endings w + jobs_claimed c vs p w)
claimed_jobs_end c vs monotonic exit_when_idle w =
    let p = run_worker c.settings monotonic exit_when_idle in
    let end = (run_turns c vs p w).0 in
    let balance = run_turns-balance c vs p w in
    let none_yet = run_worker-none c.settings monotonic exit_when_idle in
    (
      omega (arith, balance, none_yet),
      λ h. omega (arith, balance, none_yet, returned-none end.claim_loops (loops_returned end h)),
    )
