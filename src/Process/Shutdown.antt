-- ===== src/Process/Shutdown.antt =====
-- Once the stop event is set, a process comes to its end.
use mathlib.Core.WellFounded.{Acc}
use mathlib.Core.Path.{subst}
use notify_queue.Prelude.{
  ℕ, zero, suc, ◌≤◌, ◌<◌, ◌≡◌, refl, ◌⊎◌, inl, inr, Bool, true, false, ◌&&◌, some, List, [], ◌∷◌,
  arith, get_elem?, Bool-cases,
}
use notify_queue.Worker.{World, Config, Moment}
use notify_queue.Dispatcher.{other_error}
use notify_queue.Polling.{Loop, returned, Batch, Round}
use notify_queue.Process.{
  Process, Turn, of_claim_loop, of_reaper, of_dispatcher, of_reporter, of_idle_watch, claim_is_due,
  reaper_is_due, dispatcher_is_due, is_due, goes_on, take_turn,
}
use notify_queue.Process.Stopping.{claims, left, passes, Stops, take_turn-Stops}

-- A turn that goes somewhere, whatever the world is by then.
abbrev pub Follows : Config → Process → Process → Type 0
Follows c q p =
    (t : Turn) × (m : Moment) × (w : World) × (goes_on t m p ≡ true) × ((take_turn c t m p w).0 ≡ q)

module _ {Pass : Type 0} where
  abbrev pub is_returned : Loop Pass → Bool
  is_returned returned = true
  is_returned _ = false

abbrev pub all_of : List (Loop Batch) → Bool
all_of [] = true
all_of (loop ∷ loops) = is_returned loop && all_of loops

-- `gather` is over.
abbrev pub all_returned : Process → Bool
all_returned p =
    all_of p.claim_loops
    && is_returned p.reaper
    && is_returned p.dispatcher
    && is_returned p.reporter
    && is_returned p.idle_watch

-- By the claims that are on their way, and then by what is left.
accessible :
    (c : Config) (n k : ℕ) (p : Process)
    → p.stop ≡ true
    → claims p ≤ n
    → left p < k
    → Acc (Follows c) p
accessible c n zero p e h less = absurd (omega (arith, less))
accessible c zero (suc k) p e h less = Acc.intro p (λ q f.
    let (t, m, w, goes, to) = f in
    let (stopped, falls, kept) = subst (Stops p) to (take_turn-Stops c m w p e t goes) in
    elim falls [
      | inl fewer ↦ absurd (omega arith)
      | inr (same, lower) ↦ accessible c zero k q stopped (omega arith) (omega arith)
    ])
accessible c (suc n) (suc k) p e h less = Acc.intro p (λ q f.
    let (t, m, w, goes, to) = f in
    let (stopped, falls, kept) = subst (Stops p) to (take_turn-Stops c m w p e t goes) in
    elim falls [
      | inl fewer ↦ accessible c n (suc (left q)) q stopped (omega arith) (omega arith)
      | inr (same, lower) ↦ accessible c (suc n) k q stopped (omega arith) (omega arith)
    ])

-- A claim loop that has not returned, if there is one.
waiting_loop :
    (loops : List (Loop Batch))
    → (all_of loops ≡ true)
      ⊎ ((i : ℕ) × (loop : Loop Batch) × (get_elem? loops i ≡ some loop)
          × (is_returned loop ≡ false))
waiting_loop [] = inl refl
waiting_loop (loop ∷ loops) = elim (Bool-cases (is_returned loop)) [
  | inr y ↦ inr (0, loop, refl, y)
  | inl y ↦ elim (waiting_loop loops) [
    | inl rest ↦ inl (rw (y, rest) refl)
    | inr (i, x, at, z) ↦ inr (suc i, x, at, z)
  ]
]

module _ (m : Moment) where
  claims_go :
      (stop : Bool) (loop : Loop Batch)
      → stop ≡ true
      → is_returned loop ≡ false
      → claim_is_due stop m 0 loop ≡ true
  claims_go stop loop e h = ground arith

  reaper_goes :
      (stop : Bool) (loop : Loop (Unit {0}))
      → stop ≡ true
      → is_returned loop ≡ false
      → reaper_is_due stop m loop ≡ true
  reaper_goes stop loop e h = ground arith

  dispatcher_goes :
      (stop : Bool) (loop : Loop Round)
      → stop ≡ true
      → is_returned loop ≡ false
      → dispatcher_is_due stop m 0 loop ≡ true
  dispatcher_goes stop loop e h = ground arith

  watcher_goes :
      (stop : Bool) (loop : Loop ⊥)
      → stop ≡ true
      → is_returned loop ≡ false
      → is_due stop m loop ≡ true
  watcher_goes stop loop e h = ground arith

-- Once the stop event of a process is set: whatever the database, Redis, the provider and the other
-- processes do meanwhile, and in whatever order the tasks get their turns, no sequence of turns goes
-- on for ever; as long as a task of the process has not returned, some task can go on; and no turn
-- unsets the event or puts more tasks into a pass.
pub stopped_process_ends :
    (c : Config) (p : Process)
    → p.stop ≡ true
    → Acc (Follows c) p
      × ((m : Moment) → (all_returned p ≡ true) ⊎ ((t : Turn) × (goes_on t m p ≡ true)))
      × ((q : Process) → Follows c q p → (q.stop ≡ true) × (passes q ≤ passes p))
stopped_process_ends c p e = (
  accessible c (claims p) (suc (left p)) p e (omega arith) (omega arith),
  some_turn,
  λ q f.
      let (t, m, w, goes, to) = f in
      let (stopped, falls, kept) = subst (Stops p) to (take_turn-Stops c m w p e t goes) in
      (stopped, kept),
)
  where
    some_turn : (m : Moment) → (all_returned p ≡ true) ⊎ ((t : Turn) × (goes_on t m p ≡ true))
    some_turn m = elim (waiting_loop p.claim_loops) [
      | inr (i, loop, at, z) ↦
          inr (of_claim_loop i 0 (λ n. false), rw at (claims_go m p.stop loop e z))
      | inl loops ↦ elim (Bool-cases (is_returned p.reaper)) [
        | inr z ↦ inr (of_reaper (λ n. false), reaper_goes m p.stop p.reaper e z)
        | inl one ↦ elim (Bool-cases (is_returned p.dispatcher)) [
          | inr z ↦
              inr (
                of_dispatcher 0 (λ n. false) other_error,
                dispatcher_goes m p.stop p.dispatcher e z,
              )
          | inl two ↦ elim (Bool-cases (is_returned p.reporter)) [
            | inr z ↦ inr (of_reporter, watcher_goes m p.stop p.reporter e z)
            | inl three ↦ elim (Bool-cases (is_returned p.idle_watch)) [
              | inr z ↦ inr (of_idle_watch, watcher_goes m p.stop p.idle_watch e z)
              | inl four ↦ inl (rw (loops, one, two, three, four) refl)
            ]
          ]
        ]
      ]
    ]
