-- ===== src/Worker/Accounting.antt =====
-- src/notify_queue/worker/loop.py: the counters of how deliveries end, over what follows
-- each segment.
use notify_queue.Prelude.{
  ℕ, ◌+◌, ◌≤◌, ◌≡◌, refl, ◌∙◌, String, Bool, true, false, Option, none, some, arith, count_where,
}
use notify_queue.Domain.{Job}
use notify_queue.Settings.{Settings}
use notify_queue.Senders.{SendReply, replied, permanent_delivery_error, delivery_error, failed}
use notify_queue.Tables.{Db}
use notify_queue.Tables.Tx.{Result, ok, raise}
use notify_queue.Invariant.Counts.{count_where-snoc}
use notify_queue.Jobs.Finalize.{Transition}
use notify_queue.Worker.{
  Stat, errors, rate_limited, lease_budget_exceeded, provider_deduplicated, lease_lost,
  failed_attempts, ended, World, Moment, Phase, acquiring, budgeting, giving_back, sending, done,
  postponing, releasing, recording, refunding, count, limiter_release, schedule_invalidation,
  after_commit, on_reply, count_dedup,
}
use notify_queue.Worker.Delivery.{invalidate_if, conclude, on_recorded}

-- The segments that a delivery has at most before it.
abbrev pub segments_left : Phase → ℕ
segments_left acquiring = 5
segments_left budgeting = 4
segments_left sending = 3
segments_left giving_back = 2
segments_left (recording e p r m) = 2
segments_left (postponing d) = 1
segments_left releasing = 1
segments_left (refunding t) = 1
segments_left done = 0

-- The counters that say how a delivery ended.
abbrev pub is_ending : Stat → Bool
is_ending errors = true
is_ending rate_limited = true
is_ending lease_budget_exceeded = true
is_ending lease_lost = true
is_ending (ended s) = true
is_ending provider_deduplicated = false
is_ending failed_attempts = false

abbrev pub endings : World → ℕ
endings w = count_where is_ending w.stats

abbrev pub owes : Phase → ℕ
owes done = 0
owes _ = 1

-- A segment that started at phase p in w, if there was one left.
abbrev pub Progress : Phase → World → Phase × World → Type 0
Progress p w next =
    (segments_left next.0 + 1 ≤ segments_left p) × (endings next.1 + owes next.0 ≡ endings w + 1)

module _ (w : World) where
  pub count_ending : (s : Stat) → is_ending s ≡ true → endings (count s w) ≡ endings w + 1
  count_ending s h = ground (arith, count_where-snoc is_ending w.stats s)

  count_other : (s : Stat) → is_ending s ≡ false → endings (count s w) ≡ endings w
  count_other s h = ground (arith, count_where-snoc is_ending w.stats s)

  pub schedule_invalidation-endings :
      (s : Settings) (t : Transition) → endings (schedule_invalidation s t w) ≡ endings w
  schedule_invalidation-endings s t = ground arith

  pub limiter_release-endings :
      (s : Settings) (m : Moment) (job : Job) → endings (limiter_release s m job w) ≡ endings w
  limiter_release-endings s m job = ground arith

  pub invalidate_if-endings :
      (s : Settings) (t : Option Transition) → endings (invalidate_if s t w) ≡ endings w
  invalidate_if-endings s none = refl
  invalidate_if-endings s (some t) = schedule_invalidation-endings s t

  pub count_dedup-endings : (r : SendReply) → endings (count_dedup r w) ≡ endings w
  count_dedup-endings (replied r) = ground (arith, count_other provider_deduplicated refl)
  count_dedup-endings (permanent_delivery_error m) = refl
  count_dedup-endings (delivery_error m) = refl
  count_dedup-endings (failed n m) = refl

pub conclude-endings :
    (s : Settings) (b : Bool) (t : Transition) (w : World)
    → endings (conclude s b t w) ≡ endings w + 1
conclude-endings s true t w =
    schedule_invalidation-endings (count failed_attempts (count (ended t.status) w)) s t
    ∙ count_other (count (ended t.status) w) failed_attempts refl
    ∙ count_ending w (ended t.status) refl
conclude-endings s false t w =
    schedule_invalidation-endings (count (ended t.status) w) s t
    ∙ count_ending w (ended t.status) refl

-- A transaction keeps the counters, unless it raises.
pub after_commit-Progress :
    {A : Type 0} (p : Phase) (r : Result (A × Db)) (w : World) (k : A → World → Phase × World)
    → 1 ≤ segments_left p
    → ((a : A) (v : World) → endings v ≡ endings w → Progress p w (k a v))
    → Progress p w (after_commit r w k)
after_commit-Progress p (ok (a, db)) w k h step = step a (record w { db = db }) refl
after_commit-Progress p (raise e) w k h step =
    (omega (arith, h), omega (arith, count_ending w errors refl))

pub on_recorded-Progress :
    (s : Settings) (e : Option String) (p b : Bool) (r : Bool) (m : Option String)
    (o : Option Transition) (w v : World)
    → endings v ≡ endings w
    → Progress (recording e p r m) w (on_recorded s b r o v)
on_recorded-Progress s e p b r m none w v h =
    (omega arith, omega (arith, h, count_ending v lease_lost refl))
on_recorded-Progress s e p b true m (some t) w v h = (omega arith, omega (arith, h))
on_recorded-Progress s e p b false m (some t) w v h =
    (omega arith, omega (arith, h, conclude-endings s b t v))

pub on_reply-Progress :
    (r : SendReply) (w v : World) → endings v ≡ endings w → Progress sending w (on_reply r, v)
on_reply-Progress (replied r) w v h = (omega arith, omega (arith, h))
on_reply-Progress (permanent_delivery_error m) w v h = (omega arith, omega (arith, h))
on_reply-Progress (delivery_error m) w v h = (omega arith, omega (arith, h))
on_reply-Progress (failed n m) w v h = (omega arith, omega (arith, h))
