-- ===== src/Services/Metrics.antt =====
-- src/notify_queue/services/metrics.py over cache/metrics_cache.py: the snapshot of the counts, segment by
-- segment between the calls of Redis and of the database.
use notify_queue.Prelude.{
  ℕ, Bool, true, false, Option, none, some, List, [], ◌∷◌, if◌then◌else◌, ◌==◌,
}
use notify_queue.Tables.{Db}
use notify_queue.Tables.Tx.{Result, ok, raise}
use notify_queue.Jobs.Reports.{Counts, job_counts}
use notify_queue.Cache.{Link, answered, lost, down}

pub record Metrics : Type 0 where
  pub pending : ℕ
  pub pending_due : ℕ
  pub scheduled : ℕ
  pub failed : ℕ
  pub processing : ℕ
  pub sent : ℕ
  pub failed_attempts_total : ℕ
  pub dead_lettered : ℕ
  pub webhooks_pending : ℕ
  pub generated_at : ℕ

-- `MetricsService._compute`
abbrev pub to_metrics : ℕ → Counts → Metrics
to_metrics clock counts = record {
  pending = counts.pending;
  pending_due = counts.pending_due;
  scheduled = counts.scheduled;
  failed = counts.retrying;
  processing = counts.processing;
  sent = counts.sent;
  failed_attempts_total = counts.failed_attempts;
  dead_lettered = counts.dead_lettered;
  webhooks_pending = counts.webhooks_pending;
  generated_at = clock;
}

-- What Redis holds: the metrics, and whether somebody holds the lock.
pub record MetricsStore : Type 0 where
  pub metrics : Option Metrics
  pub lock : Bool

-- What `get_or_compute` is about to do, or has returned: the metrics, and whether they are from the cache.
pub data MetricsPhase : Type 0 where
  reading locking rereading : MetricsPhase
  computing : (got_lock : Bool) → MetricsPhase
  storing : (got_lock : Bool) → Metrics → MetricsPhase
  unlocking : Metrics → MetricsPhase
  returned : Metrics → (from_cache : Bool) → MetricsPhase

-- A segment of a client: whether the entries of Redis have expired before it, how its call of Redis ends,
-- and what it finds if it reads the database.
pub record Segment : Type 0 where
  pub client : ℕ
  pub metrics_expired : Bool
  pub lock_expired : Bool
  pub link : Link
  pub clock : ℕ
  pub now : ℕ
  pub db : Db

-- `_get`, and what follows it.
abbrev pub on_read : Link → MetricsStore → MetricsPhase → MetricsPhase
on_read answered store next = elim store.metrics [ some m ↦ returned m true | none ↦ next ]
on_read lost store next = next
on_read down store next = next

-- SET NX: whether the caller has the lock, and what it leaves.
abbrev pub take_lock : Link → MetricsStore → Bool × MetricsStore
take_lock answered store =
    (if store.lock then (false, store) else (true, record store { lock = true }))
take_lock lost store = (false, record store { lock = true })
take_lock down store = (false, store)

abbrev pub put_metrics : Link → Metrics → MetricsStore → MetricsStore
put_metrics down m store = store
put_metrics _ m store = record store { metrics = some m }

abbrev pub drop_lock : Link → MetricsStore → MetricsStore
drop_lock down store = store
drop_lock _ store = record store { lock = false }

-- What follows the count of the jobs, which raises nothing.
abbrev pub on_counted : Bool → (clock : ℕ) → Result (Counts × Db) → MetricsPhase
on_counted got_lock clock (ok (counts, db)) = storing got_lock (to_metrics clock counts)
on_counted got_lock clock (raise e) = computing got_lock

-- `MetricsCache.get_or_compute`, with `MetricsService._compute`. `enabled` is `Cache.enabled`.
unfoldable pub get_or_compute :
    (enabled : Bool) → Segment → MetricsPhase → MetricsStore → MetricsPhase × MetricsStore
get_or_compute enabled s reading store = (on_read s.link store locking, store)
get_or_compute enabled s locking store =
    let taken = take_lock s.link store in
    let wait : MetricsPhase = if enabled then rereading else computing false in
    (if taken.0 then computing true else wait, taken.1)
get_or_compute enabled s rereading store = (on_read s.link store (computing false), store)
get_or_compute enabled s (computing got_lock) store =
    (on_counted got_lock s.clock (job_counts s.now s.db), store)
get_or_compute enabled s (storing got_lock m) store =
    (if got_lock then unlocking m else returned m false, put_metrics s.link m store)
get_or_compute enabled s (unlocking m) store = (returned m false, drop_lock s.link store)
get_or_compute enabled s (returned m from_cache) store = (returned m from_cache, store)

-- Redis drops what has outlived its time.
abbrev pub age : Segment → MetricsStore → MetricsStore
age s store = record {
  metrics = if s.metrics_expired then none else store.metrics;
  lock = if s.lock_expired then false else store.lock;
}

-- Any number of clients, in any order.
pub record Dashboard : Type 0 where
  pub clients : ℕ → MetricsPhase
  pub store : MetricsStore

unfoldable pub serve : (enabled : Bool) → List Segment → Dashboard → Dashboard
serve enabled [] d = d
serve enabled (s ∷ ss) d =
    let next = get_or_compute enabled s (d.clients s.client) (age s d.store) in
    serve enabled ss
      (record { clients = λ i. if s.client == i then next.0 else d.clients i; store = next.1 })

-- Nobody has asked, and Redis holds nothing.
abbrev pub quiet : Dashboard
quiet = record { clients = λ i. reading; store = record { metrics = none; lock = false } }
