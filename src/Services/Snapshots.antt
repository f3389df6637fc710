-- ===== src/Services/Snapshots.antt =====
-- That every snapshot a client is given is a count of the tables.
use notify_queue.Prelude.{
  ap, exists_where, Bool-cases, ==_iff, count_where, length, ℕ, ◌+◌, ◌≤◌, ◌≡◌, refl, sym, ◌∙◌, ◌⊎◌,
  inl, inr, Bool, true, false, Option, none, some, List, [], ◌∷◌, if◌then◌else◌, ◌==◌, arith,
}
use mathlib.Core.Path.{subst}
use notify_queue.Tables.Tx.{ok, ok-pair}
use notify_queue.Jobs.Reports.{
  Counts, job_counts, is_failure, is_waiting, is_pending_due, is_scheduled, has_failed_before,
}
use notify_queue.Domain.{is_pending, is_processing, is_sent, is_dead}
use notify_queue.Tables.{Db}
use notify_queue.Reports.{counts-partition}
use notify_queue.Cache.{Link, answered, lost, down}
use notify_queue.Services.Metrics.{
  Metrics, to_metrics, MetricsStore, MetricsPhase, reading, locking, rereading, computing, storing,
  unlocking, returned, Segment, on_read, take_lock, put_metrics, drop_lock, get_or_compute, age,
  Dashboard, serve, quiet,
}

-- What each number of the metrics counts in the tables, at a time.
pub record IsCount (now : ℕ) (db : Db) (m : Metrics) : Type 0 where
  pub pending : m.pending ≡ count_where (λ j. is_pending j.status) db.jobs
  pub pending_due : m.pending_due ≡ count_where (is_pending_due now) db.jobs
  pub scheduled : m.scheduled ≡ count_where (is_scheduled now) db.jobs
  pub failed : m.failed ≡ count_where has_failed_before db.jobs
  pub processing : m.processing ≡ count_where (λ j. is_processing j.status) db.jobs
  pub sent : m.sent ≡ count_where (λ j. is_sent j.status) db.jobs
  pub dead_lettered : m.dead_lettered ≡ count_where (λ j. is_dead j.status) db.jobs
  pub failed_attempts :
      m.failed_attempts_total ≡ count_where (λ a. is_failure a.outcome) db.job_attempts
  pub webhooks_pending :
      m.webhooks_pending ≡ count_where (λ r. is_waiting r.status) db.webhook_outbox
  pub all_jobs : m.pending + m.processing + m.sent + m.dead_lettered ≡ length db.jobs
  pub apart : m.scheduled + m.failed ≤ m.pending
  pub covered : m.pending ≤ m.pending_due + m.scheduled + m.failed

-- The metrics count the tables that the segment finds, and carry its time.
abbrev pub CountedBy : Segment → Metrics → Type 0
CountedBy s m = IsCount s.now s.db m × (m.generated_at ≡ s.clock)

to_metrics-CountedBy :
    (s : Segment) (c : Counts) (db : Db)
    → job_counts s.now s.db ≡ ok (c, db)
    → CountedBy s (to_metrics s.clock c)
unfolding job_counts
to_metrics-CountedBy s c db e =
    let same = sym (ok-pair e).0 in
    let (c', e', all, apart, cover) = counts-partition s.now s.db in
    let other : c' ≡ c = (ok-pair (sym e' ∙ e)).0 in
    (
      record {
        pending = ap (λ (c : Counts). c.pending) same;
        pending_due = ap (λ (c : Counts). c.pending_due) same;
        scheduled = ap (λ (c : Counts). c.scheduled) same;
        failed = ap (λ (c : Counts). c.retrying) same;
        processing = ap (λ (c : Counts). c.processing) same;
        sent = ap (λ (c : Counts). c.sent) same;
        dead_lettered = ap (λ (c : Counts). c.dead_lettered) same;
        failed_attempts = ap (λ (c : Counts). c.failed_attempts) same;
        webhooks_pending = ap (λ (c : Counts). c.webhooks_pending) same;
        all_jobs =
            subst
              (λ (k : Counts).
                k.pending + k.processing + k.sent + k.dead_lettered ≡ length s.db.jobs)
              other all;
        apart = subst (λ (k : Counts). k.scheduled + k.retrying ≤ k.pending) other apart;
        covered =
            subst (λ (k : Counts). k.pending ≤ k.pending_due + k.scheduled + k.retrying) other
              cover;
      },
      refl,
    )

-- Some segment of a run counted them.
abbrev pub Seen : List Segment → Metrics → Type 0
Seen [] m = ⊥
Seen (s ∷ ss) m = CountedBy s m ⊎ Seen ss m

module _ (P : Metrics → Type 0) where
  abbrev pub Holds : MetricsPhase → Type 0
  Holds (storing got_lock m) = P m
  Holds (unlocking m) = P m
  Holds (returned m from_cache) = P m
  Holds _ = Unit {0}

  abbrev pub Stored : Option Metrics → Type 0
  Stored none = Unit {0}
  Stored (some m) = P m

  on_read-Holds :
      (link : Link) (store : MetricsStore) (next : MetricsPhase)
      → Stored store.metrics
      → Holds next
      → Holds (on_read link store next)
  on_read-Holds answered store next h n = found store.metrics h
    where
      found :
          (o : Option Metrics)
          → Stored o
          → Holds (elim o [ some m ↦ returned m true | none ↦ next ])
      found none h' = n
      found (some m) h' = h'
  on_read-Holds lost store next h n = n
  on_read-Holds down store next h n = n

  take_lock-metrics :
      (link : Link) (store : MetricsStore) → (take_lock link store).1.metrics ≡ store.metrics
  take_lock-metrics link store = ground arith

  drop_lock-metrics :
      (link : Link) (store : MetricsStore) → (drop_lock link store).metrics ≡ store.metrics
  drop_lock-metrics link store = ground arith

  put_metrics-Stored :
      (link : Link) (m : Metrics) (store : MetricsStore)
      → P m
      → Stored store.metrics
      → Stored (put_metrics link m store).metrics
  put_metrics-Stored answered m store p h = p
  put_metrics-Stored lost m store p h = p
  put_metrics-Stored down m store p h = h

  chosen : (b : Bool) (p q : MetricsPhase) → Holds p → Holds q → Holds (if b then p else q)
  chosen true p q h k = h
  chosen false p q h k = k

  age-Stored :
      (s : Segment) (store : MetricsStore) → Stored store.metrics → Stored (age s store).metrics
  age-Stored s store h = kept s.metrics_expired
    where
      kept : (b : Bool) → Stored (if b then none else store.metrics)
      kept true = tt
      kept false = h

  step-Holds :
      (enabled : Bool) (s : Segment) (p : MetricsPhase) (store : MetricsStore)
      → ((m : Metrics) → CountedBy s m → P m)
      → Holds p
      → Stored store.metrics
      → let next = get_or_compute enabled s p store in Holds next.0 × Stored next.1.metrics
  unfolding get_or_compute job_counts
  step-Holds enabled s reading store fits p h = (on_read-Holds s.link store locking h tt, h)
  step-Holds enabled s locking store fits p h = (
    chosen (take_lock s.link store).0 (computing true)
        (if enabled then rereading else computing false) tt
        (chosen enabled rereading (computing false) tt tt),
    subst Stored (sym (take_lock-metrics s.link store)) h,
  )
  step-Holds enabled s rereading store fits p h =
      (on_read-Holds s.link store (computing false) h tt, h)
  step-Holds enabled s (computing got_lock) store fits p h =
      (fits _ (to_metrics-CountedBy s _ s.db refl), h)
  step-Holds enabled s (storing got_lock m) store fits p h =
      (chosen got_lock (unlocking m) (returned m false) p p, put_metrics-Stored s.link m store p h)
  step-Holds enabled s (unlocking m) store fits p h =
      (p, subst Stored (sym (drop_lock-metrics s.link store)) h)
  step-Holds enabled s (returned m from_cache) store fits p h = (p, h)

  serve-Holds :
      (enabled : Bool) (ss : List Segment) (d : Dashboard)
      → ((m : Metrics) → Seen ss m → P m)
      → ((i : ℕ) → Holds (d.clients i))
      → Stored d.store.metrics
      → (i : ℕ) → Holds ((serve enabled ss d).clients i)
  unfolding serve
  serve-Holds enabled [] d fits p h i = p i
  serve-Holds enabled (s ∷ ss) d fits p h i =
      let next = get_or_compute enabled s (d.clients s.client) (age s d.store) in
      let (held, stored) =
        step-Holds enabled s (d.clients s.client) (age s d.store) (λ m q. fits m (inl q))
          (p s.client) (age-Stored s d.store h) in
      serve-Holds enabled ss
        (record { clients = λ k. if s.client == k then next.0 else d.clients k; store = next.1 })
        (λ m q. fits m (inr q)) (λ k. chosen (s.client == k) next.0 (d.clients k) held (p k)) stored
        i

-- Whether a client has taken the lock and not dropped it.
abbrev pub is_holding : MetricsPhase → Bool
is_holding (computing got_lock) = got_lock
is_holding (storing got_lock m) = got_lock
is_holding (unlocking m) = true
is_holding _ = false

-- Whether the answer of a call of Redis did not come.
abbrev pub is_missed : Segment → Bool
is_missed s = elim s.link [ answered ↦ false | lost ↦ true | down ↦ true ]

-- The lock is free, or somebody holds it.
abbrev pub IsOwned : Dashboard → Type 0
IsOwned d = (d.store.lock ≡ false) ⊎ ((i : ℕ) × (is_holding (d.clients i) ≡ true))

-- One segment: what it leaves of the lock, and whether the client holds it then.
step-lock :
    (enabled : Bool) (s : Segment) (p : MetricsPhase) (store : MetricsStore)
    → is_missed s ≡ false
    → let next = get_or_compute enabled s p store in
      (is_holding next.0 ≡ true)
      ⊎ (next.1.lock ≡ false)
      ⊎ ((next.1.lock ≡ store.lock) × (is_holding p ≡ false))
unfolding get_or_compute job_counts
step-lock enabled s p store h = ground arith

served : Bool → Segment → Dashboard → Dashboard
served enabled s d =
    let next = get_or_compute enabled s (d.clients s.client) (age s d.store) in
    record { clients = λ i. if s.client == i then next.0 else d.clients i; store = next.1 }

served-IsOwned :
    (enabled : Bool) (s : Segment) (d : Dashboard)
    → is_missed s ≡ false
    → IsOwned d
    → IsOwned (served enabled s d)
unfolding served
served-IsOwned enabled s d h o = by (step-lock enabled s (d.clients s.client) (age s d.store) h) o
  where
    next : MetricsPhase × MetricsStore
    next = get_or_compute enabled s (d.clients s.client) (age s d.store)

    by :
        (is_holding next.0 ≡ true)
          ⊎ (next.1.lock ≡ false)
          ⊎ ((next.1.lock ≡ (age s d.store).lock) × (is_holding (d.clients s.client) ≡ false))
        → IsOwned d
        → IsOwned (served enabled s d)
    by (inl held) o = inr (s.client, rw ((==_iff s.client s.client).1 refl) held)
    by (inr (inl free)) o = inl free
    by (inr (inr (same, idle))) (inl free) = inl (ground arith)
    by (inr (inr (same, idle))) (inr (i, held)) = elim (Bool-cases (s.client == i)) [
      | inl y ↦ absurd (cc ((==_iff s.client i).0 y, idle, held))
      | inr z ↦ inr (i, rw z held)
    ]

serve-IsOwned :
    (enabled : Bool) (ss : List Segment) (d : Dashboard)
    → exists_where is_missed ss ≡ false
    → IsOwned d
    → IsOwned (serve enabled ss d)
unfolding serve exists_where served
serve-IsOwned enabled [] d h o = o
serve-IsOwned enabled (s ∷ ss) d h o =
    serve-IsOwned enabled ss (served enabled s d) (ground arith)
      (served-IsOwned enabled s d (ground arith) o)

-- Whatever number of clients ask for the metrics, however their segments interleave and whichever
-- calls of Redis fail, from an empty cache: every answer that a client has, or is about to store or
-- give, has in each of its numbers what that number counts in the tables as some segment of the run
-- found them, and the time of that segment; its four statuses add up to all jobs, every pending one
-- is due, scheduled or failed before, and none both scheduled and failed. If no call of Redis
-- failed, the rebuild lock is free at the end, or a client is still rebuilding under it.
pub serve-Seen :
    (enabled : Bool) (ss : List Segment)
    → let d = serve enabled ss quiet in
      ((i : ℕ) → Holds (Seen ss) (d.clients i)) × ((exists_where is_missed ss ≡ true) ⊎ IsOwned d)
serve-Seen enabled ss = (
  serve-Holds (Seen ss) enabled ss quiet (λ k q. q) (λ k. tt) tt,
  elim (Bool-cases (exists_where is_missed ss)) [
    | inl y ↦ inl y
    | inr z ↦ inr (serve-IsOwned enabled ss quiet z (inl refl))
  ],
)
