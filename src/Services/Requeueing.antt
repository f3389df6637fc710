-- ===== src/Services/Requeueing.antt =====
-- The requeue of a dead letter over HTTP: every way in which it ends.
use notify_queue.Prelude.{
  ℕ, ◌+◌, ◌≤◌, ◌≡◌, ◌≢◌, refl, sym, ◌⊎◌, inl, inr, true, false, Option, none, some, arith,
  Bool-cases,
}
use mathlib.Core.Path.{subst}
use notify_queue.Domain.{Job, is_dead}
use notify_queue.Domain.Schemas.{JobOut, within}
use notify_queue.Settings.{Settings}
use notify_queue.Tables.{Db, Uuids, find}
use notify_queue.Jobs.Reap.{set_requeued}
use notify_queue.Cache.{Link, down, Store, invalidate}
use notify_queue.Invariant.{IsValid, lettered}
use notify_queue.Invariant.Requeue.{is_dead_at, requeue-miss, requeue-dead}
use notify_queue.Tables.Find.{if_hit, find-id}
use notify_queue.Services.DeadLetters.{requeue, extra_or_default, extra_or_default-positive}
use notify_queue.Services.Currency.{AtLeast, invalidate-AtLeast}
use notify_queue.Services.Routes.{Answer, answer, refused, requeue_route}

-- The answer and what is left: the job was dead-lettered and is queued again, with its letter gone and,
-- unless Redis was not reached, its entry at the new version; or it was not, and nothing changed.
abbrev pub Ends :
    Uuids
    → (extra_attempts : ℕ) (link : Link) (now x : ℕ) → Store JobOut
    → Db
    → Answer ℕ × (Store JobOut × Db)
    → Type 0
Ends u extra_attempts link now x cache db run =
    ((j : Job) × (find x db.jobs ≡ some j)
      × (is_dead j.status ≡ true)
      × (run.0 ≡ answer 202 x)
      × IsValid u run.1.1
      × (find x run.1.1.jobs ≡ some (set_requeued now extra_attempts j))
      × (lettered run.1.1 x ≡ 0)
      × ((i : ℕ) → x ≢ i → find i run.1.1.jobs ≡ find i db.jobs)
      × (link ≢ down → AtLeast (j.version + 1) (run.1.0 x)))
    ⊎ (((j : Job) → find x db.jobs ≡ some j → is_dead j.status ≡ false)
        × (run.0 ≡ refused 404)
        × (run.1 ≡ (cache, db)))

module _ (u : Uuids) {db : Db} (v : IsValid u db) (s : Settings) (positive : 1 ≤ s.max_attempts)
    (link : Link) (now x : ℕ) (extra : Option ℕ) (in_range : within 1 20 extra ≡ true)
    (cache : Store JobOut) where
  missed :
      if_hit (is_dead_at x) (find x db.jobs) ≡ none
      → ((j : Job) → find x db.jobs ≡ some j → is_dead j.status ≡ false)
      → Ends u
          (extra_or_default extra s.max_attempts)
          link
          now
          x
          cache
          db
          (requeue_route s link now x extra cache db)
  unfolding requeue_route requeue
  missed h alive = inr (
      rw (in_range, requeue-miss u v x now (extra_or_default extra s.max_attempts) h)
        (alive, refl, refl))

  hit :
      (j : Job)
      → find x db.jobs ≡ some j
      → is_dead j.status ≡ true
      → Ends u
          (extra_or_default extra s.max_attempts)
          link
          now
          x
          cache
          db
          (requeue_route s link now x extra cache db)
  unfolding requeue_route requeue
  hit j at dead =
      let n = extra_or_default extra s.max_attempts in
      let mine : j.id ≡ x = find-id x db.jobs {j = j} at in
      let found : if_hit (is_dead_at x) (find x db.jobs) ≡ some j =
        rw at (ground (arith, mine, dead)) in
      let (db', run, valid, row, gone, others, draws) =
        requeue-dead u v x now n {j = j} found
          (extra_or_default-positive extra s.max_attempts positive) in
      inl (
        rw (in_range, run)
          (
            j,
            at,
            dead,
            refl,
            valid,
            row,
            gone,
            (λ i ne. (others i ne).0),
            λ up.
                subst
                  (λ y. AtLeast (j.version + 1) (invalidate JobOut link y (j.version + 1) cache x))
                  (sym mine) (invalidate-AtLeast (j.version + 1) x link cache up),
          ))

  by_row :
      (o : Option Job)
      → find x db.jobs ≡ o
      → Ends u
          (extra_or_default extra s.max_attempts)
          link
          now
          x
          cache
          db
          (requeue_route s link now x extra cache db)
  by_row none e = missed (rw e refl) (λ j at. cc)
  by_row (some j) e = elim (Bool-cases (is_dead j.status)) [
    | inl dead ↦ hit j e dead
    | inr alive ↦ missed (rw e (ground arith)) (λ k at. cc)
  ]

  -- With at least one attempt by default and, if it is given, a number of extra attempts from 1 to
  -- 20, on a well-formed database: the requeue of a dead-lettered job is answered with 202, queues
  -- it as the SET clause says, removes its letter, keeps the tables well formed and every other job,
  -- and unless Redis is not reached its cache entry is at the new version or later; for any other
  -- job the answer is 404 and nothing changes.
  pub requeue_route-Ends :
      Ends u
        (extra_or_default extra s.max_attempts)
        link
        now
        x
        cache
        db
        (requeue_route s link now x extra cache db)
  requeue_route-Ends = by_row (find x db.jobs) refl
