-- ===== src/Invariant/Requeue.antt =====
-- `requeue_dead_letter`: what it does to a dead-lettered job, and that it changes no other.
use notify_queue.Prelude.{
  ℕ, ◌≤◌, ◌≡◌, refl, ◌≢◌, Bool, true, ◌&&◌, Option, none, some, arith, update_where, ◌==◌, not,
  select,
}
use notify_queue.Domain.{Job, is_dead}
use notify_queue.Tables.{Db, Uuids, find}
use notify_queue.Tables.Tx.{ok}
use notify_queue.Tables.Find.{if_hit, if_hit-eq-some, find-update, change, find-id}
use notify_queue.Jobs.Finalize.{transition}
use notify_queue.Jobs.Reap.{set_requeued, requeue_dead_letter, after_requeue}
use notify_queue.Invariant.{IsValid, JobOk, lettered}
use notify_queue.Invariant.Counts.{count_where-delete}
use notify_queue.Invariant.Recording.{SameRows}
use notify_queue.Invariant.Update.{update-IsValid, keyed-rows, update_jobs_lem, update_jobs-miss}

abbrev pub is_dead_at : ℕ → Job → Bool
is_dead_at x job = (job.id == x) && is_dead job.status

is_dead_at-id : (x : ℕ) (j : Job) → is_dead_at x j ≡ true → j.id ≡ x
is_dead_at-id x j h = ground arith

module _ (u : Uuids) {db : Db} (v : IsValid u db) (x now extra : ℕ) where
  -- On a well-formed database, the requeue of a job that is not there or is not dead-lettered
  -- changes nothing and returns None.
  pub requeue-miss :
      if_hit (is_dead_at x) (find x db.jobs) ≡ none
      → requeue_dead_letter now x extra db ≡ ok (none, db)
  unfolding requeue_dead_letter after_requeue
  requeue-miss h =
      rw
        (update_jobs-miss u (is_dead_at x) (set_requeued now extra) (λ j. refl) (λ j. refl) x
          (is_dead_at-id x) db v.distinct h)
        refl

  module _ {j : Job} (h : if_hit (is_dead_at x) (find x db.jobs) ≡ some j) (more : 1 ≤ extra) where
    at_row : (find x db.jobs ≡ some j) × (is_dead_at x j ≡ true)
    at_row = if_hit-eq-some (is_dead_at x) (find x db.jobs) h

    job_ok : JobOk j db x
    job_ok = rw at_row.0 at (v.rows x)

    set : Job → Job
    set = set_requeued now extra

    requeued : Db
    unfolding set
    requeued = record db {
      jobs = update_where (is_dead_at x) set db.jobs;
      dead_letters = select (λ d. not (d.job_id == x)) db.dead_letters;
    }

    requeued-JobOk : JobOk (set j) requeued x
    unfolding requeued
    requeued-JobOk = record {
      ledger = ground (arith, job_ok.ledger);
      letter = ground (arith, count_where-delete (λ d. d.job_id) x x db.dead_letters);
      counted = ground (arith, job_ok.counted);
      announced = ground (arith, job_ok.announced);
      history = λ n. ground (arith, job_ok.history n);
      capped = omega arith;
      room = λ e. omega arith;
      running = λ e. cc;
      token = ground (arith, job_ok.token);
      lease = ground (arith, job_ok.lease);
    }

    requeued-SameRows : (i : ℕ) → x ≢ i → SameRows db requeued i
    unfolding requeued
    requeued-SameRows i ne = record {
      same_delivered = refl;
      same_lettered = ground (arith, count_where-delete (λ d. d.job_id) x i db.dead_letters);
      same_tries = refl;
      same_events = refl;
      same_tried = λ n. refl;
    }

    -- On a well-formed database, for a dead-lettered job and at least one extra attempt: the requeue
    -- succeeds and keeps it well formed, the job is as the SET clause says, its letter is gone, and
    -- no other job or row of one changes.
    pub requeue-dead :
        (db' : Db) × (requeue_dead_letter now x extra db
          ≡ ok (some (transition (set_requeued now extra j)), db'))
        × IsValid u db'
        × (find x db'.jobs ≡ some (set_requeued now extra j))
        × (lettered db' x ≡ 0)
        × ((i : ℕ) → x ≢ i → (find i db'.jobs ≡ find i db.jobs) × SameRows db db' i)
        × (db'.draws ≡ db.draws)
    unfolding requeue_dead_letter after_requeue requeued
    requeue-dead = (
      requeued,
      rw
          (
            update_jobs_lem u (is_dead_at x) set (λ k. refl) (λ k. refl) x (is_dead_at-id x) db
                v.distinct,
            h,
          )
          refl,
      update-IsValid u (is_dead_at x) set (λ k. refl) (λ k. refl) v refl (omega arith)
          v.unused_events no_token
          (keyed-rows u (is_dead_at x) set (λ k. refl) (λ k. refl) x (is_dead_at-id x) v at_row.0
            at_row.1 requeued-JobOk requeued-SameRows),
      rw (find-update (is_dead_at x) set (λ k. refl) x db.jobs, at_row.0, at_row.1) refl,
      ground (arith, count_where-delete (λ d. d.job_id) x x db.dead_letters),
      (λ i ne. (
        rw (find-update (is_dead_at x) set (λ k. refl) i db.jobs)
            (unhit i ne (find i db.jobs) refl),
        requeued-SameRows i ne,
      )),
      refl,
    )
      where
        no_token :
            (n i : ℕ) (k : Job)
            → db.draws ≤ n
            → find i db.jobs ≡ some k
            → is_dead_at x k ≡ true
            → (set k).claim_token ≢ some (u.token n i)
        no_token n i k le e _ = v.unused_tokens n i k le e

        unhit :
            (i : ℕ)
            → x ≢ i
            → (o : Option Job) → find i db.jobs ≡ o
            → change (is_dead_at x) set o ≡ o
        unhit i ne none e = refl
        unhit i ne (some k) e = ground (arith, find-id i db.jobs {j = k})
