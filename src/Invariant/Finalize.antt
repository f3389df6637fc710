-- ===== src/Invariant/Finalize.antt =====
-- `mark_sent`, `mark_failed` and `return_to_queue`: what each does for the holder of the claim, and
-- that nobody else changes anything.
use notify_queue.Prelude.{
  ℕ, ◌≡◌, refl, ◌≢◌, Bool, true, false, Option, none, some, arith, String, ◌||◌, not, leb,
}
use notify_queue.Domain.{Job, is_pending, is_dead}
use notify_queue.Tables.{Db, Uuids, IsFresh, find}
use notify_queue.Tables.Tx.{ok}
use notify_queue.Tables.Find.{find-update}
use notify_queue.Jobs.Finalize.{
  transition, is_held, set_sent, set_failed, set_returned, mark_sent, mark_failed, return_to_queue,
  after_sent, after_failed,
}
use notify_queue.Invariant.{IsValid, JobOk}
use notify_queue.Invariant.Recording.{Owed-untried, Records-JobOk, SameRows}
use notify_queue.Invariant.Endings.{after_sent_ok, after_failed_ok}
use notify_queue.Invariant.Update.{update-IsValid, keyed-rows, update_jobs_lem, update_jobs-miss}
use notify_queue.Invariant.Held.{
  held, is_held-id, is_held-processing, Ended, updated, at_row, job_ok, ending-IsValid, owed, unhit,
  ended,
}

module _ (u : Uuids) {db : Db} (v : IsValid u db) (x t now : ℕ) where
  -- On a well-formed database, mark_sent, mark_failed and return_to_queue under a token that does
  -- not hold the job change nothing and return None.
  pub fenced :
      held x t db ≡ none
      → (worker_id error url : String) (message : Option String) (delay : ℕ) (permanent : Bool)
      → (mark_sent u now x t worker_id message url db ≡ ok (none, db))
        × (mark_failed u now x t worker_id error delay permanent url db ≡ ok (none, db))
        × (return_to_queue now x t delay db ≡ ok (none, db))
  unfolding mark_sent mark_failed return_to_queue after_sent after_failed
  fenced h worker_id error url message delay permanent = (
    rw
        (update_jobs-miss u (is_held x t) (set_sent now) (λ j. refl) (λ j. refl) x (is_held-id x t)
          db v.distinct h)
        refl,
    rw
        (update_jobs-miss u (is_held x t) (set_failed now error delay permanent) (λ j. refl)
          (λ j. refl) x (is_held-id x t) db v.distinct h)
        refl,
    rw
        (update_jobs-miss u (is_held x t) (set_returned now delay) (λ j. refl) (λ j. refl) x
          (is_held-id x t) db v.distinct h)
        refl,
  )

  module _ (f : IsFresh u) {j : Job} (h : held x t db ≡ some j) where
    -- On a well-formed database, with fresh uuids: mark_sent by the holder of the claim succeeds and
    -- keeps it well formed. The job is sent, with exactly one delivery in the ledger, the attempt in
    -- the history and one more event; no other job or row of one changes.
    pub mark_sent-held :
        (worker_id url : String) (message : Option String)
        → (db' : Db) × (mark_sent u now x t worker_id message url db
            ≡ ok (some (transition (set_sent now j)), db'))
          × Ended u db db' x (set_sent now j) true false
    unfolding mark_sent
    mark_sent-held worker_id url message =
        let o = owed u v x t h (set_sent now j) refl refl refl refl refl (λ e. cc) (set_sent now) in
        let (db', done, r, e) =
          after_sent_ok u f (updated x t db (set_sent now)) v.unused_events now x worker_id message
            url (set_sent now j) (Owed-untried o) o.undelivered in
        let valid =
          ending-IsValid u v x t h (set_sent now) (λ k. refl) (λ k. refl) (λ k. refl) db' r
            (Records-JobOk (set_sent now j) refl refl r o) e in
        (
          db',
          rw
              (
                update_jobs_lem u (is_held x t) (set_sent now) (λ k. refl) (λ k. refl) x
                    (is_held-id x t) db v.distinct,
                h,
              )
              done,
          ended u v x t h (set_sent now) true false db' r valid refl (λ k. refl),
        )

    -- On a well-formed database, with fresh uuids: mark_failed by the holder of the claim succeeds
    -- and keeps it well formed. The job is dead-lettered, with one letter, if the error is permanent
    -- or no attempt remains, and pending otherwise; the attempt is in the history, there is one more
    -- event, and no other job or row of one changes.
    pub mark_failed-held :
        (worker_id error url : String) (delay : ℕ) (permanent : Bool)
        → let j' = set_failed now error delay permanent j in
          let over = permanent || leb j.max_attempts j.attempts in
          (db' : Db) × (mark_failed u now x t worker_id error delay permanent url db
            ≡ ok (some (transition j'), db'))
          × Ended u db db' x j' false over
          × (is_pending j'.status ≡ not over)
    unfolding mark_failed
    mark_failed-held worker_id error url delay permanent =
        let set = set_failed now error delay permanent in
        let over = permanent || leb j.max_attempts j.attempts in
        let is_over : is_dead (set j).status ≡ over = ground arith in
        let o = owed u v x t h (set j) refl refl (ground arith) refl refl (λ e. ground arith) set in
        let (db', done, r, e) =
          after_failed_ok u f (updated x t db set) v.unused_events now worker_id error permanent url
            (set j) x over (is_held-id x t j (at_row u v x t h).1) is_over (Owed-untried o)
            o.unlettered in
        let valid =
          ending-IsValid u v x t h set (λ k. refl) (λ k. refl) (λ k. refl) db' r
            (Records-JobOk (set j) (ground arith) is_over r o) e in
        (
          db',
          rw
              (
                update_jobs_lem u (is_held x t) set (λ k. refl) (λ k. refl) x (is_held-id x t) db
                    v.distinct,
                h,
              )
              done,
          ended u v x t h set false over db' r valid refl (λ k. refl),
          ground arith,
        )

    returned-JobOk :
        (delay : ℕ) → JobOk (set_returned now delay j) (updated x t db (set_returned now delay)) x
    returned-JobOk delay =
        let busy = is_held-processing x t j (at_row u v x t h).1 in
        record {
          ledger = ground (arith, (job_ok u v x t h).ledger);
          letter = ground (arith, (job_ok u v x t h).letter);
          counted = ground (arith, (job_ok u v x t h).counted);
          announced = ground (arith, (job_ok u v x t h).announced);
          history = λ n. ground (arith, (job_ok u v x t h).history n);
          capped = ground (arith, (job_ok u v x t h).capped);
          room = λ e. ground (arith, (job_ok u v x t h).capped, (job_ok u v x t h).running);
          running = λ e. cc;
          token = refl;
          lease = refl;
        }

    -- On a well-formed database, with fresh uuids: return_to_queue by the holder of the claim
    -- succeeds and keeps it well formed, the job is as the SET clause says (pending, with one
    -- attempt less), and no other job and no row of another table changes.
    pub return_to_queue-held :
        (delay : ℕ)
        → let j' = set_returned now delay j in
          (db' : Db) × (return_to_queue now x t delay db ≡ ok (some (transition j'), db'))
          × IsValid u db'
          × (find x db'.jobs ≡ some j')
          × ((i : ℕ) → x ≢ i → find i db'.jobs ≡ find i db.jobs)
          × ((i : ℕ) → SameRows db db' i)
          × (db'.draws ≡ db.draws)
    unfolding return_to_queue
    return_to_queue-held delay =
        let set = set_returned now delay in
        let jobs =
          update_jobs_lem u (is_held x t) set (λ k. refl) (λ k. refl) x (is_held-id x t) db
            v.distinct in
        let same : (i : ℕ) → SameRows db (updated x t db set) i = λ i. record {
          same_delivered = refl;
          same_lettered = refl;
          same_tries = refl;
          same_events = refl;
          same_tried = λ n. refl;
        } in
        let valid =
          update-IsValid u (is_held x t) set (λ k. refl) (λ k. refl) v refl (omega arith)
            v.unused_events (λ n i k _ _ _ e. cc)
            (keyed-rows u (is_held x t) set (λ k. refl) (λ k. refl) x (is_held-id x t) v
              (at_row u v x t h).0 (at_row u v x t h).1 (returned-JobOk delay) (λ i _. same i)) in
        (
          updated x t db set,
          rw (jobs, h) refl,
          valid,
          rw
              (
                find-update (is_held x t) set (λ k. refl) x db.jobs,
                (at_row u v x t h).0,
                (at_row u v x t h).1,
              )
              refl,
          (λ i ne.
              rw (find-update (is_held x t) set (λ k. refl) i db.jobs)
                (unhit u v x t h set i ne (find i db.jobs) refl)),
          same,
          refl,
        )
