-- ===== src/Invariant/Held.antt =====
-- The job that a claim holds, and what the end of its attempt keeps.
use notify_queue.Prelude.{
  ℕ, ◌+◌, ◌≤◌, ◌<◌, ◌≡◌, refl, ◌≢◌, Bool, true, false, Option, none, some, arith, update_where,
  ◌==◌, exists_where,
}
use notify_queue.Domain.{Job, is_processing, is_pending}
use notify_queue.Tables.{Db, Uuids, find}
use notify_queue.Tables.Find.{if_hit, if_hit-eq-some, change, find-update, find-id}
use notify_queue.Jobs.Finalize.{is_held}
use notify_queue.Invariant.{IsValid, JobOk, RowOk, delivered, lettered, events, tried, one_if}
use notify_queue.Invariant.Recording.{Owed, Records, Records-SameRows, SameRows}
use notify_queue.Invariant.Update.{update-IsValid, keyed-rows}

-- The job that a claim holds: the row with the id, in processing, under the token.
abbrev pub held : ℕ → ℕ → Db → Option Job
held x t db = if_hit (is_held x t) (find x db.jobs)

pub is_held-id : (x t : ℕ) (j : Job) → is_held x t j ≡ true → j.id ≡ x
is_held-id x t j h = ground arith

pub is_held-processing : (x t : ℕ) (j : Job) → is_held x t j ≡ true → is_processing j.status ≡ true
is_held-processing x t j h = ground arith

-- An attempt of job x has ended, and the job is now j.
pub record Ended (u : Uuids) (db db' : Db) (x : ℕ) (j : Job) (sent dead : Bool) : Type 0 where
  pub valid : IsValid u db'
  pub row : find x db'.jobs ≡ some j
  pub delivery : delivered db' x ≡ one_if sent
  pub letter : lettered db' x ≡ one_if dead
  pub one_event : events db' x ≡ events db x + 1
  pub recorded : tried db' x j.attempts ≡ true
  pub other_jobs : (i : ℕ) → x ≢ i → find i db'.jobs ≡ find i db.jobs
  pub other_rows : (i : ℕ) → x ≢ i → SameRows db db' i
  pub grows : db.draws ≤ db'.draws

-- The tables after the UPDATE of a fenced write.
abbrev pub updated : ℕ → ℕ → Db → (Job → Job) → Db
updated x t db set = record db { jobs = update_where (is_held x t) set db.jobs }

module _ (u : Uuids) {db : Db} (v : IsValid u db) (x t : ℕ) {j : Job}
    (h : held x t db ≡ some j) where
  pub at_row : (find x db.jobs ≡ some j) × (is_held x t j ≡ true)
  at_row = if_hit-eq-some (is_held x t) (find x db.jobs) h

  pub job_ok : JobOk j db x
  job_ok = rw at_row.0 at (v.rows x)

  -- The rows other than the claimed one, after the update and the record of the attempt.
  pub ending-IsValid :
      (set : Job → Job)
      → ((k : Job) → (set k).id ≡ k.id)
      → ((k : Job) → (set k).idempotency_key ≡ k.idempotency_key)
      → ((k : Job) → (set k).claim_token ≡ none)
      → (db' : Db) {sent dead : Bool}
      → Records x j.attempts sent dead
          (record db { jobs = update_where (is_held x t) set db.jobs })
          db'
      → RowOk (some (set j)) db' x
      → ((n : ℕ)
          → db'.draws ≤ n
          → exists_where (λ r. r.id == u.event_id n) db'.webhook_outbox ≡ false)
      → IsValid u db'
  ending-IsValid set same_id same_key no_token db' r ok_x events =
      update-IsValid u (is_held x t) set same_id same_key v r.jobs_kept (omega (arith, r.one_draw))
        events (λ n i k _ _ _ e. ground (arith, no_token k))
        (keyed-rows u (is_held x t) set same_id same_key x (is_held-id x t) v at_row.0 at_row.1 ok_x
          (λ i ne.
            let s = Records-SameRows r i ne in
            record {
              same_delivered = s.same_delivered;
              same_lettered = s.same_lettered;
              same_tries = s.same_tries;
              same_events = s.same_events;
              same_tried = s.same_tried;
            }))

  -- The claimed job, changed by the UPDATE, whose attempt is still to be recorded.
  pub owed :
      (k : Job)
      → k.attempts ≡ j.attempts
      → k.max_attempts ≡ j.max_attempts
      → is_processing k.status ≡ false
      → k.claim_token ≡ none
      → k.lease_expires_at ≡ none
      → (is_pending k.status ≡ true → k.attempts < k.max_attempts)
      → (set : Job → Job) → Owed k (updated x t db set) x
  owed k a m p no_token no_lease room set =
      let busy = is_held-processing x t j at_row.1 in
      record {
        stopped = p;
        undelivered = ground (arith, job_ok.ledger);
        unlettered = ground (arith, job_ok.letter);
        started = ground (arith, job_ok.running);
        counted = ground (arith, job_ok.counted, job_ok.running);
        announced = ground (arith, job_ok.announced, job_ok.running);
        history = λ n. ground (arith, job_ok.history n);
        capped = ground (arith, job_ok.capped);
        room = room;
        token = ground arith;
        lease = ground arith;
      }

  pub unhit :
      (set : Job → Job) (i : ℕ)
      → x ≢ i
      → (o : Option Job) → find i db.jobs ≡ o
      → change (is_held x t) set o ≡ o
  unhit set i ne none e = refl
  unhit set i ne (some k) e = ground (arith, find-id i db.jobs {j = k})

  -- What the end of the claimed attempt leaves: the row, its satellites, and all else as it was.
  pub ended :
      (set : Job → Job) (sent dead : Bool) (db' : Db)
      → Records x j.attempts sent dead (updated x t db set) db'
      → IsValid u db'
      → (set j).attempts ≡ j.attempts
      → ((k : Job) → (set k).id ≡ k.id)
      → Ended u db db' x (set j) sent dead
  ended set sent dead db' r valid a same_id = record {
    valid = valid;
    row =
        rw (r.jobs_kept, find-update (is_held x t) set same_id x db.jobs, at_row.0, at_row.1) refl;
    delivery = ground (arith, r.delivered_at x, job_ok.ledger, is_held-processing x t j at_row.1);
    letter = ground (arith, r.lettered_at x, job_ok.letter, is_held-processing x t j at_row.1);
    one_event = ground (arith, r.events_at x);
    recorded = ground (arith, r.tried_at x j.attempts);
    other_jobs = λ i ne.
        rw (r.jobs_kept, find-update (is_held x t) set same_id i db.jobs)
          (unhit set i ne (find i db.jobs) refl);
    other_rows = λ i ne.
        let s = Records-SameRows r i ne in
        record {
          same_delivered = s.same_delivered;
          same_lettered = s.same_lettered;
          same_tries = s.same_tries;
          same_events = s.same_events;
          same_tried = s.same_tried;
        };
    grows = omega (arith, r.one_draw);
  }
