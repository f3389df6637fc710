-- ===== src/History/Idempotence.antt =====
-- Idempotency keys over time: a key names one job for ever.
use notify_queue.Prelude.{
  ℕ, ◌≤◌, ◌≡◌, refl, ◌∙◌, String, Bool, true, false, some, List, [], ◌∷◌, arith, count_where,
  select, first, str_eq_iff, exists_where,
}
use notify_queue.Domain.{Job, NewJob}
use notify_queue.Tables.{Db, Uuids, IsFresh, find}
use notify_queue.Tables.Tx.{ok}
use notify_queue.Jobs.Create.{create_job, conflicts, has_key, get_job_by_idempotency_key}
use notify_queue.Invariant.{IsValid}
use notify_queue.Invariant.Create.{insert_replay}
use notify_queue.History.{Reach, here, next}
use notify_queue.History.Evolution.{Step-Evolves}
use notify_queue.History.Moves.{Move, stay, claim, send, fail, put_back, reap, requeue}
use notify_queue.History.Safety.{Reach-IsValid}

Move-key :
    (u : Uuids) (draw : ℕ) (j j' : Job) → Move u draw j j' → j'.idempotency_key ≡ j.idempotency_key
Move-key u draw j j' (stay e) = rw e refl
Move-key u draw j j' (claim now w l p d e) = rw e refl
Move-key u draw j j' (send now p e) = rw e refl
Move-key u draw j j' (fail now er d b p e) = rw e refl
Move-key u draw j j' (put_back now d p e) = rw e refl
Move-key u draw j j' (reap now p e) = rw e refl
Move-key u draw j j' (requeue now ex m p e) = rw e refl

module _ (u : Uuids) (f : IsFresh u) (i : ℕ) where
  Reach-key :
      {db db' : Db} (j : Job)
      → IsValid u db
      → find i db.jobs ≡ some j
      → Reach u db db'
      → (j' : Job) × (find i db'.jobs ≡ some j') × (j'.idempotency_key ≡ j.idempotency_key)
  Reach-key j v e here = (j, e, refl)
  Reach-key j v e (next {mid} r s) =
      let (k, ek, same) = Reach-key j v e r in
      let (l, el, m) = (Step-Evolves u f (Reach-IsValid u f v r) s).moves i k ek in
      (l, el, Move-key u mid.draws k l m ∙ same)

module _ (p : Job → Bool) (i : ℕ) where
  find-count : (js : List Job) {a : Job} → find i js ≡ some a → p a ≡ true → 1 ≤ count_where p js
  unfolding count_where
  find-count [] h y = cc
  find-count (x ∷ xs) {a} h y = ground (arith, find-count xs {a = a})

  find-exists :
      (js : List Job) {a : Job} → find i js ≡ some a → p a ≡ true → exists_where p js ≡ true
  unfolding exists_where
  find-exists [] h y = cc
  find-exists (x ∷ xs) {a} h y = ground (arith, find-exists xs {a = a})

  -- The only row that passes a test is the first one.
  only-row :
      (js : List Job) {a : Job}
      → count_where p js ≤ 1
      → find i js ≡ some a
      → p a ≡ true
      → first (select p js) ≡ some a
  unfolding count_where select
  only-row [] c h y = cc
  only-row (x ∷ xs) {a} c h y = ground (arith, only-row xs {a = a}, find-count xs {a = a})

-- A request under the key of a job that is there, and has no rival.
replay-job :
    (u : Uuids) (i now : ℕ) (new : NewJob) (k : String) (db : Db) {j : Job}
    → count_where (has_key k) db.jobs ≤ 1
    → find i db.jobs ≡ some j
    → j.idempotency_key ≡ some k
    → new.idempotency_key ≡ some k
    → 1 ≤ new.max_attempts
    → create_job u now new db ≡ ok ((j, false), db)
unfolding create_job conflicts get_job_by_idempotency_key
replay-job u i now new k db {j} one e key same more =
    let has : has_key k j ≡ true = rw key ((str_eq_iff k k).1 refl) in
    let taken = find-exists (has_key k) i db.jobs {a = j} e has in
    let row = only-row (has_key k) i db.jobs {a = j} one e has in
    rw (insert_replay u now new db more (rw same taken), same, row) refl

module _ (u : Uuids) (f : IsFresh u) where
  -- With fresh uuids, from a well-formed database: however the tables have changed since a job was
  -- there under an idempotency key, another request with the key (one that allows an attempt) gets
  -- that job and creates nothing.
  pub create-replays :
      {db db' : Db} (i : ℕ) (j : Job) (k : String)
      → IsValid u db
      → find i db.jobs ≡ some j
      → j.idempotency_key ≡ some k
      → Reach u db db'
      → (now : ℕ) (new : NewJob) → new.idempotency_key ≡ some k
      → 1 ≤ new.max_attempts
      → (j' : Job) × (find i db'.jobs ≡ some j')
        × (create_job u now new db' ≡ ok ((j', false), db'))
  create-replays {db} {db'} i j k v e key r now new same more =
      let (j', e', key') = Reach-key u f i j v e r in
      (
        j',
        e',
        replay-job u i now new k db' ((Reach-IsValid u f v r).keys k) e' (key' ∙ key) same more,
      )
