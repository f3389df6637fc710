-- ===== src/Invariant/Create.antt =====
-- `create_job`: a new job, a replay of an idempotency key, or a refused row.
use notify_queue.Prelude.{
  ℕ, ◌+◌, ◌≤◌, ◌≡◌, refl, ◌≢◌, Bool, true, false, Option, none, some, List, [], ◌∷◌, ◌++◌, arith,
  String, ◌==◌, ==_iff, str_eq, str_eq_iff, leb, exists_where, Bool-cases, Option-cases, inl, inr,
  if◌then◌else◌, count_where,
}
use mathlib.Core.List.{map-append}
use notify_queue.Domain.{Job, NewJob}
use notify_queue.Tables.{Db, Uuids, IsFresh, find, ids}
use notify_queue.Tables.Tx.{ok, raise, check_violation}
use notify_queue.Tables.Find.{find-append, find-elem, Distinct-append}
use notify_queue.Jobs.Create.{
  new_row, conflicts, insert_job, create_job, has_key, get_job_by_idempotency_key,
}
use notify_queue.Invariant.{IsValid, JobOk, NoRows, RowOk}
use notify_queue.Invariant.Counts.{
  job_id-ne, count_where-snoc, count_where-exists, exists_where-first,
}
use notify_queue.Invariant.Recording.{SameRows, SameRows-RowOk}

exists-find : (i : ℕ) (js : List Job) → find i js ≡ none → exists_where (λ j. j.id == i) js ≡ false
unfolding exists_where
exists-find i [] h = refl
exists-find i (j ∷ js) h = ground (arith, exists-find i js)

abbrev key_is : String → Option String → Bool
key_is k o = elim o [ none ↦ false | some s ↦ str_eq s k ]

module _ (u : Uuids) (f : IsFresh u) {db : Db} (v : IsValid u db) (now : ℕ) (new : NewJob) where
  row : Job
  row = new_row u now new db.draws

  inserted : Db
  inserted = record db { jobs = db.jobs ++ row ∷ []; draws = db.draws + 1 }

  row-JobOk : 1 ≤ new.max_attempts → NoRows db row.id → JobOk row inserted row.id
  unfolding inserted row new_row
  row-JobOk h n = record {
    ledger = n.no_delivery;
    letter = n.no_letter;
    counted = n.no_tries;
    announced = n.no_events;
    history = λ m. ground (arith, n.no_history m);
    capped = omega arith;
    room = λ e. omega arith;
    running = λ e. cc;
    token = refl;
    lease = refl;
  }

  found :
      (i : ℕ)
      → find i inserted.jobs
        ≡ elim (find i db.jobs) [ some k ↦ some k | none ↦ if row.id == i then some row else none ]
  unfolding inserted
  found i = find-append i db.jobs row

  new_there : find row.id db.jobs ≡ none
  unfolding row new_row
  new_there = v.unused_ids db.draws (omega arith)

  row-key : (k : String) → has_key k row ≡ key_is k new.idempotency_key
  unfolding row new_row
  row-key k = refl

  -- The counts of a key, when the row has it and when it has not.
  inserted-keys :
      conflicts new.idempotency_key db.jobs ≡ false
      → (k : String) → count_where (has_key k) inserted.jobs ≤ 1
  unfolding inserted conflicts
  inserted-keys c k =
      rw (count_where-snoc (has_key k) db.jobs row, row-key k) (key-count new.idempotency_key c k)
    where
      key-count :
          (o : Option String)
          → conflicts o db.jobs ≡ false
          → (k : String) → count_where (has_key k) db.jobs + (if key_is k o then 1 else 0) ≤ 1
      key-count none c k = omega (arith, v.keys k)
      key-count (some s) c k = elim (Bool-cases (str_eq s k)) [
        | inl y ↦
            let same : s ≡ k = (str_eq_iff s k).0 y in
            rw (y, count_where-exists (has_key k) db.jobs (rw same at c)) (omega arith)
        | inr z ↦ rw z (omega (arith, v.keys k))
      ]

  inserted-SameRows : (i : ℕ) → SameRows db inserted i
  unfolding inserted
  inserted-SameRows i = record {
    same_delivered = refl;
    same_lettered = refl;
    same_tries = refl;
    same_events = refl;
    same_tried = λ n. refl;
  }

  row-id : (n : ℕ) → db.draws + 1 ≤ n → (row.id == u.job_id n) ≡ false
  unfolding row new_row
  row-id n h = job_id-ne u f db.draws n (omega arith)

  row-token : row.claim_token ≡ none
  unfolding row new_row
  row-token = refl

  inserted-tokens :
      (n i : ℕ) (j : Job)
      → db.draws + 1 ≤ n
      → find i inserted.jobs ≡ some j
      → j.claim_token ≢ some (u.token n i)
  inserted-tokens n i j h e t =
      ground (arith, found i, v.unused_tokens n i j (omega arith), row-token)

  inserted-rows : 1 ≤ new.max_attempts → (i : ℕ) → RowOk (find i inserted.jobs) inserted i
  inserted-rows h i = rw (found i) (elim (Option-cases (find i db.jobs)) [
    | inr (k, e) ↦ rw e (SameRows-RowOk (some k) (inserted-SameRows i) (rw e at (v.rows i)))
    | inl e ↦ rw e (elim (Bool-cases (row.id == i)) [
      | inl y ↦
          let same = (==_iff row.id i).0 y in
          rw (y, ← same) (row-JobOk h (rw new_there at (v.rows row.id)))
      | inr z ↦ rw z (SameRows-RowOk none (inserted-SameRows i) (rw e at (v.rows i)))
    ])
  ])

  inserted-IsValid :
      1 ≤ new.max_attempts → conflicts new.idempotency_key db.jobs ≡ false → IsValid u inserted
  unfolding inserted
  inserted-IsValid h c = record {
    rows = inserted-rows h;
    distinct =
        rw (map-append (λ (j : Job). j.id) db.jobs (row ∷ []))
          (Distinct-append (ids db.jobs) row.id (find-elem row.id db.jobs new_there) v.distinct);
    keys = inserted-keys c;
    unused_ids = λ n le. rw (found (u.job_id n), v.unused_ids n (omega arith), row-id n le) refl;
    unused_tokens = inserted-tokens;
    unused_events = λ n le. v.unused_events n (omega arith);
  }

  insert_new :
      1 ≤ new.max_attempts
      → conflicts new.idempotency_key db.jobs ≡ false
      → insert_job u now new db ≡ ok (some row, inserted)
  unfolding insert_job inserted row
  insert_new h c =
      let there = new_there in
      ground (arith, exists-find (new_row u now new db.draws).id db.jobs there)

  -- On a well-formed database, with fresh uuids: a request that allows an attempt and has no key, or
  -- a key that no job has, adds its row, keeps the database well formed and changes nothing else.
  pub create-new :
      1 ≤ new.max_attempts
      → conflicts new.idempotency_key db.jobs ≡ false
      → (db' : Db) × (create_job u now new db ≡ ok ((new_row u now new db.draws, true), db'))
        × IsValid u db'
        × (db'.jobs ≡ db.jobs ++ new_row u now new db.draws ∷ [])
        × ((i : ℕ) → SameRows db db' i)
        × (db'.draws ≡ db.draws + 1)
  unfolding create_job inserted row
  create-new h c =
      (inserted, rw (insert_new h c) refl, inserted-IsValid h c, refl, inserted-SameRows, refl)

pub insert_replay :
    (u : Uuids) (now : ℕ) (new : NewJob) (db : Db)
    → 1 ≤ new.max_attempts
    → conflicts new.idempotency_key db.jobs ≡ true
    → insert_job u now new db ≡ ok (none, db)
unfolding insert_job
insert_replay u now new db h c = ground arith

-- No job allows no attempt: the CHECK constraint refuses the row.
pub create-refused :
    (u : Uuids) (now : ℕ) (new : NewJob) (db : Db)
    → leb 1 new.max_attempts ≡ false
    → create_job u now new db ≡ raise check_violation
unfolding create_job insert_job
create-refused u now new db h = rw h refl

conflict-row :
    (o : Option String) (db : Db)
    → conflicts o db.jobs ≡ true
    → (k : String) × (j : Job) × (o ≡ some k)
      × (get_job_by_idempotency_key o db ≡ ok (some j, db))
      × (has_key k j ≡ true)
unfolding conflicts get_job_by_idempotency_key
conflict-row none db c = cc
conflict-row (some k) db c =
    let (j, at, has) = exists_where-first (has_key k) db.jobs c in (k, j, refl, rw at refl, has)

-- A key that some job has: that job is returned, and nothing changes.
pub create-replay :
    (u : Uuids) (now : ℕ) (new : NewJob) (db : Db)
    → 1 ≤ new.max_attempts
    → conflicts new.idempotency_key db.jobs ≡ true
    → (k : String) × (j : Job) × (new.idempotency_key ≡ some k)
      × (create_job u now new db ≡ ok ((j, false), db))
      × (has_key k j ≡ true)
unfolding create_job
create-replay u now new db h c =
    let (k, j, e, at, has) = conflict-row new.idempotency_key db c in
    (k, j, e, rw (insert_replay u now new db h c, at) refl, has)
