-- ===== src/Invariant/Update.antt =====
-- An UPDATE of the jobs table keeps the database well formed, if each row fits its rows afterwards.
use notify_queue.Prelude.{
  ℕ, ◌≤◌, ◌≡◌, refl, sym, ◌∙◌, ap, ◌≢◌, Bool, true, false, Option, none, some, arith, map, String,
  update_where, first, Bool-cases, Option-cases, inl, inr, ◌==◌, str_eq, ==_iff, Distinct,
}
use notify_queue.Domain.{Job}
use notify_queue.Tables.{Db, Uuids, find, ids}
use notify_queue.Tables.Tx.{ok}
use notify_queue.Tables.Find.{
  change, if_hit, find-update, ids-update, find-id, select-key, update_where-none, to_list,
}
use notify_queue.Jobs.Create.{has_key}
use notify_queue.Jobs.Finalize.{update_jobs}
use notify_queue.Invariant.{IsValid, RowOk}
use notify_queue.Invariant.Recording.{SameRows, SameRows-RowOk}
use notify_queue.Invariant.Counts.{count_where-update}
use notify_queue.Invariant.Endings.{UnusedEvents}

abbrev pub map_row : (Job → Job) → Option Job → Option Job
map_row set none = none
map_row set (some j) = some (set j)

first-to_list : (set : Job → Job) (o : Option Job) → first (map set (to_list o)) ≡ map_row set o
first-to_list set none = refl
first-to_list set (some j) = refl

module _ (u : Uuids) (hit : Job → Bool) (set : Job → Job) (same_id : (j : Job) → (set j).id ≡ j.id)
    (same_key : (j : Job) → (set j).idempotency_key ≡ j.idempotency_key) where
  change-token :
      (db db' : Db)
      → IsValid u db
      → db.draws ≤ db'.draws
      → ((n i : ℕ) (j : Job)
          → db'.draws ≤ n
          → find i db.jobs ≡ some j
          → hit j ≡ true
          → (set j).claim_token ≢ some (u.token n i))
      → (n i : ℕ) (o : Option Job) (j : Job) → db'.draws ≤ n
      → find i db.jobs ≡ o
      → change hit set o ≡ some j
      → j.claim_token ≢ some (u.token n i)
  change-token db db' v le fresh n i none j h e c t = cc
  change-token db db' v le fresh n i (some k) j h e c t = elim (Bool-cases (hit k)) [
    | inl y ↦ fresh n i k h e y (ground arith)
    | inr z ↦ v.unused_tokens n i k (omega arith) e (ground arith)
  ]

  pub update-IsValid :
      {db db' : Db}
      → IsValid u db
      → db'.jobs ≡ update_where hit set db.jobs
      → db.draws ≤ db'.draws
      → UnusedEvents u db'
      → ((n i : ℕ) (j : Job)
          → db'.draws ≤ n
          → find i db.jobs ≡ some j
          → hit j ≡ true
          → (set j).claim_token ≢ some (u.token n i))
      → ((i : ℕ) → RowOk (change hit set (find i db.jobs)) db' i)
      → IsValid u db'
  update-IsValid {db} {db'} v e le events fresh rows = record {
    rows = λ i. rw (found i) (rows i);
    distinct = rw (e, ids-update hit set same_id db.jobs) v.distinct;
    keys = λ k.
        rw (e, count_where-update (has_key k) hit set (λ j. ap (key_test k) (same_key j)) db.jobs)
          (v.keys k);
    unused_ids = λ n h. rw (found (u.job_id n), v.unused_ids n (omega arith)) refl;
    unused_tokens = λ n i j h f.
        change-token db db' v le fresh n i (find i db.jobs) j h refl (sym (found i) ∙ f);
    unused_events = events;
  }
    where
      found : (i : ℕ) → find i db'.jobs ≡ change hit set (find i db.jobs)
      found i = rw e (find-update hit set same_id i db.jobs)

      key_test : String → Option String → Bool
      key_test k o = elim o [ none ↦ false | some s ↦ str_eq s k ]

  -- The test fixes the primary key.
  module _ (x : ℕ) (key : (j : Job) → hit j ≡ true → j.id ≡ x) where
    pub keyed-rows :
        {db db' : Db} {j : Job}
        → IsValid u db
        → find x db.jobs ≡ some j
        → hit j ≡ true
        → RowOk (some (set j)) db' x
        → ((i : ℕ) → x ≢ i → SameRows db db' i)
        → (i : ℕ) → RowOk (change hit set (find i db.jobs)) db' i
    keyed-rows {db} {db'} {j} v e h ok_x rest i = elim (Bool-cases (x == i)) [
      | inl y ↦ rw (← ((==_iff x i).0 y), e, h) ok_x
      | inr z ↦ elim (Option-cases (find i db.jobs)) [
        | inl none_there ↦
            rw none_there
              (SameRows-RowOk none (rest i (ground arith)) (rw none_there at (v.rows i)))
        | inr (k, there) ↦
            rw (there, missed k z there)
              (SameRows-RowOk (some k) (rest i (ground arith)) (rw there at (v.rows i)))
      ]
    ]
      where
        missed : (k : Job) → (x == i) ≡ false → find i db.jobs ≡ some k → hit k ≡ false
        missed k z there = ground (arith, key k, find-id i db.jobs {j = k})

    pub update_jobs_lem :
        (db : Db)
        → Distinct (ids db.jobs)
        → update_jobs hit set db
          ≡ ok (
            map_row set (if_hit hit (find x db.jobs)),
            record db { jobs = update_where hit set db.jobs },
          )
    unfolding update_jobs
    update_jobs_lem db d =
        rw (select-key hit x key db.jobs d, first-to_list set (if_hit hit (find x db.jobs))) refl

    -- No row is hit.
    pub update_jobs-miss :
        (db : Db)
        → Distinct (ids db.jobs)
        → if_hit hit (find x db.jobs) ≡ none
        → update_jobs hit set db ≡ ok (none, db)
    unfolding update_jobs
    update_jobs-miss db d h =
        let s = select-key hit x key db.jobs d in
        ground (arith, s, update_where-none hit set db.jobs)
