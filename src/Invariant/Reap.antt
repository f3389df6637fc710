-- ===== src/Invariant/Reap.antt =====
-- `reap_expired_leases`: that the whole keeps the database well formed, and what it does.
use mathlib.Core.Path.{subst}
use mathlib.Core.List.{map-map}
use notify_queue.Prelude.{
  ℕ, ◌≤◌, ◌≡◌, refl, sym, ◌∙◌, ap, Bool, true, false, Option, none, some, List, [], ◌∷◌, arith,
  String, update_where, ◌==◌, ==_iff, Bool-cases, inl, inr, elem, map, select,
}
use notify_queue.Domain.{Job, is_processing, is_sent}
use notify_queue.Tables.{Db, Uuids, IsFresh, find, ids}
use notify_queue.Tables.Tx.{ok}
use notify_queue.Tables.Find.{change, find-id}
use notify_queue.Jobs.Finalize.{transition}
use notify_queue.Jobs.Reap.{
  ReapedRow, reap_row, set_reaped, is_expired, expired, in_expired, lease_before,
  reap_expired_leases,
}
use notify_queue.Selection.{
  pick_sound, Distinct-select, All-select, select-find, select-unsound, select_complete,
}
use notify_queue.Selection.Order.{All}
use notify_queue.Invariant.{IsValid, JobOk, RowOk}
use notify_queue.Invariant.Recording.{SameRows, SameRows-RowOk, Owed}
use notify_queue.Invariant.Update.{update-IsValid}
use notify_queue.Invariant.Losses.{
  row_ids, SameRows-trans, SameRows-Owed, OwedAll, OkAll, Loops, after_reap_all-Loops,
}

some_inj : {a b : Job} → some a ≡ some b → a ≡ b
some_inj e = cc

module _ (u : Uuids) (f : IsFresh u) (now : ℕ) (url : String) where
  module _ {db : Db} (v : IsValid u db) (locked : ℕ → Bool) (limit : ℕ) where
    abbrev pub reap_hit : Job → Bool
    reap_hit = in_expired locked now limit db.jobs

    reaped : Db
    reaped = record db { jobs = update_where reap_hit (set_reaped now) db.jobs }

    -- A row that the statement reaps is in processing, and its lease is over.
    pub reaped-expired :
        (i : ℕ) (j : Job)
        → find i db.jobs ≡ some j
        → reap_hit j ≡ true
        → is_expired locked now j ≡ true
    unfolding expired
    reaped-expired i j e h =
        let (k, at, over) =
          pick_sound (is_expired locked now) lease_before limit j.id db.jobs v.distinct h in
        ground (arith, find-id i db.jobs {j = j})

    reaped-SameRows : (i : ℕ) → SameRows db reaped i
    unfolding reaped
    reaped-SameRows i = record {
      same_delivered = refl;
      same_lettered = refl;
      same_tries = refl;
      same_events = refl;
      same_tried = λ n. refl;
    }

    reaped-Owed :
        (i : ℕ) (j : Job)
        → JobOk j db i
        → is_expired locked now j ≡ true
        → Owed (set_reaped now j) db i × (is_sent (set_reaped now j).status ≡ false)
    reaped-Owed i j k h =
        let busy : is_processing j.status ≡ true = ground arith in
        (
          record {
            stopped = ground arith;
            undelivered = ground (arith, k.ledger);
            unlettered = ground (arith, k.letter);
            started = ground (arith, k.running);
            counted = ground (arith, k.counted, k.running);
            announced = ground (arith, k.announced, k.running);
            history = λ n. ground (arith, k.history n);
            capped = k.capped;
            room = λ e. ground arith;
            token = refl;
            lease = refl;
          },
          ground arith,
        )

    abbrev reap_rows : List Job → List ReapedRow
    reap_rows = map (reap_row now)

    OwedAll-rows :
        (xs : List Job)
        → All (λ j. find j.id db.jobs ≡ some j) xs
        → All (λ j. reap_hit j ≡ true) xs
        → OwedAll (reap_rows xs) reaped
    OwedAll-rows [] a h = tt
    OwedAll-rows (j ∷ xs) a h =
        let (o, s) = reaped-Owed j.id j (rw a.0 at (v.rows j.id)) (reaped-expired j.id j a.0 h.0) in
        ((SameRows-Owed (reaped-SameRows j.id) o, s), OwedAll-rows xs a.1 h.1)

    row_ids-rows : (xs : List Job) → row_ids (reap_rows xs) ≡ ids xs
    row_ids-rows [] = refl
    row_ids-rows (j ∷ xs) = ap (◌∷◌ j.id) (row_ids-rows xs)

    hits : List Job
    hits = select reap_hit db.jobs

    looped : (db' : Db) × Loops u f now url (reap_rows hits) reaped db'
    unfolding hits reaped
    looped =
        after_reap_all-Loops u f now url (reap_rows hits) reaped v.unused_events
          (rw (row_ids-rows hits) (Distinct-select reap_hit db.jobs v.distinct))
          (OwedAll-rows hits (select-find reap_hit db.jobs v.distinct)
            (All-select reap_hit db.jobs))

    settled-at :
        (db' : Db) (i : ℕ) (xs : List Job)
        → All (λ j. find j.id db.jobs ≡ some j) xs
        → OkAll (reap_rows xs) db'
        → elem i (ids xs) ≡ true
        → (j : Job) × (find i db.jobs ≡ some j) × JobOk (set_reaped now j) db' i
    unfolding elem
    settled-at db' i [] a k h = cc
    settled-at db' i (x ∷ xs) a k h = elim (Bool-cases (x.id == i)) [
      | inl y ↦
          let e = (==_iff x.id i).0 y in
          (
            x,
            subst (λ n. find n db.jobs ≡ some x) e a.0,
            subst (λ n. JobOk (set_reaped now x) db' n) e k.0,
          )
      | inr z ↦ settled-at db' i xs a.1 k.1 (ground arith)
    ]

    reaped-RowOk :
        (db' : Db)
        → Loops u f now url (reap_rows hits) reaped db'
        → (i : ℕ) (o : Option Job) → find i db.jobs ≡ o
        → RowOk o db i
        → RowOk (change reap_hit (set_reaped now) o) db' i
    unfolding hits
    reaped-RowOk db' l i none e r =
        SameRows-RowOk none
          (SameRows-trans (reaped-SameRows i) (
            l.others i
              (rw (row_ids-rows hits) (select-unsound reap_hit i db.jobs v.distinct (λ j q. cc)))))
          r
    reaped-RowOk db' l i (some j) e r = elim (Bool-cases (reap_hit j)) [
      | inl y ↦
          let (k, at, k_ok) =
            settled-at db' i hits (select-find reap_hit db.jobs v.distinct) l.settled
              (select_complete reap_hit i db.jobs {j = j} e y) in
          rw y (subst (λ j. JobOk (set_reaped now j) db' i) (some_inj (sym at ∙ e)) k_ok)
      | inr z ↦ rw z (
          SameRows-RowOk (some j)
            (SameRows-trans (reaped-SameRows i) (
              l.others i (
                rw (row_ids-rows hits) (
                  select-unsound reap_hit i db.jobs v.distinct
                    (λ k q. cc (some_inj (sym q ∙ e)))))))
            r)
    ]

    -- With fresh uuids, a pass of the reaper succeeds on every well-formed database and keeps it so.
    -- It sets the rows that its statement hits, each to pending or dead-lettered as the SET clause
    -- says, and returns their transitions; every other job stays, with its rows.
    pub reap-ok :
        (db' : Db) × (reap_expired_leases u locked now limit url db
          ≡ ok (map (λ j. transition (set_reaped now j)) (select reap_hit db.jobs), db'))
        × IsValid u db'
        × (db'.jobs ≡ update_where reap_hit (set_reaped now) db.jobs)
        × ((i : ℕ) → ((j : Job) → find i db.jobs ≡ some j → reap_hit j ≡ false) → SameRows db db' i)
        × (db.draws ≤ db'.draws)
    unfolding reap_expired_leases reaped hits
    reap-ok =
        let (db', l) = looped in
        (
          db',
          rw l.done (
              ap (λ ts. ok (ts, db'))
                (map-map (λ (r : ReapedRow). transition r.job) (reap_row now) hits)),
          update-IsValid u reap_hit (set_reaped now) (λ k. refl) (λ k. refl) v l.jobs_kept
              l.draws_grow l.unused (λ n i j _ _ _ e. cc)
              (λ i. reaped-RowOk db' l i (find i db.jobs) refl (v.rows i)),
          l.jobs_kept,
          (λ i h. SameRows-trans (reaped-SameRows i) (
              l.others i
                (rw (row_ids-rows hits) (select-unsound reap_hit i db.jobs v.distinct h)))),
          l.draws_grow,
        )
