-- ===== src/Reaper/Progress.antt =====
-- That a pass of the reaper leaves no expired job behind, unless it was full.
use notify_queue.Prelude.{
  ℕ, zero, suc, ◌+◌, ◌≤◌, ◌≡◌, refl, sym, ◌∙◌, ap, Bool, true, false, some, List, [], ◌∷◌, arith,
  length, take, select, insert_by, sort_by, count_where, elem, Bool-cases, inl, inr, if◌then◌else◌,
  update_where, ◌⊎◌,
}
use mathlib.Core.Path.{subst}
use notify_queue.Domain.{Job}
use notify_queue.Tables.{Db, IsFresh, find, ids}
use notify_queue.Tables.Tx.{ok, continue, pure}
use notify_queue.Tables.Find.{change, find-update, find-id}
use notify_queue.Selection.{elem-sort, select_complete}
use notify_queue.Jobs.Finalize.{Transition}
use notify_queue.Jobs.RateLimit.{delete_old_rate_limit_buckets}
use notify_queue.Jobs.Reap.{is_expired, lease_before, expired, in_expired, set_reaped}
use notify_queue.Invariant.{IsValid}
use notify_queue.Invariant.Reap.{reap-ok, reaped-expired}
use notify_queue.History.Unseen.{cleans-Unseen, Unseen-Evolves}
use notify_queue.Worker.{World, Config}
use notify_queue.Reaper.{reap_pass, run_once, on_reaped}
use notify_queue.Fleet.Events.{invalidate_all-Calm}

module _ {ℓ} {A : Type ℓ} where
  take-all : (n : ℕ) (xs : List A) → length xs ≤ n → take n xs ≡ xs
  take-all zero [] h = refl
  take-all zero (x ∷ xs) h = absurd (omega (arith, h))
  take-all (suc n) [] h = refl
  take-all (suc n) (x ∷ xs) h = ap (λ ys. x ∷ ys) (take-all n xs (omega (arith, h)))

  length-select : (p : A → Bool) (xs : List A) → length (select p xs) ≡ count_where p xs
  unfolding select count_where
  length-select p [] = refl
  length-select p (x ∷ xs) = ground (arith, length-select p xs)

  length-insert :
      (le : A → A → Bool) (x : A) (xs : List A) → length (insert_by le x xs) ≡ length xs + 1
  unfolding insert_by
  length-insert le x [] = omega arith
  length-insert le x (y ∷ ys) = ground (arith, length-insert le x ys)

  length-sort : (le : A → A → Bool) (xs : List A) → length (sort_by le xs) ≡ length xs
  unfolding sort_by
  length-sort le [] = refl
  length-sort le (x ∷ xs) = omega (arith, length-insert le x (sort_by le xs), length-sort le xs)

-- A batch that is not full takes every expired job.
all_expired :
    (locked : ℕ → Bool) (now limit i : ℕ) (jobs : List Job) {j : Job}
    → count_where (is_expired locked now) jobs ≤ limit
    → find i jobs ≡ some j
    → is_expired locked now j ≡ true
    → in_expired locked now limit jobs j ≡ true
unfolding expired
all_expired locked now limit i jobs {j} room at over =
    let picked = select (is_expired locked now) jobs in
    let whole : take limit (sort_by lease_before picked) ≡ sort_by lease_before picked =
      take-all limit (sort_by lease_before picked) (
        omega (
          arith,
          length-sort lease_before picked,
          length-select (is_expired locked now) jobs,
          room,
        )) in
    let there : elem i (ids picked) ≡ true =
      select_complete (is_expired locked now) i jobs {j = j} at over in
    ap (λ rows. elem j.id (ids rows)) whole
    ∙ elem-sort lease_before j.id picked
    ∙ ap (λ k. elem k (ids picked)) (find-id i jobs {j = j} at)
    ∙ there

module _ (c : Config) (f : IsFresh c.uuids) (locked : ℕ → Bool) (now : ℕ) (w : World)
    (v : IsValid c.uuids w.db) where
  -- The transaction of a pass: what the reaper has done, less the buckets of past windows.
  pass_lem :
      (ts : List Transition) × (db' : Db) × (reap_pass c locked now w.db ≡ ok (ts, db'))
      × IsValid c.uuids db'
      × (db'.jobs
          ≡ update_where
              (in_expired locked now c.settings.reaper_batch_size w.db.jobs)
              (set_reaped now)
              w.db.jobs)
  unfolding reap_pass delete_old_rate_limit_buckets
  pass_lem =
      let s = c.settings in
      let (mid, reaped, valid, jobs, _, _) =
        reap-ok c.uuids f now s.default_callback_url v locked s.reaper_batch_size in
      let unseen = cleans-Unseen {db = mid} now s.rate_limit_window_seconds _ refl in
      (
        _,
        _,
        ap
            (λ r. continue r (λ rs db.
              continue (delete_old_rate_limit_buckets now s.rate_limit_window_seconds db)
                (λ _. pure rs)))
            reaped,
        (Unseen-Evolves c.uuids valid unseen).valid,
        jobs,
      )

  -- With fresh uuids, on a well-formed database with at most reaper_batch_size expired jobs that
  -- nobody holds locked: one pass of the reaper reclaims every one of them, as its SET clause says,
  -- and leaves every other job as it is; the database stays well formed.
  pub run_once-reclaims :
      count_where (is_expired locked now) w.db.jobs ≤ c.settings.reaper_batch_size
      → (i : ℕ) {j : Job} → find i w.db.jobs ≡ some j
      → let run = run_once c locked now w in
        IsValid c.uuids run.1.db
        × (find i run.1.db.jobs ≡ some (if is_expired locked now j then set_reaped now j else j))
  unfolding run_once
  run_once-reclaims room i {j} at =
      let (ts, db', done, valid, jobs) = pass_lem in
      let left : (run_once c locked now w).1.db ≡ db' =
        ap (λ r. (on_reaped c.settings w r).1.db) done
        ∙ (invalidate_all-Calm c.uuids c.settings ts (record w { db = db' })).0 in
      let hit = in_expired locked now c.settings.reaper_batch_size w.db.jobs in
      let row : find i db'.jobs ≡ change hit (set_reaped now) (some j) =
        ap (find i) jobs
        ∙ find-update hit (set_reaped now) (λ k. refl) i w.db.jobs
        ∙ ap (change hit (set_reaped now)) at in
      (
        subst (IsValid c.uuids) (sym left) valid,
        ap (λ d. find i d.jobs) left ∙ row ∙ taken (Bool-cases (is_expired locked now j)),
      )
    where
      taken :
          (is_expired locked now j ≡ true) ⊎ (is_expired locked now j ≡ false)
          → change
              (in_expired locked now c.settings.reaper_batch_size w.db.jobs)
              (set_reaped now)
              (some j)
            ≡ some (if is_expired locked now j then set_reaped now j else j)
      taken (inl y) =
          rw (y, all_expired locked now c.settings.reaper_batch_size i w.db.jobs {j = j} room at y)
            refl
      taken (inr z) =
          elim (Bool-cases (in_expired locked now c.settings.reaper_batch_size w.db.jobs j)) [
            | inl h ↦ cc (
              z,
              reaped-expired c.uuids f now c.settings.default_callback_url v locked
                  c.settings.reaper_batch_size i j at h,
            )
            | inr h ↦ rw (z, h) refl
          ]
