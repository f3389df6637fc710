-- ===== src/Invariant/Claim.antt =====
-- `claim_due_jobs` keeps the database well formed, and what it does to each job.
use notify_queue.Prelude.{
  ℕ, ◌+◌, ◌≤◌, ◌≡◌, refl, ◌≢◌, Bool, true, Option, none, some, arith, String, update_where,
  Bool-cases, inl, inr, map, select, sort_by,
}
use notify_queue.Domain.{Job}
use notify_queue.Tables.{Db, Uuids, IsFresh, find}
use notify_queue.Tables.Tx.{ok}
use notify_queue.Tables.Find.{change, find-id}
use notify_queue.Jobs.Claim.{before, is_due, due, claimed, in_due, claim_due_jobs}
use notify_queue.Selection.{pick_sound}
use notify_queue.Invariant.{IsValid, JobOk, RowOk}
use notify_queue.Invariant.Recording.{SameRows, SameRows-RowOk}
use notify_queue.Invariant.Update.{update-IsValid}

module _ (u : Uuids) (f : IsFresh u) {db : Db} (v : IsValid u db) (locked : ℕ → Bool) (now : ℕ)
    (worker_id : String) (batch_size lease : ℕ) where
  abbrev pub claim_hit : Job → Bool
  claim_hit = in_due locked now batch_size db.jobs

  abbrev pub claim_set : Job → Job
  claim_set = claimed u now worker_id lease db.draws

  unfoldable pub after_claim : Db
  after_claim = record db { jobs = update_where claim_hit claim_set db.jobs; draws = db.draws + 1 }

  -- A row that the statement claims is due, and no other transaction holds it.
  pub claimed-due :
      (i : ℕ) (j : Job)
      → find i db.jobs ≡ some j
      → in_due locked now batch_size db.jobs j ≡ true
      → is_due locked now j ≡ true
  unfolding due
  claimed-due i j e h =
      let (k, at, due_k) =
        pick_sound (is_due locked now) before batch_size j.id db.jobs v.distinct h in
      ground (arith, find-id i db.jobs {j = j})

  claimed-JobOk :
      (i : ℕ) (j : Job)
      → JobOk j db i
      → is_due locked now j ≡ true
      → JobOk (claim_set j) after_claim i
  unfolding after_claim
  claimed-JobOk i j k h = record {
    ledger = ground (arith, k.ledger);
    letter = ground (arith, k.letter);
    counted = ground (arith, k.counted);
    announced = ground (arith, k.announced);
    history = λ n. ground (arith, k.history n);
    capped = ground (arith, k.room);
    room = λ e. cc;
    running = λ e. omega arith;
    token = refl;
    lease = refl;
  }

  after_claim-SameRows : (i : ℕ) → SameRows db after_claim i
  unfolding after_claim
  after_claim-SameRows i = record {
    same_delivered = refl;
    same_lettered = refl;
    same_tries = refl;
    same_events = refl;
    same_tried = λ n. refl;
  }

  claimed-RowOk :
      (i : ℕ) (o : Option Job)
      → find i db.jobs ≡ o
      → RowOk o db i
      → RowOk (change claim_hit claim_set o) after_claim i
  claimed-RowOk i none e r = SameRows-RowOk none (after_claim-SameRows i) r
  claimed-RowOk i (some j) e r = elim (Bool-cases (claim_hit j)) [
    | inl y ↦ rw y (claimed-JobOk i j r (claimed-due i j e y))
    | inr z ↦ rw z (SameRows-RowOk (some j) (after_claim-SameRows i) r)
  ]

  claimed-token :
      (n i : ℕ) (j : Job)
      → db.draws + 1 ≤ n
      → find i db.jobs ≡ some j
      → (claim_set j).claim_token ≢ some (u.token n i)
  claimed-token n i j le e t = absurd (omega (arith, (f.token_once db.draws j.id n i (cc)).0))

  pub claim_lem :
      claim_due_jobs u locked now worker_id batch_size lease db
      ≡ ok (sort_by before (map claim_set (select claim_hit db.jobs)), after_claim)
  unfolding claim_due_jobs after_claim
  claim_lem = refl

  pub claim-IsValid : IsValid u after_claim
  unfolding after_claim
  claim-IsValid =
      update-IsValid u claim_hit claim_set (λ k. refl) (λ k. refl) v refl (omega arith)
        (λ n le. v.unused_events n (omega arith)) (λ n i j le e _. claimed-token n i j le e)
        (λ i. claimed-RowOk i (find i db.jobs) refl (v.rows i))
