-- ===== src/History/Safety.antt =====
-- What holds of the tables after any history: the ledger of deliveries, the dead letters, the attempt
-- history and the outbox.
use notify_queue.Prelude.{
  ℕ, ◌≤◌, ◌≡◌, refl, ◌↔◌, ◌&&◌, Option, none, some, arith, leb, Option-cases, inl, inr, count_where,
  exists_where,
}
use notify_queue.Domain.{Job, JobStatus}
use notify_queue.Tables.{Db, Uuids, IsFresh, find, empty_db}
use notify_queue.Invariant.{
  IsValid, JobOk, RowOk, NoRows, delivered, lettered, tries, events, tried, finished,
}
use notify_queue.History.{Reach, here, next}
use notify_queue.History.Evolution.{Step-Evolves}

pub empty-IsValid : (u : Uuids) → IsValid u empty_db
unfolding count_where exists_where
empty-IsValid u = record {
  rows = λ i. record {
    no_delivery = refl;
    no_letter = refl;
    no_tries = refl;
    no_events = refl;
    no_history = λ n. refl;
  };
  distinct = tt;
  keys = λ k. omega arith;
  unused_ids = λ n h. refl;
  unused_tokens = λ n i j h e. cc;
  unused_events = λ n h. refl;
}

-- With fresh uuids, every history that starts in a well-formed database keeps it well formed.
pub Reach-IsValid :
    (u : Uuids) → IsFresh u → {db db' : Db} → IsValid u db → Reach u db db' → IsValid u db'
Reach-IsValid u f v here = v
Reach-IsValid u f v (next r s) = (Step-Evolves u f (Reach-IsValid u f v r) s).valid

module _ (u : Uuids) (f : IsFresh u) {db : Db} (r : Reach u empty_db db) (i : ℕ) where
  valid : IsValid u db
  valid = Reach-IsValid u f (empty-IsValid u) r

  row-ok : RowOk (find i db.jobs) db i
  row-ok = valid.rows i

  -- With fresh uuids, after any history from empty tables: a job has at most one delivery in the
  -- ledger, and has one exactly when it is there with status sent.
  pub delivered-once :
      (delivered db i ≤ 1)
      × ((delivered db i ≡ 1)
          ↔ ((j : Job) × (find i db.jobs ≡ some j) × (j.status ≡ JobStatus.sent)))
  delivered-once = elim (Option-cases (find i db.jobs)) [
    | inl e ↦ rw e (no_job (rw e at row-ok))
    | inr (j, e) ↦ rw e (a_job j (rw e at row-ok))
  ]
    where
      Claim : Option Job → Type 0
      Claim o =
          (delivered db i ≤ 1)
          × ((delivered db i ≡ 1) ↔ ((j : Job) × (o ≡ some j) × (j.status ≡ JobStatus.sent)))

      no_job : NoRows db i → Claim none
      no_job n = (
        omega (arith, n.no_delivery),
        (λ h. absurd (omega (arith, n.no_delivery)), λ h. cc (h.1)),
      )

      a_job : (j : Job) → JobOk j db i → Claim (some j)
      a_job j k = (
        ground (arith, k.ledger),
        (
          (λ h. (j, refl, ground (arith, k.ledger))),
          (λ h. let same : j.status ≡ h.0.status = cc (h.1) in ground (arith, k.ledger, same, h.2)),
        ),
      )

  -- With fresh uuids, after any history from empty tables: a job has at most one dead letter, and
  -- has one exactly when it is there with status dead_lettered.
  pub lettered-once :
      (lettered db i ≤ 1)
      × ((lettered db i ≡ 1)
          ↔ ((j : Job) × (find i db.jobs ≡ some j) × (j.status ≡ JobStatus.dead_lettered)))
  lettered-once = elim (Option-cases (find i db.jobs)) [
    | inl e ↦ rw e (no_job (rw e at row-ok))
    | inr (j, e) ↦ rw e (a_job j (rw e at row-ok))
  ]
    where
      Claim : Option Job → Type 0
      Claim o =
          (lettered db i ≤ 1)
          × ((lettered db i ≡ 1)
              ↔ ((j : Job) × (o ≡ some j) × (j.status ≡ JobStatus.dead_lettered)))

      no_job : NoRows db i → Claim none
      no_job n =
          (omega (arith, n.no_letter), (λ h. absurd (omega (arith, n.no_letter)), λ h. cc (h.1)))

      a_job : (j : Job) → JobOk j db i → Claim (some j)
      a_job j k = (
        ground (arith, k.letter),
        (
          (λ h. (j, refl, ground (arith, k.letter))),
          (λ h. let same : j.status ≡ h.0.status = cc (h.1) in ground (arith, k.letter, same, h.2)),
        ),
      )

  -- With fresh uuids, after any history from empty tables: the attempt rows of a job are numbered 1,
  -- 2, ... up to its finished attempts, without gap or repetition, there are as many webhook events,
  -- and its attempts never pass the cap.
  pub history-exact :
      (j : Job)
      → find i db.jobs ≡ some j
      → ((n : ℕ) → tried db i n ≡ (leb 1 n && leb n (finished j)))
        × (tries db i ≡ finished j)
        × (events db i ≡ finished j)
        × (j.attempts ≤ j.max_attempts)
  history-exact j e =
      let k : JobOk j db i = rw e at row-ok in (k.history, k.counted, k.announced, k.capped)
