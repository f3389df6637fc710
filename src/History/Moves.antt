-- ===== src/History/Moves.antt =====
-- What a transaction may do to a job.
use notify_queue.Prelude.{
  ℕ, ◌≤◌, ◌≡◌, refl, ◌∙◌, ◌≢◌, inl, inr, Bool, true, none, some, arith, String, ◌==◌, ==_iff,
  Bool-cases,
}
use mathlib.Core.Path.{subst, ap}
use notify_queue.Domain.{Job, is_pending, is_processing, is_dead}
use notify_queue.Tables.{Db, Uuids, find}
use notify_queue.Tables.Find.{change}
use notify_queue.Jobs.Claim.{claimed}
use notify_queue.Jobs.Finalize.{set_sent, set_failed, set_returned}
use notify_queue.Jobs.Reap.{set_reaped, set_requeued}
use notify_queue.Invariant.{IsValid}

-- A job's next row, `draw` being the number of the next uuid.
pub data Move (u : Uuids) (draw : ℕ) (j j' : Job) : Type 0 where
  stay : j' ≡ j → Move u draw j j'
  claim :
      (now : ℕ) (worker_id : String) (lease : ℕ)
      → is_pending j.status ≡ true
      → j.run_at ≤ now
      → j' ≡ claimed u now worker_id lease draw j
      → Move u draw j j'
  send : (now : ℕ) → is_processing j.status ≡ true → j' ≡ set_sent now j → Move u draw j j'
  fail :
      (now : ℕ) (error : String) (delay : ℕ) (permanent : Bool)
      → is_processing j.status ≡ true
      → j' ≡ set_failed now error delay permanent j
      → Move u draw j j'
  put_back :
      (now delay : ℕ)
      → is_processing j.status ≡ true
      → j' ≡ set_returned now delay j
      → Move u draw j j'
  reap : (now : ℕ) → is_processing j.status ≡ true → j' ≡ set_reaped now j → Move u draw j j'
  requeue :
      (now extra : ℕ)
      → 1 ≤ extra
      → is_dead j.status ≡ true
      → j' ≡ set_requeued now extra j
      → Move u draw j j'

-- Between two databases every job makes one move, and a new job is pending.
pub record Evolves (u : Uuids) (db db' : Db) : Type 0 where
  pub valid : IsValid u db'
  pub grows : db.draws ≤ db'.draws
  pub moves :
      (i : ℕ) (j : Job)
      → find i db.jobs ≡ some j
      → (j' : Job) × (find i db'.jobs ≡ some j') × Move u db.draws j j'
  pub born :
      (i : ℕ)
      → find i db.jobs ≡ none
      → (j' : Job) → find i db'.jobs ≡ some j'
      → is_pending j'.status ≡ true

module _ (u : Uuids) {db : Db} (v : IsValid u db) where
  pub Evolves-same : {db' : Db} → db ≡ db' → Evolves u db db'
  Evolves-same {db'} e = subst (Evolves u db) e (record {
    valid = v;
    grows = omega arith;
    moves = λ i j h. (j, h, stay refl);
    born = λ i h j' h'. cc;
  })

  -- One row changes, by one move.
  pub Evolves-one :
      (x : ℕ) {j k : Job} {db' : Db}
      → IsValid u db'
      → db.draws ≤ db'.draws
      → find x db.jobs ≡ some j
      → find x db'.jobs ≡ some k
      → Move u db.draws j k
      → ((i : ℕ) → x ≢ i → find i db'.jobs ≡ find i db.jobs)
      → Evolves u db db'
  Evolves-one x {j} {k} {db'} valid grows before after move others = record {
    valid = valid;
    grows = grows;
    moves = moved;
    born = λ i h j' h'. elim (Bool-cases (x == i)) [
      | inl y ↦ let e = (==_iff x i).0 y in cc (before, h, ap (λ n. find n db.jobs) e)
      | inr z ↦ let o = others i (ground arith) in cc
    ];
  }
    where
      moved :
          (i : ℕ) (l : Job)
          → find i db.jobs ≡ some l
          → (l' : Job) × (find i db'.jobs ≡ some l') × Move u db.draws l l'
      moved i l h = elim (Bool-cases (x == i)) [
        | inl y ↦
            let e = (==_iff x i).0 y in
            (
              k,
              subst (λ n. find n db'.jobs ≡ some k) e after,
              subst (λ a. Move u db.draws a k) (cc (before, h, ap (λ n. find n db.jobs) e)) move,
            )
        | inr z ↦ (l, others i (ground arith) ∙ h, stay refl)
      ]

  -- The rows that a test hits change, by one move each.
  pub Evolves-update :
      {db' : Db} (hit : Job → Bool) (set : Job → Job)
      → IsValid u db'
      → db.draws ≤ db'.draws
      → ((i : ℕ) → find i db'.jobs ≡ change hit set (find i db.jobs))
      → ((i : ℕ) (j : Job) → find i db.jobs ≡ some j → hit j ≡ true → Move u db.draws j (set j))
      → Evolves u db db'
  Evolves-update {db'} hit set valid grows found move = record {
    valid = valid;
    grows = grows;
    moves = λ i j h. elim (Bool-cases (hit j)) [
      | inl y ↦ (set j, rw (found i, h, y) refl, move i j h y)
      | inr z ↦ (j, rw (found i, h, z) refl, stay refl)
    ];
    born = λ i h j' h'. ground (arith, found i);
  }
