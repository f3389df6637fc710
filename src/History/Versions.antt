-- ===== src/History/Versions.antt =====
-- The version of a job, which the cache relies on.
use notify_queue.Prelude.{ℕ, ◌+◌, ◌≤◌, ◌≡◌, refl, ◌⊎◌, inl, inr, some, arith}
use notify_queue.Domain.{Job}
use notify_queue.Tables.{Db, Uuids, IsFresh, find}
use notify_queue.Invariant.{IsValid}
use notify_queue.History.{Reach, here, next}
use notify_queue.History.Evolution.{Step-Evolves}
use notify_queue.History.Moves.{Move, stay, claim, send, fail, put_back, reap, requeue}
use notify_queue.History.Safety.{Reach-IsValid}

Move-version :
    (u : Uuids) (draw : ℕ) (j j' : Job) → Move u draw j j' → (j' ≡ j) ⊎ (j'.version ≡ j.version + 1)
Move-version u draw j j' (stay e) = inl e
Move-version u draw j j' (claim now w l p d e) = inr (ground (arith, e))
Move-version u draw j j' (send now p e) = inr (ground (arith, e))
Move-version u draw j j' (fail now er d b p e) = inr (ground (arith, e))
Move-version u draw j j' (put_back now d p e) = inr (ground (arith, e))
Move-version u draw j j' (reap now p e) = inr (ground (arith, e))
Move-version u draw j j' (requeue now ex m p e) = inr (ground (arith, e))

version-chain :
    (j k l : Job)
    → (j.version ≤ k.version) × (k.version ≡ j.version → k ≡ j)
    → (l ≡ k) ⊎ (l.version ≡ k.version + 1)
    → (j.version ≤ l.version) × (l.version ≡ j.version → l ≡ j)
version-chain j k l h (inl e) = rw e h
version-chain j k l h (inr e) = (omega (arith, h.0), λ q. absurd (omega (arith, h.0)))

module _ (u : Uuids) (f : IsFresh u) (i : ℕ) where
  -- With fresh uuids, in every history from a well-formed database: a job stays, its version never
  -- falls, and if its version is what it was then so is the whole row.
  pub Reach-version :
      {db db' : Db} (j : Job)
      → IsValid u db
      → find i db.jobs ≡ some j
      → Reach u db db'
      → (j' : Job) × (find i db'.jobs ≡ some j')
        × (j.version ≤ j'.version)
        × (j'.version ≡ j.version → j' ≡ j)
  Reach-version j v e here = (j, e, omega arith, λ q. refl)
  Reach-version j v e (next {mid} r s) =
      let (k, ek, ge, same) = Reach-version j v e r in
      let (l, el, m) = (Step-Evolves u f (Reach-IsValid u f v r) s).moves i k ek in
      let (ge', same') = version-chain j k l (ge, same) (Move-version u mid.draws k l m) in
      (l, el, ge', same')
