-- ===== src/History/Lifecycle.antt =====
-- DESIGN.md, "Job lifecycle": the diagram of the statuses, and that every transaction follows it.
use notify_queue.Prelude.{ℕ, ◌≡◌, ◌∙◌, ◌≢◌, ap, ◌⊎◌, inl, inr, some, arith}
use notify_queue.Domain.{Job, JobStatus}
use notify_queue.Tables.{Db, Uuids, IsFresh, find}
use notify_queue.Invariant.{IsValid}
use notify_queue.History.{Step, Reach, here, next}
use notify_queue.History.Evolution.{Step-Evolves}
use notify_queue.History.Moves.{Move, stay, claim, send, fail, put_back, reap, requeue}
use notify_queue.History.Safety.{Reach-IsValid}

infix 40 ◌⟶◌
pub data ◌⟶◌ : JobStatus → JobStatus → Type 0 where
  claimed : JobStatus.pending ⟶ JobStatus.processing
  delivered : JobStatus.processing ⟶ JobStatus.sent
  queued_again : JobStatus.processing ⟶ JobStatus.pending
  given_up : JobStatus.processing ⟶ JobStatus.dead_lettered
  requeued : JobStatus.dead_lettered ⟶ JobStatus.pending

Move-⟶ : (u : Uuids) (draw : ℕ) (j j' : Job) → Move u draw j j' → (j' ≡ j) ⊎ (j.status ⟶ j'.status)
Move-⟶ u draw j j' (stay e) = inl e
Move-⟶ u draw j j' (claim now w l p d e) = inr (grind (arith, claimed))
Move-⟶ u draw j j' (send now p e) = inr (grind (arith, delivered))
Move-⟶ u draw j j' (fail now er d b p e) = inr (grind (arith, queued_again, given_up))
Move-⟶ u draw j j' (put_back now d p e) = inr (grind (arith, queued_again))
Move-⟶ u draw j j' (reap now p e) = inr (grind (arith, queued_again, given_up))
Move-⟶ u draw j j' (requeue now ex m p e) = inr (grind (arith, requeued))

no_edge : (s t : JobStatus) → s ⟶ t → s ≢ JobStatus.sent
no_edge s t claimed = λ e. cc
no_edge s t delivered = λ e. cc
no_edge s t queued_again = λ e. cc
no_edge s t given_up = λ e. cc
no_edge s t requeued = λ e. cc

module _ (u : Uuids) (f : IsFresh u) (i : ℕ) where
  -- With fresh uuids, a transaction on a well-formed database leaves a job as it is, or moves its
  -- status along an edge of the documented diagram.
  pub Step-lifecycle :
      {db db' : Db} {j : Job}
      → IsValid u db
      → Step u db db'
      → find i db.jobs ≡ some j
      → (j' : Job) × (find i db'.jobs ≡ some j') × ((j' ≡ j) ⊎ (j.status ⟶ j'.status))
  Step-lifecycle {db} {db'} {j} v s e =
      let (j', e', m) = (Step-Evolves u f v s).moves i j e in (j', e', Move-⟶ u db.draws j j' m)

  -- With fresh uuids, in every history from a well-formed database a sent job never changes again:
  -- no claim, no second delivery, no requeue.
  pub sent_final :
      {db db' : Db} (j : Job)
      → IsValid u db
      → find i db.jobs ≡ some j
      → j.status ≡ JobStatus.sent
      → Reach u db db'
      → find i db'.jobs ≡ some j
  sent_final j v e s here = e
  sent_final j v e s (next r st) =
      let (j', e', m) = Step-lifecycle {j = j} (Reach-IsValid u f v r) st (sent_final j v e s r) in
      e' ∙ ap some (stuck j' m)
    where
      stuck : (j' : Job) → (j' ≡ j) ⊎ (j.status ⟶ j'.status) → j' ≡ j
      stuck j' (inl same) = same
      stuck j' (inr move) = absurd (no_edge j.status j'.status move s)
