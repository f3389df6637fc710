-- ===== src/History/Fencing.antt =====
-- Fencing over time: a claim that has been lost stays lost.
use notify_queue.Prelude.{
  ℕ, ◌≤◌, ◌<◌, ◌≡◌, refl, Bool, false, Option, none, arith, String, Option-cases, inl, inr,
}
use notify_queue.Domain.{Job}
use notify_queue.Tables.{Db, Uuids, IsFresh, find}
use notify_queue.Tables.Tx.{ok}
use notify_queue.Tables.Find.{find-id}
use notify_queue.Jobs.Finalize.{is_held, mark_sent, mark_failed, return_to_queue}
use notify_queue.Invariant.{IsValid}
use notify_queue.Invariant.Held.{held}
use notify_queue.Invariant.Finalize.{fenced}
use notify_queue.History.{Reach, here, next}
use notify_queue.History.Evolution.{Step-Evolves}
use notify_queue.History.Moves.{Move, stay, claim, send, fail, put_back, reap, requeue, Evolves}
use notify_queue.History.Safety.{Reach-IsValid}

Reach-draws :
    (u : Uuids) → IsFresh u → {db db' : Db} → IsValid u db → Reach u db db' → db.draws ≤ db'.draws
Reach-draws u f v here = omega arith
Reach-draws u f v (next r s) =
    omega (arith, Reach-draws u f v r, (Step-Evolves u f (Reach-IsValid u f v r) s).grows)

-- A move gives the job to no token that was drawn before.
Move-unheld :
    (u : Uuids)
    → IsFresh u
    → (x n draw : ℕ) (j j' : Job) → n < draw
    → j.id ≡ x
    → is_held x (u.token n x) j ≡ false
    → Move u draw j j'
    → is_held x (u.token n x) j' ≡ false
Move-unheld u f x n draw j j' lt id h (stay e) = rw e h
Move-unheld u f x n draw j j' lt id h (claim now w l p d e) =
    ground (arith, e, f.token_once draw j.id n x)
Move-unheld u f x n draw j j' lt id h (send now p e) = ground (arith, e)
Move-unheld u f x n draw j j' lt id h (fail now er d b p e) = ground (arith, e)
Move-unheld u f x n draw j j' lt id h (put_back now d p e) = ground (arith, e)
Move-unheld u f x n draw j j' lt id h (reap now p e) = ground (arith, e)
Move-unheld u f x n draw j j' lt id h (requeue now ex m p e) = ground (arith, e)

module _ (u : Uuids) (f : IsFresh u) (x n : ℕ) where
  Evolves-unheld :
      (db db' : Db)
      → n < db.draws
      → Evolves u db db'
      → held x (u.token n x) db ≡ none
      → held x (u.token n x) db' ≡ none
  Evolves-unheld db db' lt e h = elim (Option-cases (find x db.jobs)) [
    | inl there ↦ elim (Option-cases (find x db'.jobs)) [
      | inl still ↦ rw still refl
      | inr (j', new) ↦ let p = e.born x there j' new in rw new (ground arith)
    ]
    | inr (j, there) ↦
        let (j', after, move) = e.moves x j there in
        let lost : is_held x (u.token n x) j ≡ false = ground arith in
        rw (after, Move-unheld u f x n db.draws j j' lt (find-id x db.jobs {j = j} there) lost move)
          refl
  ]

  -- Once a token that an earlier claim drew does not hold its job, no history makes it hold it again.
  pub Reach-unheld :
      {db db' : Db}
      → IsValid u db
      → n < db.draws
      → held x (u.token n x) db ≡ none
      → Reach u db db'
      → held x (u.token n x) db' ≡ none
  Reach-unheld v lt h here = h
  Reach-unheld v lt h (next {mid} {db'} r s) =
      Evolves-unheld mid db' (omega (arith, Reach-draws u f v r))
        (Step-Evolves u f (Reach-IsValid u f v r) s) (Reach-unheld v lt h r)

  -- With fresh uuids, from a well-formed database in which an already drawn token of a job does not
  -- hold it: in every later database mark_sent, mark_failed and return_to_queue under that token
  -- change nothing and return None.
  pub stale_worker_fenced :
      {db db' : Db}
      → IsValid u db
      → n < db.draws
      → held x (u.token n x) db ≡ none
      → Reach u db db'
      → (now : ℕ) (worker_id error url : String) (message : Option String) (delay : ℕ)
        (permanent : Bool)
      → (mark_sent u now x (u.token n x) worker_id message url db' ≡ ok (none, db'))
        × (mark_failed u now x (u.token n x) worker_id error delay permanent url db'
            ≡ ok (none, db'))
        × (return_to_queue now x (u.token n x) delay db' ≡ ok (none, db'))
  stale_worker_fenced v lt h r now =
      fenced u (Reach-IsValid u f v r) x (u.token n x) now (Reach-unheld v lt h r)
