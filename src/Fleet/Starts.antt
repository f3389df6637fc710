-- ===== src/Fleet/Starts.antt =====
-- A claim, and the deliveries that it starts.
use notify_queue.Prelude.{
  ℕ, zero, suc, ◌≡◌, refl, sym, ◌∙◌, String, Bool, false, some, List, [], ◌∷◌, ◌++◌, none, Option,
  ap, inl, inr, ◌+◌, ◌⊎◌,
}
use mathlib.Core.Path.{subst}
use notify_queue.Domain.{Job}
use notify_queue.Tables.{Db}
use notify_queue.Tables.Tx.{Result, ok, raise}
use notify_queue.Jobs.Claim.{claim_due_jobs}
use notify_queue.History.{claims}
use notify_queue.Worker.{World, Config, Task}
use notify_queue.Worker.Delivery.{run_batch, on_claimed, start_all, start_task, start_under}
use notify_queue.Fleet.{task_at}
use notify_queue.Fleet.Paths.{Quiet, rests, goes_on}
use notify_queue.Fleet.Segments.{is_accepted}
use notify_queue.Fleet.Events.{Calm}

-- No task says that its send was accepted.
abbrev pub NoneAccepted : List Task → Type 0
NoneAccepted ts = (n : ℕ) (t : Task) → task_at n ts ≡ some t → is_accepted t.phase ≡ false

pub task_at-append :
    (xs ys : List Task) (n : ℕ) (t : Task)
    → task_at n (xs ++ ys) ≡ some t
    → (task_at n xs ≡ some t) ⊎ ((m : ℕ) × (task_at m ys ≡ some t))
task_at-append [] ys n t e = inr (n, e)
task_at-append (x ∷ xs) ys zero t e = inl e
task_at-append (x ∷ xs) ys (suc n) t e = task_at-append xs ys n t e

start_task_lem :
    (deadline : ℕ) (j : Job) (w : World)
    → ((start_task deadline j w).1.db ≡ w.db)
      × ((start_task deadline j w).1.provider ≡ w.provider)
      × NoneAccepted (start_task deadline j w).0
start_task_lem deadline j w = under j.claim_token
  where
    inside : (a t : Task) → some a ≡ some t → a ≡ t
    inside a t e = cc

    under :
        (o : Option ℕ)
        → ((start_under o deadline j w).1.db ≡ w.db)
          × ((start_under o deadline j w).1.provider ≡ w.provider)
          × NoneAccepted (start_under o deadline j w).0
    under none = (refl, refl, λ n t e. cc)
    under (some k) = (refl, refl, alone)
      where
        alone : NoneAccepted (start_under (some k) deadline j w).0
        alone zero t e = ap (λ (a : Task). is_accepted a.phase) (sym (inside _ t e))
        alone (suc n) t e = cc

start_all_lem :
    (deadline : ℕ) (js : List Job) (w : World)
    → ((start_all deadline js w).1.db ≡ w.db)
      × ((start_all deadline js w).1.provider ≡ w.provider)
      × NoneAccepted (start_all deadline js w).0
unfolding start_all
start_all_lem deadline [] w = (refl, refl, λ n t e. cc)
start_all_lem deadline (j ∷ js) w =
    let first = start_task_lem deadline j w in
    let rest = start_all_lem deadline js (start_task deadline j w).1 in
    (
      rest.0 ∙ first.0,
      rest.1 ∙ first.1,
      λ n t e.
          elim (task_at-append (start_task deadline j w).0
            (start_all deadline js (start_task deadline j w).1).0 n t e) [
              | inl h ↦ first.2 n t h
              | inr (m, h) ↦ rest.2 m t h
            ],
    )

module _ (c : Config) (locked : ℕ → Bool) (loop_id : String) (monotonic now : ℕ) where
  pub polled-Calm :
      (w : World)
      → Calm c.uuids w (run_batch c locked loop_id monotonic now w).1
        × NoneAccepted (run_batch c locked loop_id monotonic now w).0
  unfolding run_batch
  polled-Calm w =
      path
        (claim_due_jobs c.uuids locked now loop_id c.settings.batch_size c.settings.lease_seconds
          w.db)
        (λ js db' e.
          goes_on rests
            (claims locked now loop_id c.settings.batch_size c.settings.lease_seconds js e) refl)
    where
      deadline : ℕ
      deadline = monotonic + c.settings.lease_seconds

      path :
          (r : Result (List Job × Db))
          → ((js : List Job) (db' : Db) → r ≡ ok (js, db') → Quiet c.uuids w.db db')
          → Calm c.uuids w (on_claimed deadline w r).1 × NoneAccepted (on_claimed deadline w r).0
      path (ok (js, db')) step =
          let lem = start_all_lem deadline js (record w { db = db' }) in
          (
            record {
              quiet = subst (Quiet c.uuids w.db) (sym lem.0) (step js db' refl);
              same_provider = lem.1;
            },
            lem.2,
          )
      path (raise e) step = (record { quiet = rests; same_provider = refl }, λ n t h. cc)
