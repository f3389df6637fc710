-- ===== src/Fleet/Lease.antt =====
-- Why a send cannot outlive the claim under which it was started (worker/loop.py, `run_batch` and the check
-- of the send budget; config.py, `send_budget_seconds`).
use notify_queue.Prelude.{
  ℕ, zero, suc, ◌+◌, ◌≤◌, ◌≡◌, refl, inl, inr, String, Bool, true, false, Option, none, some, List,
  [], ◌∷◌, arith, map, select, sort_by,
}
use mathlib.Core.Path.{subst}
use notify_queue.Domain.{Job}
use notify_queue.Selection.Order.{All, All-sort}
use notify_queue.Jobs.Claim.{before, claimed, in_due, claim_due_jobs}
use notify_queue.Claims.{before-total, before_trans}
use notify_queue.Jobs.Reap.{lease_over, is_expired}
use notify_queue.Worker.{World, Config, Moment, budgeting, sending, Task, has_budget}
use notify_queue.Worker.Delivery.{advance, at_phase, run_batch, start_all, start_task, start_under}
use notify_queue.Fleet.{task_at}
use notify_queue.Fleet.Starts.{task_at-append}

module _ (P : Job → Type 0) (deadline : ℕ) where
  -- A task has the deadline of its batch, and a job of it.
  abbrev pub IsOf : Task → Type 0
  IsOf t = (t.lease_deadline ≡ deadline) × P t.job

  start_task-IsOf :
      (j : Job) (w : World)
      → P j
      → (n : ℕ) (t : Task) → task_at n (start_task deadline j w).0 ≡ some t
      → IsOf t
  start_task-IsOf j w p n t e = under j.claim_token n e
    where
      inside : (a : Task) → some a ≡ some t → a ≡ t
      inside a e' = cc

      under : (o : Option ℕ) (n : ℕ) → task_at n (start_under o deadline j w).0 ≡ some t → IsOf t
      under none n e' = cc
      under (some k) zero e' = subst IsOf (inside _ e') (refl, p)
      under (some k) (suc n) e' = cc

  start_all-IsOf :
      (js : List Job) (w : World)
      → All P js
      → (n : ℕ) (t : Task) → task_at n (start_all deadline js w).0 ≡ some t
      → IsOf t
  unfolding start_all
  start_all-IsOf [] w p n t e = cc
  start_all-IsOf (j ∷ js) w p n t e =
      let started = start_task deadline j w in
      elim (task_at-append started.0 (start_all deadline js started.1).0 n t e) [
        | inl h ↦ start_task-IsOf j w p.0 n t h
        | inr (m, h) ↦ start_all-IsOf js started.1 p.1 m t h
      ]

module _ (c : Config) (locked : ℕ → Bool) (loop_id : String) (monotonic now : ℕ) (w : World) where
  run_batch-leases :
      (n : ℕ) (t : Task)
      → task_at n (run_batch c locked loop_id monotonic now w).0 ≡ some t
      → (t.lease_deadline ≡ monotonic + c.settings.lease_seconds)
        × (t.job.lease_expires_at ≡ some (now + c.settings.lease_seconds))
  unfolding run_batch claim_due_jobs
  run_batch-leases n t e =
      let s = c.settings in
      let Leased : Job → Type 0 = λ j. j.lease_expires_at ≡ some (now + s.lease_seconds) in
      let set = claimed c.uuids now loop_id s.lease_seconds w.db.draws in
      let rows = select (in_due locked now s.batch_size w.db.jobs) w.db.jobs in
      start_all-IsOf Leased (monotonic + s.lease_seconds) (sort_by before (map set rows)) _
        (All-sort before before-total before_trans Leased (map set rows) (all_leased rows)) n t e
    where
      all_leased :
          (js : List Job)
          → All
              (λ j. j.lease_expires_at ≡ some (now + c.settings.lease_seconds))
              (map (claimed c.uuids now loop_id c.settings.lease_seconds w.db.draws) js)
      all_leased [] = tt
      all_leased (j ∷ js) = (refl, all_leased js)

  -- If the check of the budget lets the send of a claimed job start, the result is recorded no later
  -- than the send's timeout and the wait for a connection allow, and the database's clock has gained
  -- on the process's since the claim by at most the safety margin, then up to the recording the
  -- lease is not over and no reaper finds the job expired.
  pub lease_outlives_send :
      (m : Moment) (w' : World) (n : ℕ) (task : Task)
      → task_at n (run_batch c locked loop_id monotonic now w).0 ≡ some task
      → (advance c m (at_phase task budgeting) w').0 ≡ sending
      → (finished : ℕ)
      → finished ≤ m.monotonic + c.settings.send_timeout_seconds + c.settings.db_pool_timeout
      → (recorded_at : ℕ)
      → recorded_at + monotonic ≤ now + finished + c.settings.lease_safety_margin_seconds
      → (locked' : ℕ → Bool) (now' : ℕ) → now' ≤ recorded_at
      → (lease_over now' task.job.lease_expires_at ≡ false)
        × (is_expired locked' now' task.job ≡ false)
  unfolding advance
  lease_outlives_send m w' n task e starts finished in_time recorded_at clocks locked' now'
        earlier =
      let (deadline, lease) = run_batch-leases n task e in
      let budget : has_budget c.settings task.lease_deadline m.monotonic ≡ true = ground arith in
      let over : lease_over now' task.job.lease_expires_at ≡ false =
        rw lease (ground (arith, budget, deadline, in_time, clocks, earlier)) in
      (over, ground (arith, over))
