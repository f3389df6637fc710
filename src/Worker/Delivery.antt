-- ===== src/Worker/Delivery.antt =====
-- src/notify_queue/worker/loop.py: `_deliver` and `_return_unsent` segment by segment, and `run_batch`.
use notify_queue.Prelude.{
  ℕ, ◌+◌, String, Bool, true, false, Option, none, some, List, [], ◌∷◌, ◌++◌, if◌then◌else◌,
}
use notify_queue.Domain.{Job}
use notify_queue.Domain.Backoff.{backoff_delay}
use notify_queue.Settings.{Settings}
use notify_queue.Tables.{Db}
use notify_queue.Tables.Tx.{Result, ok, raise, Tx}
use notify_queue.Jobs.Claim.{claim_due_jobs}
use notify_queue.Jobs.Finalize.{Transition, or_default, mark_sent, mark_failed, return_to_queue}
use notify_queue.Worker.{
  errors, rate_limited, lease_budget_exceeded, lease_lost, failed_attempts, ended, World, Config,
  Moment, Phase, acquiring, budgeting, giving_back, sending, done, postponing, releasing, recording,
  refunding, Task, count, limiter_acquire, limiter_release, schedule_invalidation, after_commit,
  has_budget, send_with_timeout, on_reply, count_dedup,
}

abbrev pub invalidate_if : Settings → Option Transition → World → World
invalidate_if s none w = w
invalidate_if s (some t) w = schedule_invalidation s t w

-- The answer of the rate limiter.
abbrev pub on_acquired : Option ℕ → World → Phase × World
on_acquired (some retry_after) w = (postponing retry_after, w)
on_acquired none w = (budgeting, w)

-- `_return_unsent`, and what follows when the rate limit was the reason.
abbrev pub on_postponed : Settings → Option Transition → World → Phase × World
on_postponed s t w = (done, count rate_limited (invalidate_if s t w))

-- `_return_unsent`, and what follows when too little of the lease was left.
abbrev pub on_given_back : Settings → Option Transition → World → Phase × World
on_given_back s none w = (done, count lease_budget_exceeded w)
on_given_back s (some t) w = (releasing, schedule_invalidation s t w)

-- The counters and the invalidation of a recorded result.
abbrev pub conclude : Settings → (is_error : Bool) → Transition → World → World
conclude s is_error t w =
    let counted = count (ended t.status) w in
    schedule_invalidation s t (if is_error then count failed_attempts counted else counted)

-- What follows the transaction that records a result.
abbrev pub on_recorded :
    Settings → (is_error refund_slot : Bool) → Option Transition → World → Phase × World
on_recorded s is_error refund_slot none w = (done, count lease_lost w)
on_recorded s is_error true (some t) w = (refunding t, w)
on_recorded s is_error false (some t) w = (done, conclude s is_error t w)

-- The transaction that records a result; `none` is an exception of `backoff_delay`.
unfoldable pub record_result :
    Config
    → Moment
    → Task
    → (error : Option String) (permanent : Bool) (provider_message_id : Option String)
    → Option (Tx (Option Transition))
record_result c m task none permanent provider_message_id = some (
    mark_sent c.uuids m.now task.job.id task.claim_token (or_default task.job.locked_by c.worker_id)
      provider_message_id c.settings.default_callback_url)
record_result c m task (some error) permanent provider_message_id =
    elim (backoff_delay m.rng task.job.attempts c.settings.backoff_base_seconds
      c.settings.backoff_cap_seconds) [
        | none ↦ none
        | some delay ↦ some (
            mark_failed c.uuids m.now task.job.id task.claim_token
              (or_default task.job.locked_by c.worker_id) error delay permanent
              c.settings.default_callback_url)
      ]

abbrev pub has_error : Option String → Bool
has_error none = false
has_error (some e) = true

-- One segment of `_deliver`, up to its next await.
unfoldable pub advance : Config → Moment → Task → World → Phase × World
unfolding record_result
advance c m task w =
    let s = c.settings in
    elim task.phase [
      | acquiring ↦
          let run = limiter_acquire s m task.job w in
          after_commit run.1 (record w { slots = run.0 }) on_acquired
      | postponing retry_after ↦
          after_commit (return_to_queue m.now task.job.id task.claim_token retry_after w.db) w
            (on_postponed s)
      | budgeting ↦
          ((if has_budget s task.lease_deadline m.monotonic then sending else giving_back), w)
      | giving_back ↦
          after_commit (return_to_queue m.now task.job.id task.claim_token 0 w.db) w
            (on_given_back s)
      | releasing ↦ (done, count lease_budget_exceeded (limiter_release s m task.job w))
      | sending ↦
          let sent = send_with_timeout c m task.job w.provider in
          (on_reply sent.0, count_dedup sent.0 (record w { provider = sent.1 }))
      | recording error permanent refund_slot provider_message_id ↦
          elim (record_result c m task error permanent provider_message_id) [
            | none ↦ (done, count errors w)
            | some tx ↦ after_commit (tx w.db) w (on_recorded s (has_error error) refund_slot)
          ]
      | refunding t ↦ (done, conclude s true t (limiter_release s m task.job w))
      | done ↦ (done, w)
    ]

abbrev pub at_phase : Task → Phase → Task
at_phase task p = record task { phase = p }

-- A delivery by itself: its segments at successive moments.
unfoldable pub deliver : Config → List Moment → Task → World → Task × World
deliver c [] task w = (task, w)
deliver c (m ∷ ms) task w =
    let next = advance c m task w in deliver c ms (at_phase task next.0) next.1

-- `_process` up to the first await, at the claim token of the job: without one the assertion fails.
abbrev pub start_under : Option ℕ → ℕ → Job → World → List Task × World
start_under none lease_deadline job w = ([], count errors w)
start_under (some t) lease_deadline job w = (
  record { job = job; claim_token = t; lease_deadline = lease_deadline; phase = acquiring } ∷ [],
  w,
)

abbrev pub start_task : ℕ → Job → World → List Task × World
start_task lease_deadline job w = start_under job.claim_token lease_deadline job w

-- `gather` of the deliveries.
unfoldable pub start_all : ℕ → List Job → World → List Task × World
start_all lease_deadline [] w = ([], w)
start_all lease_deadline (job ∷ jobs) w =
    let started = start_task lease_deadline job w in
    let rest = start_all lease_deadline jobs started.1 in (started.0 ++ rest.0, rest.1)

-- What follows the claim of `run_batch`.
abbrev pub on_claimed : ℕ → World → Result (List Job × Db) → List Task × World
on_claimed lease_deadline w (ok (jobs, db)) = start_all lease_deadline jobs (record w { db = db })
on_claimed lease_deadline w (raise e) = ([], w)

-- `run_batch`. The clock of the process is read before the claim; an exception of the claim is the loop's
-- to log.
unfoldable pub run_batch :
    Config
    → (locked : ℕ → Bool) → (loop_id : String) (monotonic now : ℕ) → World
    → List Task × World
run_batch c locked loop_id monotonic now w =
    let s = c.settings in
    on_claimed (monotonic + s.lease_seconds) w
      (claim_due_jobs c.uuids locked now loop_id s.batch_size s.lease_seconds w.db)
