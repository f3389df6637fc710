-- ===== src/Worker.antt =====
-- src/notify_queue/worker/loop.py and common.py: one delivery, from the claim to the record of its result,
-- as the atomic segments between its awaits. What happens outside (clocks, Redis, the provider's mood) is
-- the moment at which a segment runs. Logging is left out.
pub mod Delivery
pub mod Accounting
pub mod Termination
use notify_queue.Prelude.{
  ℕ, ◌+◌, String, Bool, true, false, not, ◌&&◌, Option, none, some, List, [], ◌∷◌, ◌++◌, map, ltb,
  ◌==◌, str_eq, if◌then◌else◌, str_append,
}
use notify_queue.Domain.{Job, JobStatus}
use notify_queue.Domain.Backoff.{Uniform, backoff_delay}
use notify_queue.Domain.Schemas.{JobOut}
use notify_queue.Settings.{Settings, RateLimitBackend, send_budget_seconds}
use notify_queue.Senders.{
  SendReply, replied, permanent_delivery_error, delivery_error, failed, ProviderRow, mock_send,
}
use notify_queue.Tables.{Db, Uuids}
use notify_queue.Tables.Tx.{Result, ok, raise}
use notify_queue.Jobs.Claim.{claim_due_jobs}
use notify_queue.Jobs.Finalize.{Transition, or_default, mark_sent, mark_failed, return_to_queue}
use notify_queue.RateLimiter.{Slot, Allowance, release, postgres_acquire, redis_acquire}
use notify_queue.Cache.{Store, Link, answered, lost, down, invalidate}

-- The keys of `Worker.stats`; `ended` is the status of a transition.
pub data Stat : Type 0 where
  errors rate_limited lease_budget_exceeded provider_deduplicated lease_lost failed_attempts : Stat
  ended : JobStatus → Stat

-- What the processes share: the database, Redis (the slots of each recipient, the job entries) and the
-- provider; and what one process keeps: the invalidations that its background tasks have still to do, and
-- its counters, as the list of their increments.
pub record World : Type 0 where
  pub db : Db
  pub slots : String → List Slot
  pub cache : Store JobOut
  pub provider : List ProviderRow
  pub tasks : List Transition
  pub stats : List Stat

-- What a worker is built with. `decimal` is how the language writes an integer.
pub record Config : Type 0 where
  pub uuids : Uuids
  pub settings : Settings
  pub worker_id : String
  pub decimal : ℕ → String

-- What a segment meets: the clocks of the database, of the process and of Redis, how its call of Redis
-- ends, the draws of the random generators, the provider's sequence, and how the awaited send ends
-- (answered, or timed out after or before the provider acted).
pub record Moment : Type 0 where
  pub now : ℕ
  pub monotonic : ℕ
  pub now_ms : ℕ
  pub link : Link
  pub rng : Uniform
  pub send_link : Link
  pub send_fails : Bool
  pub serial : ℕ

-- What `_deliver` is about to do.
pub data Phase : Type 0 where
  acquiring budgeting giving_back sending done : Phase
  postponing : (retry_after : ℕ) → Phase
  releasing : Phase
  recording :
      (error : Option String) (permanent refund_slot : Bool) (provider_message_id : Option String)
      → Phase
  refunding : Transition → Phase

pub record Task : Type 0 where
  pub job : Job
  pub claim_token : ℕ
  pub lease_deadline : ℕ
  pub phase : Phase

abbrev pub count : Stat → World → World
count stat w = record w { stats = w.stats ++ stat ∷ [] }

abbrev pub allowance : Settings → Allowance
allowance s = record { per_window = s.rate_limit_per_hour; window = s.rate_limit_window_seconds }

-- `build_rate_limiter`: whether the limiter is the one over Redis.
abbrev pub uses_redis : Settings → Bool
uses_redis s = elim s.rate_limit_backend [
  | RateLimitBackend.redis ↦ s.cache_enabled
  | RateLimitBackend.postgres ↦ false
]

abbrev pub put_slots : String → List Slot → (String → List Slot) → String → List Slot
put_slots recipient left slots r = if str_eq recipient r then left else slots r

-- `rate_limiter.acquire(job)`: the answer, and the slots that it leaves.
abbrev pub limiter_acquire :
    Settings → Moment → Job → World → (String → List Slot) × Result (Option ℕ × Db)
limiter_acquire s m job w =
    let run = redis_acquire (allowance s) m.now_ms m.now job m.link (w.slots job.recipient) w.db in
    if uses_redis s
    then (put_slots job.recipient run.0 w.slots, run.1)
    else (w.slots, postgres_acquire (allowance s) m.now job w.db)

-- `rate_limiter.release(job)`: nothing for Postgres, and nothing if Redis is not reached.
abbrev pub limiter_release : Settings → Moment → Job → World → World
limiter_release s m job w =
    let freed = put_slots job.recipient (release job.id (w.slots job.recipient)) w.slots in
    let left : String → List Slot = elim m.link [ down ↦ w.slots | _ ↦ freed ] in
    if uses_redis s then record w { slots = left } else w

-- `CacheInvalidator.invalidate`: a background task, if there is a cache.
abbrev pub schedule_invalidation : Settings → Transition → World → World
schedule_invalidation s t w = if s.cache_enabled then record w { tasks = w.tasks ++ t ∷ [] } else w

-- What a transaction's outcome leads to: an exception is caught by `_process`.
abbrev pub after_commit :
    {A : Type 0} → Result (A × Db) → World → (A → World → Phase × World) → Phase × World
after_commit (ok (a, db)) w k = k a (record w { db = db })
after_commit (raise e) w k = (done, count errors w)

-- Before the lease is used up too far: `lease_deadline - monotonic() < send_budget` fails.
abbrev pub has_budget : Settings → (lease_deadline monotonic : ℕ) → Bool
has_budget s lease_deadline monotonic = not (ltb lease_deadline (monotonic + send_budget_seconds s))

-- The answers of `wait_for(sender.send(job), ...)`, and what they leave at the provider.
unfoldable pub send_with_timeout :
    Config → Moment → Job → List ProviderRow → SendReply × List ProviderRow
send_with_timeout c m job log =
    let sent = mock_send c.decimal m.send_fails m.serial m.now job log in
    let timed_out : SendReply = failed "TimeoutError" "" in
    elim m.send_link [ answered ↦ sent | lost ↦ (timed_out, sent.1) | down ↦ (timed_out, log) ]

-- The `except` clauses: what is to be recorded.
abbrev pub on_reply : SendReply → Phase
on_reply (replied r) = recording none false false (some r.provider_message_id)
on_reply (permanent_delivery_error message) =
    recording (some (str_append "PermanentDeliveryError: " message)) true true none
on_reply (delivery_error message) =
    recording (some (str_append "DeliveryError: " message)) false true none
on_reply (failed name message) =
    recording (some (str_append name (str_append ": " message))) false false none

abbrev pub count_dedup : SendReply → World → World
count_dedup (replied r) w = if r.deduplicated then count provider_deduplicated w else w
count_dedup _ w = w
