-- ===== src/RateLimiter.antt =====
-- src/notify_queue/services/rate_limiter.py: the sliding window that the Lua script keeps in a sorted set,
-- one for each recipient, and the fallback. A run of the script is atomic, and Redis's clock is an
-- argument, in milliseconds. PEXPIRE is left out: the key expires when every slot in it is out of the
-- window, and those the next run removes.
pub mod Calls
pub mod Window
use notify_queue.Domain.{Job}
use notify_queue.Tables.{Db}
use notify_queue.Tables.Tx.{Tx, Result, pure}
use notify_queue.Jobs.RateLimit.{try_acquire_rate_limit}
use notify_queue.Cache.{Link, answered, lost, down}
use notify_queue.Prelude.{
  ℕ, ◌+◌, ◌-◌, ◌*◌, ◌/◌, String, Bool, true, false, not, Option, none, some, List, [], ◌∷◌, ◌++◌,
  length, leb, ltb, max, ◌==◌, if◌then◌else◌, select, exists_where,
}

-- A member of the sorted set and its score: a job, and when it took the slot.
pub record Slot : Type 0 where
  pub job_id : ℕ
  pub taken : ℕ

-- What ZREMRANGEBYSCORE up to `now - window` leaves.
abbrev pub is_live : (now window : ℕ) → Slot → Bool
is_live now window s = not (leb (s.taken + window) now)

-- The lowest score.
abbrev pub oldest : List Slot → Option ℕ
oldest [] = none
oldest (s ∷ ss) = elim (oldest ss) [
  | none ↦ some s.taken
  | some t ↦ some (if leb s.taken t then s.taken else t)
]

-- `{1, 0}`, `{0, ms}`, or the error of the arithmetic on a missing score.
pub data Answer : Type 0 where
  admitted : Answer
  wait : ℕ → Answer
  script_error : Answer

abbrev pub to_wait : (now window : ℕ) → Option ℕ → Answer
to_wait now window none = script_error
to_wait now window (some t) = wait (t + window - now)

-- `_ACQUIRE`
unfoldable pub acquire_script : (now window limit job_id : ℕ) → List Slot → Answer × List Slot
acquire_script now window limit job_id slots =
    let live = select (is_live now window) slots in
    let slot : Slot = record { job_id = job_id; taken = now } in
    if exists_where (λ s. s.job_id == job_id) live
    then (admitted, live)
    else (if ltb (length live) limit
        then (admitted, live ++ slot ∷ [])
        else (to_wait now window (oldest live), live))

-- `RedisRateLimiter.release`: ZREM.
unfoldable pub release : (job_id : ℕ) → List Slot → List Slot
release job_id slots = select (λ s. not (s.job_id == job_id)) slots

-- The settings that the limiters read: `rate_limit_per_hour` and `rate_limit_window_seconds`.
pub record Allowance : Type 0 where
  pub per_window : ℕ
  pub window : ℕ

-- `PostgresRateLimiter.acquire`
unfoldable pub postgres_acquire : Allowance → ℕ → Job → Tx (Option ℕ)
postgres_acquire settings now job =
    try_acquire_rate_limit now job.recipient settings.per_window settings.window

-- `int(rate_limit_window_seconds * 1000)`
abbrev pub window_ms : Allowance → ℕ
window_ms settings = settings.window / 1000

-- `None if admitted else max(wait_ms, 1) / 1000`
abbrev pub to_delay : Answer → Option ℕ
to_delay admitted = none
to_delay (wait ms) = some (max ms 1 * 1000)
to_delay script_error = none

-- What `RedisRateLimiter.acquire` does with the reply of the script: a lost or failed one is Postgres's to
-- answer. The slots are those of the job's recipient; the clocks are Redis's and the database's.
unfoldable pub on_reply : Allowance → ℕ → Job → Link → Answer → Tx (Option ℕ)
on_reply settings now job answered script_error = postgres_acquire settings now job
on_reply settings now job answered reply = pure (to_delay reply)
on_reply settings now job lost reply = postgres_acquire settings now job
on_reply settings now job down reply = postgres_acquire settings now job

unfoldable pub redis_acquire :
    Allowance → (now_ms now : ℕ) → Job → Link → List Slot → Db → List Slot × Result (Option ℕ × Db)
redis_acquire settings now_ms now job link slots db =
    let run = acquire_script now_ms (window_ms settings) settings.per_window job.id slots in
    let left : List Slot = elim link [ down ↦ slots | _ ↦ run.1 ] in
    (left, on_reply settings now job link run.0 db)
