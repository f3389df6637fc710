-- ===== src/Jobs/RateLimit.antt =====
-- `try_acquire_rate_limit` and `delete_old_rate_limit_buckets`: the fixed-window counters.
use notify_queue.Prelude.{
  ℕ, ◌+◌, ◌-◌, ◌*◌, ◌/◌, String, Bool, true, false, not, ◌&&◌, Option, none, some, [], ◌∷◌, ◌++◌,
  ltb, ◌==◌, str_eq, first, select, update_where, count_where,
}
use notify_queue.Tables.{Bucket}
use notify_queue.Tables.Tx.{Tx, ◌>>=◌, ◌>>◌, pure, read, write, check, division_by_zero}

-- `to_timestamp(floor(extract(epoch FROM now()) / :window) * :window)`
abbrev pub window_start : ℕ → ℕ → ℕ
window_start now window = now / window * window

-- The primary key of a bucket.
abbrev pub is_bucket : String → ℕ → Bucket → Bool
is_bucket recipient start b = str_eq b.recipient recipient && (b.window_start == start)

-- `SET count = b.count + 1`
abbrev pub bump : Bucket → Bucket
bump b = record b { count = b.count + 1 }

-- `_ACQUIRE_RATE_LIMIT` once the window is known: a new bucket, or one more in a bucket that has room.
-- The count that it returns is none if no row is returned.
unfoldable pub upsert_bucket : String → ℕ → ℕ → Tx (Option ℕ)
upsert_bucket recipient start limit = do
  existing ← read (λ db. first (select (is_bucket recipient start) db.rate_limit_buckets))
  elim existing [
    | none ↦ do
      let row : Bucket = record { recipient = recipient; window_start = start; count = 1 }
      write λ db. record db { rate_limit_buckets = db.rate_limit_buckets ++ row ∷ [] }
      pure (some 1)
    | some b ↦ elim (ltb b.count limit) [
      | true ↦ do
        write λ db. record db {
          rate_limit_buckets = update_where (is_bucket recipient start) bump db.rate_limit_buckets;
        }
        pure (some (b.count + 1))
      | false ↦ pure none
    ]
  ]

-- None if the send is allowed, otherwise the time until the next window.
unfoldable pub try_acquire_rate_limit : ℕ → (recipient : String) (limit window : ℕ) → Tx (Option ℕ)
try_acquire_rate_limit now recipient limit window = do
  check division_by_zero (λ db. ltb 0 window)
  row ← upsert_bucket recipient (window_start now window) limit
  elim row [ some n ↦ pure none | none ↦ pure (some ((now / window + 1) * window - now)) ]

-- Returns how many rows it deletes. A time before the epoch is no bucket's.
unfoldable pub delete_old_rate_limit_buckets : ℕ → (window : ℕ) → Tx ℕ
delete_old_rate_limit_buckets now window = do
  let is_old : Bucket → Bool = λ b. ltb (b.window_start + window * 2) now
  n ← read (λ db. count_where is_old db.rate_limit_buckets)
  write λ db. record db { rate_limit_buckets = select (λ b. not (is_old b)) db.rate_limit_buckets }
  pure n
