-- ===== src/Reaper.antt =====
-- src/notify_queue/worker/reaper.py: one pass of the reaper.
pub mod Progress
use notify_queue.Prelude.{ℕ, Bool, List, [], ◌∷◌}
use notify_queue.Settings.{Settings}
use notify_queue.Tables.{Db}
use notify_queue.Tables.Tx.{Tx, ◌>>=◌, Result, ok, raise, pure}
use notify_queue.Jobs.Finalize.{Transition}
use notify_queue.Jobs.Reap.{reap_expired_leases}
use notify_queue.Jobs.RateLimit.{delete_old_rate_limit_buckets}
use notify_queue.Worker.{World, Config, schedule_invalidation}

-- The transaction of `run_once`.
unfoldable pub reap_pass : Config → (ℕ → Bool) → ℕ → Tx (List Transition)
reap_pass c locked now = do
  reaped ←
      reap_expired_leases c.uuids locked now c.settings.reaper_batch_size
        c.settings.default_callback_url
  _ ← delete_old_rate_limit_buckets now c.settings.rate_limit_window_seconds
  pure reaped

abbrev pub invalidate_all : Settings → List Transition → World → World
invalidate_all s [] w = w
invalidate_all s (t ∷ ts) w = invalidate_all s ts (schedule_invalidation s t w)

-- What follows the transaction. An exception is logged, and the next pass comes.
abbrev pub on_reaped : Settings → World → Result (List Transition × Db) → List Transition × World
on_reaped s w (ok (ts, db)) = (ts, invalidate_all s ts (record w { db = db }))
on_reaped s w (raise e) = ([], w)

unfoldable pub run_once : Config → (locked : ℕ → Bool) → (now : ℕ) → World → List Transition × World
run_once c locked now w = on_reaped c.settings w (reap_pass c locked now w.db)
