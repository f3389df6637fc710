-- ===== src/Fleet/Events.antt =====
-- What the events other than the segments of a delivery do to the database and to the tasks.
use notify_queue.Prelude.{
  ℕ, ◌≤◌, ◌≡◌, refl, sym, ◌∙◌, String, Bool, Option, none, some, List, [], ◌∷◌, arith, Bool-cases,
  Option-cases, inl, inr, leb, str_append, ◌*◌,
}
use mathlib.Core.Path.{subst}
use notify_queue.Domain.{NewJob}
use notify_queue.Domain.Backoff.{Uniform, backoff_delay}
use notify_queue.Domain.Schemas.{JobOut}
use notify_queue.Settings.{Settings}
use notify_queue.Tables.{Db, Uuids}
use notify_queue.Tables.Tx.{Result, ok, raise, ok-pair, continue, pure}
use notify_queue.Jobs.Create.{create_job}
use notify_queue.Jobs.RateLimit.{delete_old_rate_limit_buckets}
use notify_queue.Jobs.Finalize.{Transition}
use notify_queue.Jobs.Reap.{reap_expired_leases, requeue_dead_letter}
use notify_queue.Outbox.{OutboxEvent, mark_delivered, mark_attempt_failed}
use notify_queue.Cache.{Link, Store}
use notify_queue.History.{creates, reaps, requeues, cleans, leases, marks, gives_up}
use notify_queue.Worker.{World, Config, schedule_invalidation}
use notify_queue.Reaper.{run_once, reap_pass, on_reaped, invalidate_all}
use notify_queue.Dispatcher.{
  Response, responded, http_error, other_error, is_success, claim_pass, record_failure, dispatch,
  webhook_backoff_base, webhook_backoff_cap,
}
use notify_queue.Services.DeadLetters.{requeue, on_requeued}
use notify_queue.Fleet.{commit, commit_if}
use notify_queue.Fleet.Paths.{Quiet, rests, goes_on}

-- The database goes through a history without `mark_sent`, and the provider is not called.
pub record Calm (u : Uuids) (w w' : World) : Type 0 where
  pub quiet : Quiet u w.db w'.db
  pub same_provider : w'.provider ≡ w.provider

commit-Calm :
    {A : Type 0} (u : Uuids) (r : Result (A × Db)) (w : World)
    → ((a : A) (db' : Db) → r ≡ ok (a, db') → Quiet u w.db db')
    → Calm u w (commit r w)
commit-Calm u (ok (a, db')) w path = record { quiet = path a db' refl; same_provider = refl }
commit-Calm u (raise e) w path = record { quiet = rests; same_provider = refl }

pub requested-Calm :
    (u : Uuids) (now : ℕ) (new : NewJob) (w : World)
    → Calm u w (commit (create_job u now new w.db) w)
requested-Calm u now new w =
    commit-Calm u (create_job u now new w.db) w
      (λ r db' e. goes_on rests (creates now new r e) refl)

pub leased-Calm :
    (u : Uuids) (s : Settings) (locked : ℕ → Bool) (now : ℕ) (w : World)
    → Calm u w (commit (claim_pass s locked now w.db) w)
unfolding claim_pass
leased-Calm u s locked now w = commit-Calm u (claim_pass s locked now w.db) w (λ es db' e.
    goes_on rests (leases locked now s.webhook_batch_size (s.webhook_timeout_seconds * 2) es e)
      refl)

module _ (u : Uuids) (s : Settings) (rng : Uniform) (now : ℕ) (event : OutboxEvent)
    (w : World) where
  marked-Calm : Calm u w (commit (mark_delivered now event.id w.db) w)
  marked-Calm =
      commit-Calm u (mark_delivered now event.id w.db) w
        (λ r db' e. goes_on rests (marks now event.id e) refl)

  gave_up-Calm :
      (error : String) (delay : Option ℕ)
      → Calm u w (commit (mark_attempt_failed now event.id error delay w.db) w)
  gave_up-Calm error delay =
      commit-Calm u (mark_attempt_failed now event.id error delay w.db) w
        (λ r db' e. goes_on rests (gives_up now event.id error delay e) refl)

  failure-Calm : (error : String) → Calm u w (commit_if (record_failure s rng now event error) w)
  failure-Calm error = elim (Bool-cases (leb s.webhook_max_attempts event.attempts)) [
    | inl y ↦ rw y (gave_up-Calm error none)
    | inr z ↦
        elim (Option-cases
          (backoff_delay rng event.attempts webhook_backoff_base webhook_backoff_cap)) [
            | inl e ↦ rw (z, e) (record { quiet = rests; same_provider = refl })
            | inr (d, e) ↦ rw (z, e) (gave_up-Calm error (some d))
          ]
  ]

  pub posted-Calm :
      (decimal : ℕ → String) (response : Response)
      → Calm u w (commit_if (dispatch s decimal rng now event response) w)
  unfolding dispatch
  posted-Calm decimal (responded code) = elim (Bool-cases (is_success code)) [
    | inl y ↦ rw y marked-Calm
    | inr z ↦ rw z (failure-Calm (str_append "HTTP " (decimal code)))
  ]
  posted-Calm decimal (http_error name message) =
      failure-Calm (str_append name (str_append ": " message))
  posted-Calm decimal other_error = record { quiet = rests; same_provider = refl }

pub requeued-Quiet :
    (u : Uuids) (link : Link) (now x extra : ℕ) (cache : Store JobOut) (db : Db)
    → 1 ≤ extra
    → Quiet u db (requeue link now x extra cache db).1.1
unfolding requeue
requeued-Quiet u link now x extra cache db more =
    path (requeue_dead_letter now x extra db)
      (λ r db' e. goes_on rests (requeues now x extra r more e) refl)
  where
    path :
        (r : Result (Option Transition × Db))
        → ((o : Option Transition) (db' : Db) → r ≡ ok (o, db') → Quiet u db db')
        → Quiet u db (on_requeued link cache db r).1.1
    path (ok (some t, db')) step = step (some t) db' refl
    path (ok (none, db')) step = step none db' refl
    path (raise e) step = rests

pub invalidate_all-Calm :
    (u : Uuids) (s : Settings) (ts : List Transition) (w : World)
    → ((invalidate_all s ts w).db ≡ w.db) × ((invalidate_all s ts w).provider ≡ w.provider)
invalidate_all-Calm u s [] w = (refl, refl)
invalidate_all-Calm u s (t ∷ ts) w =
    let rest = invalidate_all-Calm u s ts (schedule_invalidation s t w) in
    (rest.0 ∙ ground arith, rest.1 ∙ ground arith)

module _ (c : Config) (locked : ℕ → Bool) (now : ℕ) where
  reap_pass-Quiet :
      (db : Db) (ts : List Transition) (db' : Db)
      → reap_pass c locked now db ≡ ok (ts, db')
      → Quiet c.uuids db db'
  unfolding reap_pass
  reap_pass-Quiet db ts db' e =
      reaped_first
        (reap_expired_leases c.uuids locked now c.settings.reaper_batch_size
          c.settings.default_callback_url db)
        (λ r mid h.
          goes_on rests
            (reaps locked now c.settings.reaper_batch_size c.settings.default_callback_url r h)
            refl)
        e
    where
      cleaned :
          (mid : Db) (r : Result (ℕ × Db)) (rs : List Transition)
          → Quiet c.uuids db mid
          → delete_old_rate_limit_buckets now c.settings.rate_limit_window_seconds mid ≡ r
          → continue r (λ _. pure rs) ≡ ok (ts, db')
          → Quiet c.uuids db db'
      cleaned mid (ok (n, last)) rs q h e' =
          subst (Quiet c.uuids db) (ok-pair e').1
            (goes_on q (cleans now c.settings.rate_limit_window_seconds n h) refl)
      cleaned mid (raise x) rs q h e' = cc

      reaped_first :
          (r : Result (List Transition × Db))
          → ((rs : List Transition) (mid : Db) → r ≡ ok (rs, mid) → Quiet c.uuids db mid)
          → continue r (λ rs mid.
            continue
              (delete_old_rate_limit_buckets now c.settings.rate_limit_window_seconds mid)
              (λ _. pure rs))
            ≡ ok (ts, db')
          → Quiet c.uuids db db'
      reaped_first (ok (rs, mid)) path e' =
          cleaned mid (delete_old_rate_limit_buckets now c.settings.rate_limit_window_seconds mid)
            rs (path rs mid refl) refl e'
      reaped_first (raise x) path e' = cc

  pub reaped-Calm : (w : World) → Calm c.uuids w (run_once c locked now w).1
  unfolding run_once
  reaped-Calm w = path (reap_pass c locked now w.db) (reap_pass-Quiet w.db)
    where
      path :
          (r : Result (List Transition × Db))
          → ((ts : List Transition) (db' : Db) → r ≡ ok (ts, db') → Quiet c.uuids w.db db')
          → Calm c.uuids w (on_reaped c.settings w r).1
      path (ok (ts, db')) step =
          let same = invalidate_all-Calm c.uuids c.settings ts (record w { db = db' }) in
          record {
            quiet = subst (Quiet c.uuids w.db) (sym same.0) (step ts db' refl);
            same_provider = same.1;
          }
      path (raise e) step = record { quiet = rests; same_provider = refl }
