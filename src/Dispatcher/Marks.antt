-- ===== src/Dispatcher/Marks.antt =====
-- What each transaction of the repository does to the rows of the outbox that are astray.
use notify_queue.Prelude.{
  ℕ, ◌+◌, ◌-◌, ◌*◌, ◌/◌, ◌≡◌, ==_iff, ap, ◌∙◌, String, Bool, true, false, Option, none, some, List,
  [], ◌∷◌, arith, select, map, update_where, exists_where,
}
use mathlib.Core.Path.{subst}
use notify_queue.Domain.{NewJob}
use notify_queue.Tables.{Db, Uuids, OutboxRow}
use notify_queue.Tables.Tx.{pure, check, write, Tx, ok}
use notify_queue.Limits.Buckets.{upsert_result}
use notify_queue.Jobs.Create.{create_job, insert_job, get_job_by_idempotency_key}
use notify_queue.Jobs.Claim.{claim_due_jobs}
use notify_queue.Jobs.RateLimit.{
  window_start, upsert_bucket, try_acquire_rate_limit, delete_old_rate_limit_buckets,
}
use notify_queue.Jobs.Finalize.{transition, mark_sent, mark_failed, return_to_queue, update_jobs}
use notify_queue.Jobs.Reap.{
  in_expired, reap_row, set_reaped, after_reap_all, reap_expired_leases, after_requeue,
  requeue_dead_letter,
}
use notify_queue.Outbox.{claim_outbox_events, mark_delivered, mark_attempt_failed}
use notify_queue.History.{
  Step, creates, claims, sends, fails, returns, reaps, requeues, limits, cleans, leases, marks,
  gives_up,
}
use notify_queue.Dispatcher.Postings.{
  is_astray, Sound, Keeps, Steady, then-Steady, after_sent-Steady, after_failed-Steady,
  after_reap_all-Steady,
}

abbrev pub is_marking : {u : Uuids} {db db' : Db} → Step u db db' → Bool
is_marking (marks now x e) = true
is_marking (creates now new r e) = false
is_marking (claims locked now w n l js e) = false
is_marking (sends now x t w m url r e) = false
is_marking (fails now x t w error d q url r e) = false
is_marking (returns now x t d r e) = false
is_marking (reaps locked now n url ts e) = false
is_marking (requeues now x extra r more e) = false
is_marking (limits now recipient limit window r e) = false
is_marking (cleans now window n e) = false
is_marking (leases locked now limit lease es e) = false
is_marking (gives_up now x error delay e) = false

module _ (p : ℕ → Bool) where
  update-Sound :
      (hit : OutboxRow → Bool) (set : OutboxRow → OutboxRow)
      → ((r : OutboxRow) → hit r ≡ true → is_astray p r ≡ false → is_astray p (set r) ≡ false)
      → (rows : List OutboxRow) → exists_where (is_astray p) rows ≡ false
      → exists_where (is_astray p) (update_where hit set rows) ≡ false
  unfolding exists_where update_where
  update-Sound hit set keeps [] h = h
  update-Sound hit set keeps (r ∷ rows) h = ground (arith, keeps r, update-Sound hit set keeps rows)

  create_job-Steady : (u : Uuids) (now : ℕ) (new : NewJob) → Steady p (create_job u now new)
  unfolding create_job insert_job get_job_by_idempotency_key
  create_job-Steady u now new db = ground arith

  mark_sent-Steady :
      (u : Uuids) (now x t : ℕ) (w : String) (m : Option String) (url : String)
      → Steady p (mark_sent u now x t w m url)
  unfolding mark_sent update_jobs
  mark_sent-Steady u now x t w m url =
      then-Steady p (update_jobs _ _) _ (λ db h. h) (after_sent-Steady p u now x w m url)

  mark_failed-Steady :
      (u : Uuids) (now x t : ℕ) (w error : String) (delay : ℕ) (q : Bool) (url : String)
      → Steady p (mark_failed u now x t w error delay q url)
  unfolding mark_failed update_jobs
  mark_failed-Steady u now x t w error delay q url =
      then-Steady p (update_jobs _ _) _ (λ db h. h) (after_failed-Steady p u now x w error q url)

  reap-Steady :
      (u : Uuids) (locked : ℕ → Bool) (now limit : ℕ) (url : String)
      → Steady p (reap_expired_leases u locked now limit url)
  unfolding reap_expired_leases
  reap-Steady u locked now limit url db =
      let hit = in_expired locked now limit db.jobs in
      then-Steady p (write λ db. record db { jobs = update_where hit (set_reaped now) db.jobs }) _
        (λ db h. h)
        (λ _.
          then-Steady p (after_reap_all u now url (map (reap_row now) (select hit db.jobs)))
            (λ _. pure (map (λ row. transition row.job) (map (reap_row now) (select hit db.jobs))))
            (after_reap_all-Steady p u now url _) (λ _ db h. h))
        db

  upsert-Steady :
      (recipient : String) (start limit : ℕ) → Steady p (upsert_bucket recipient start limit)
  upsert-Steady recipient start limit db =
      let (o, rows, done) = upsert_result recipient start limit db in rw done (λ h. h)

  limit-Steady :
      (now : ℕ) (recipient : String) (limit window : ℕ)
      → Steady p (try_acquire_rate_limit now recipient limit window)
  unfolding try_acquire_rate_limit
  limit-Steady now recipient limit window =
      then-Steady p (check _ _) _ (λ db. ground arith)
        (λ _. then-Steady p _ _ (upsert-Steady recipient (window_start now window) limit) (λ o.
          elim o
            as (λ o. Steady p (elim o as (λ _. Tx (Option ℕ)) [
              | some n ↦ pure none
              | none ↦ pure (some ((now / window + 1) * window - now))
            ])) [ none ↦ λ _ h. h | some n ↦ λ _ h. h ]))

  requeue-Steady : (now x extra : ℕ) → Steady p (requeue_dead_letter now x extra)
  unfolding requeue_dead_letter update_jobs after_requeue
  requeue-Steady now x extra db = ground arith

  pub lease-Steady :
      (locked : ℕ → Bool) (now limit lease : ℕ)
      → Steady p (claim_outbox_events locked now limit lease)
  unfolding claim_outbox_events
  lease-Steady locked now limit lease db = update-Sound _ _ (λ r i h. h) db.webhook_outbox

  pub delivered-Steady : (now x : ℕ) → p x ≡ true → Steady p (mark_delivered now x)
  unfolding mark_delivered
  delivered-Steady now x y db =
      update-Sound _ _ (λ r i h. ground (arith, ap p ((==_iff r.id x).0 i) ∙ y)) db.webhook_outbox

  pub failed-Steady :
      (now x : ℕ) (error : String) (delay : Option ℕ)
      → Steady p (mark_attempt_failed now x error delay)
  unfolding mark_attempt_failed
  failed-Steady now x error none db = update-Sound _ _ (λ r i h. ground arith) db.webhook_outbox
  failed-Steady now x error (some d) db = update-Sound _ _ (λ r i h. ground arith) db.webhook_outbox

  claim-Steady :
      (u : Uuids) (locked : ℕ → Bool) (now : ℕ) (w : String) (n lease : ℕ)
      → Steady p (claim_due_jobs u locked now w n lease)
  unfolding claim_due_jobs
  claim-Steady u locked now w n lease db h = h

  return-Steady : (now x t delay : ℕ) → Steady p (return_to_queue now x t delay)
  unfolding return_to_queue update_jobs
  return-Steady now x t delay db h = h

  clean-Steady : (now window : ℕ) → Steady p (delete_old_rate_limit_buckets now window)
  unfolding delete_old_rate_limit_buckets
  clean-Steady now window db h = h

  -- At the outcome of a step.
  done :
      {A : Type 0} {a : A} (m : Tx A) (db db' : Db)
      → Steady p m
      → m db ≡ ok (a, db')
      → Sound p db
      → Sound p db'
  done m db db' h e = subst (Keeps p db) e (h db)

  pub Step-Sound :
      {u : Uuids} {db db' : Db} (s : Step u db db')
      → is_marking s ≡ false
      → Sound p db
      → Sound p db'
  Step-Sound (creates now new r e) m = done _ _ _ (create_job-Steady _ now new) e
  Step-Sound (claims locked now w n l js e) m = done _ _ _ (claim-Steady _ locked now w n l) e
  Step-Sound (sends now x t w message url r e) m =
      done _ _ _ (mark_sent-Steady _ now x t w message url) e
  Step-Sound (fails now x t w error d q url r e) m =
      done _ _ _ (mark_failed-Steady _ now x t w error d q url) e
  Step-Sound (returns now x t d r e) m = done _ _ _ (return-Steady now x t d) e
  Step-Sound (reaps locked now n url ts e) m = done _ _ _ (reap-Steady _ locked now n url) e
  Step-Sound (requeues now x extra r more e) m = done _ _ _ (requeue-Steady now x extra) e
  Step-Sound (limits now recipient limit window r e) m =
      done _ _ _ (limit-Steady now recipient limit window) e
  Step-Sound (cleans now window n e) m = done _ _ _ (clean-Steady now window) e
  Step-Sound (leases locked now limit lease es e) m =
      done _ _ _ (lease-Steady locked now limit lease) e
  Step-Sound (marks now x e) m = cc
  Step-Sound (gives_up now x error delay e) m = done _ _ _ (failed-Steady now x error delay) e
