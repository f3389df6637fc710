-- ===== src/History/Quiet.antt =====
-- That no transaction but `mark_sent` writes to the ledger of deliveries.
use notify_queue.Prelude.{
  ℕ, ◌≡◌, refl, ◌∙◌, ap, String, Bool, true, false, Option, List, [], ◌∷◌, arith, first, select,
  map, update_where,
}
use notify_queue.Domain.{Job, NewJob, Outcome, WebhookEvent}
use notify_queue.Tables.{Db, Uuids, EventData}
use notify_queue.Tables.Tx.{Result, ok, raise, continue, pure}
use notify_queue.Jobs.Create.{create_job, insert_job, get_job_by_idempotency_key}
use notify_queue.Jobs.Claim.{claim_due_jobs}
use notify_queue.Jobs.Finalize.{
  Transition, transition, update_jobs, record_attempt, enqueue_webhook, insert_dead_letter,
  after_failure, after_failed, mark_failed, return_to_queue, set_failed, is_held,
}
use notify_queue.Jobs.Reap.{
  ReapedRow, after_reap, after_reap_all, reap_expired_leases, after_requeue, requeue_dead_letter,
  in_expired, reap_row, set_reaped,
}
use notify_queue.History.{
  Step, creates, claims, sends, fails, returns, reaps, requeues, limits, cleans, leases, marks,
  gives_up,
}
use notify_queue.History.Unseen.{
  Unseen, limits-Unseen, cleans-Unseen, leases-Unseen, marks-Unseen, gives_up-Unseen,
}

-- A result that commits no change of the ledger.
abbrev pub Kept : {A : Type 0} → Db → Result (A × Db) → Type 0
Kept db (ok (a, db')) = db'.deliveries ≡ db.deliveries
Kept db (raise e) = Unit {0}

module _ (u : Uuids) (now : ℕ) where
  create_job-Kept : (new : NewJob) (db : Db) → Kept db (create_job u now new db)
  unfolding create_job insert_job get_job_by_idempotency_key
  create_job-Kept new db = ground arith

  record_attempt-Kept :
      (i n : ℕ) (w : Option String) (o : Outcome) (e : Option String) (t : Option ℕ) (db : Db)
      → Kept db (record_attempt now i n w o e t db)
  unfolding record_attempt
  record_attempt-Kept i n w o e t db = ground arith

  enqueue_webhook-Kept :
      (i : ℕ) (event : WebhookEvent) (url : String) (content : EventData) (db : Db)
      → Kept db (enqueue_webhook u now i event url content db)
  unfolding enqueue_webhook
  enqueue_webhook-Kept i event url content db = ground arith

  after_failure-Kept :
      (row : Job) (error reason url : String) (db : Db)
      → Kept db (after_failure u now row error reason url db)
  unfolding after_failure insert_dead_letter enqueue_webhook
  after_failure-Kept row error reason url db = ground arith

  after_failed-Kept :
      (x : ℕ) (w error : String) (p : Bool) (url : String) (row : Option Job) (db : Db)
      → Kept db (after_failed u now x w error p url row db)
  unfolding after_failed record_attempt after_failure insert_dead_letter enqueue_webhook
  after_failed-Kept x w error p url row db = ground arith

  after_reap-Kept :
      (url : String) (row : ReapedRow) (db : Db) → Kept db (after_reap u now url row db)
  unfolding after_reap record_attempt after_failure insert_dead_letter enqueue_webhook
  after_reap-Kept url row db = ground arith

  mark_failed-Kept :
      (x t : ℕ) (w error : String) (delay : ℕ) (p : Bool) (url : String) (db : Db)
      → Kept db (mark_failed u now x t w error delay p url db)
  unfolding mark_failed update_jobs
  mark_failed-Kept x t w error delay p url db =
      after_failed-Kept x w error p url
        (first (map (set_failed now error delay p) (select (is_held x t) db.jobs)))
        (record db { jobs = update_where (is_held x t) (set_failed now error delay p) db.jobs })

  after_reap_all-Kept :
      (url : String) (rows : List ReapedRow) (db : Db) → Kept db (after_reap_all u now url rows db)
  unfolding after_reap_all
  after_reap_all-Kept url [] db = refl
  after_reap_all-Kept url (row ∷ rows) db =
      next (after_reap u now url row db) (after_reap-Kept url row db)
        (λ mid. after_reap_all-Kept url rows mid)
    where
      next :
          (r : Result (Unit {0} × Db))
          → Kept db r
          → ((mid : Db) → Kept mid (after_reap_all u now url rows mid))
          → Kept db (continue r (λ _. after_reap_all u now url rows))
      next (ok (a, mid)) k rest = onward (after_reap_all u now url rows mid) (rest mid)
        where
          onward : (r : Result (Unit {0} × Db)) → Kept mid r → Kept db r
          onward (ok (b, db')) h = h ∙ k
          onward (raise e) h = tt
      next (raise e) k rest = tt

  reap-Kept :
      (locked : ℕ → Bool) (limit : ℕ) (url : String) (db : Db)
      → Kept db (reap_expired_leases u locked now limit url db)
  unfolding reap_expired_leases
  reap-Kept locked limit url db =
      let hit = in_expired locked now limit db.jobs in
      let mid : Db = record db { jobs = update_where hit (set_reaped now) db.jobs } in
      end (map (λ row. transition row.job) (map (reap_row now) (select hit db.jobs))) mid
        (after_reap_all u now url (map (reap_row now) (select hit db.jobs)) mid)
        (after_reap_all-Kept url (map (reap_row now) (select hit db.jobs)) mid)
    where
      end :
          (ts : List Transition) (mid : Db) (r : Result (Unit {0} × Db))
          → Kept mid r
          → Kept mid (continue r (λ _. pure ts))
      end ts mid (ok (b, db')) h = h
      end ts mid (raise e) h = tt

  claim-Kept :
      (locked : ℕ → Bool) (w : String) (n lease : ℕ) (db : Db)
      → Kept db (claim_due_jobs u locked now w n lease db)
  unfolding claim_due_jobs
  claim-Kept locked w n lease db = refl

  return_to_queue-Kept : (x t delay : ℕ) (db : Db) → Kept db (return_to_queue now x t delay db)
  unfolding return_to_queue update_jobs
  return_to_queue-Kept x t delay db = refl

  requeue-Kept : (x extra : ℕ) (db : Db) → Kept db (requeue_dead_letter now x extra db)
  unfolding requeue_dead_letter update_jobs after_requeue
  requeue-Kept x extra db = ground arith

abbrev pub is_sending : {u : Uuids} {db db' : Db} → Step u db db' → Bool
is_sending (sends now x t w m url r e) = true
is_sending (creates now new r e) = false
is_sending (claims locked now w n l js e) = false
is_sending (fails now x t w error d p url r e) = false
is_sending (returns now x t d r e) = false
is_sending (reaps locked now n url ts e) = false
is_sending (requeues now x extra r more e) = false
is_sending (limits now recipient limit window r e) = false
is_sending (cleans now window n e) = false
is_sending (leases locked now limit lease es e) = false
is_sending (marks now x e) = false
is_sending (gives_up now x error delay e) = false

Unseen-deliveries : {db db' : Db} → Unseen db db' → db'.deliveries ≡ db.deliveries
Unseen-deliveries n = ap (λ (d : Db). d.deliveries) n.same

kept :
    {A : Type 0} {a : A} {r : Result (A × Db)} (db db' : Db)
    → r ≡ ok (a, db')
    → Kept db r
    → db'.deliveries ≡ db.deliveries
kept db db' e h = rw e at h

module _ (u : Uuids) {db db' : Db} where
  pub Step-deliveries : (s : Step u db db') → is_sending s ≡ false → db'.deliveries ≡ db.deliveries
  Step-deliveries (creates now new r e) h = kept db db' e (create_job-Kept u now new db)
  Step-deliveries (claims locked now w n l js e) h =
      kept db db' e (claim-Kept u now locked w n l db)
  Step-deliveries (sends now x t w m url r e) h = cc
  Step-deliveries (fails now x t w error d p url r e) h =
      kept db db' e (mark_failed-Kept u now x t w error d p url db)
  Step-deliveries (returns now x t d r e) h = kept db db' e (return_to_queue-Kept u now x t d db)
  Step-deliveries (reaps locked now n url ts e) h = kept db db' e (reap-Kept u now locked n url db)
  Step-deliveries (requeues now x extra r more e) h = kept db db' e (requeue-Kept u now x extra db)
  Step-deliveries (limits now recipient limit window r e) h =
      Unseen-deliveries (limits-Unseen now recipient limit window r e)
  Step-deliveries (cleans now window n e) h = Unseen-deliveries (cleans-Unseen now window n e)
  Step-deliveries (leases locked now limit lease es e) h =
      Unseen-deliveries (leases-Unseen locked now limit lease es e)
  Step-deliveries (marks now x e) h = Unseen-deliveries (marks-Unseen now x e)
  Step-deliveries (gives_up now x error delay e) h =
      Unseen-deliveries (gives_up-Unseen now x error delay e)
