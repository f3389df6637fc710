-- ===== src/Invariant/Endings.antt =====
-- `after_sent`, `after_failed` and `after_reap` meet every constraint, and record the attempt.
use notify_queue.Prelude.{
  ℕ, ◌+◌, ◌≤◌, ◌≡◌, refl, Bool, true, false, Option, none, some, List, [], ◌∷◌, ◌++◌, String, arith,
  ◌==◌, ◌&&◌, if◌then◌else◌, exists_where, count_where, Bool-cases, inl, inr, ◌∙◌, ap,
}
use notify_queue.Domain.{Job, WebhookEvent, Outcome, is_dead}
use notify_queue.Tables.{Db, Uuids, IsFresh, EventData, Delivery, DeadLetter, AttemptRow, OutboxRow}
use notify_queue.Tables.Tx.{ok, ◌>>◌, >>-assoc, continue, pure}
use notify_queue.Jobs.Finalize.{
  attempt_row, event_row, delivery_row, letter_row, after_sent, after_failed, after_failure,
  transition, or_default, record_attempt,
}
use notify_queue.Jobs.Reap.{ReapedRow, after_reap, lease_expired_error}
use notify_queue.Invariant.{delivered, lettered, tried, one_if}
use notify_queue.Invariant.Recording.{Records}
use notify_queue.Invariant.Counts.{
  count_where-snoc, exists_where-snoc, exists_where-count, event_id-ne,
}

abbrev pub UnusedEvents : Uuids → Db → Type 0
UnusedEvents u db =
    (n : ℕ) → db.draws ≤ n → exists_where (λ r. r.id == u.event_id n) db.webhook_outbox ≡ false

-- The database with an attempt and an event added.
abbrev recorded : Db → AttemptRow → OutboxRow → Db
recorded db attempt event = record db {
  job_attempts = db.job_attempts ++ attempt ∷ [];
  webhook_outbox = db.webhook_outbox ++ event ∷ [];
  draws = db.draws + 1;
}

module _ (u : Uuids) (f : IsFresh u) (db : Db) (unused : UnusedEvents u db) where
  recorded-UnusedEvents :
      (event : OutboxRow)
      → event.id ≡ u.event_id db.draws
      → (n : ℕ) → db.draws + 1 ≤ n
      → exists_where (λ r. r.id == u.event_id n) (db.webhook_outbox ++ event ∷ []) ≡ false
  recorded-UnusedEvents event e n h = ground (
    arith,
    unused n,
    exists_where-snoc (λ r. r.id == u.event_id n) db.webhook_outbox event,
    event_id-ne u f db.draws n,
  )

  module _ (attempt : AttemptRow) (event : OutboxRow) (same : event.job_id ≡ attempt.job_id) where
    recorded-Records :
        (sent dead : Bool) (deliveries : List Delivery) (letters : List DeadLetter)
        → ((i : ℕ)
            → count_where (λ d. d.job_id == i) deliveries
              ≡ delivered db i + one_if (sent && (attempt.job_id == i)))
        → ((i : ℕ)
            → count_where (λ d. d.job_id == i) letters
              ≡ lettered db i + one_if (dead && (attempt.job_id == i)))
        → Records attempt.job_id attempt.attempt_no sent dead db
            (record (recorded db attempt event) { deliveries = deliveries; dead_letters = letters })
    recorded-Records sent dead deliveries letters d l = record {
      jobs_kept = refl;
      one_draw = refl;
      delivered_at = d;
      lettered_at = l;
      tries_at = λ i. count_where-snoc (λ a. a.job_id == i) db.job_attempts attempt;
      events_at = λ i. rw (← same) (count_where-snoc (λ r. r.job_id == i) db.webhook_outbox event);
      tried_at = λ i n.
          exists_where-snoc (λ a. (a.job_id == i) && (a.attempt_no == n)) db.job_attempts attempt;
    }

  pub after_sent_ok :
      (now x : ℕ) (worker_id : String) (message : Option String) (url : String) (row : Job)
      → tried db x row.attempts ≡ false
      → delivered db x ≡ 0
      → (db' : Db) × (after_sent u now x worker_id message url (some row) db
          ≡ ok (some (transition row), db'))
        × Records x row.attempts true false db db'
        × UnusedEvents u db'
  unfolding after_sent
  after_sent_ok now x worker_id message url row fresh none_yet =
      let attempt =
        attempt_row now x row.attempts (some worker_id) Outcome.sent none row.claimed_at in
      let event =
        event_row now (u.event_id db.draws) x WebhookEvent.sent (or_default row.callback_url url)
          (EventData.sent row.recipient row.channel row.attempts now) in
      let delivery = delivery_row now x worker_id message in
      (
        record (recorded db attempt event) { deliveries = db.deliveries ++ delivery ∷ [] },
        ground (
          arith,
          exists_where-count (λ d. d.job_id == x) db.deliveries none_yet,
          unused db.draws,
        ),
        recorded-Records attempt event refl true false (db.deliveries ++ delivery ∷ [])
            db.dead_letters (λ i. count_where-snoc (λ d. d.job_id == i) db.deliveries delivery)
            (λ i. omega arith),
        recorded-UnusedEvents event refl,
      )

  module _ (now : ℕ) (row : Job) (worker : Option String) (outcome : Outcome) (error : String)
      (started : Option ℕ) (reason url : String) where
    failure_ok :
        tried db row.id row.attempts ≡ false
        → lettered db row.id ≡ 0
        → (db' : Db) × ((record_attempt now row.id row.attempts worker outcome (some error) started
                >> after_failure u now row error reason url)
              db
            ≡ ok (tt, db'))
          × Records row.id row.attempts false (is_dead row.status) db db'
          × UnusedEvents u db'
    unfolding after_failure record_attempt
    failure_ok fresh none_yet =
        let attempt = attempt_row now row.id row.attempts worker outcome (some error) started in
        let draw = u.event_id db.draws in
        let target = or_default row.callback_url url in
        let dead_event = event_row now draw row.id WebhookEvent.dead_lettered target (
          EventData.dead_lettered reason row.recipient row.channel row.attempts row.max_attempts
            error) in
        let retry_event = event_row now draw row.id WebhookEvent.failed target (
          EventData.retrying row.run_at row.recipient row.channel row.attempts row.max_attempts
            error) in
        let letter = letter_row now row.id reason row.attempts error in
        let letters = db.dead_letters ++ letter ∷ [] in
        elim (Bool-cases (is_dead row.status)) [
          | inl e ↦ (
            record (recorded db attempt dead_event) { dead_letters = letters },
            ground (
              arith,
              exists_where-count (λ d. d.job_id == row.id) db.dead_letters none_yet,
              unused db.draws,
            ),
            rw e (
                recorded-Records attempt dead_event refl false true db.deliveries letters
                  (λ i. omega arith)
                  (λ i. count_where-snoc (λ d. d.job_id == i) db.dead_letters letter)),
            recorded-UnusedEvents dead_event refl,
          )
          | inr e ↦ (
            recorded db attempt retry_event,
            ground (arith, unused db.draws),
            rw e (
                recorded-Records attempt retry_event refl false false db.deliveries db.dead_letters
                  (λ i. omega arith) (λ i. omega arith)),
            recorded-UnusedEvents retry_event refl,
          )
        ]

  after_failed_at_id :
      (now : ℕ) (worker_id error : String) (permanent : Bool) (url : String) (row : Job)
      → tried db row.id row.attempts ≡ false
      → lettered db row.id ≡ 0
      → (db' : Db) × (after_failed u now row.id worker_id error permanent url (some row) db
          ≡ ok (some (transition row), db'))
        × Records row.id row.attempts false (is_dead row.status) db db'
        × UnusedEvents u db'
  unfolding after_failed
  after_failed_at_id now worker_id error permanent url row fresh none_yet =
      let reason = if permanent then "permanent error" else "max attempts exceeded" in
      let attempt =
        record_attempt now row.id row.attempts (some worker_id) Outcome.failed (some error)
          row.claimed_at in
      let (db', done, r, e) =
        failure_ok now row (some worker_id) Outcome.failed error row.claimed_at reason url fresh
          none_yet in
      (
        db',
        >>-assoc (attempt db) (after_failure u now row error reason url)
              (pure (some (transition row)))
            ∙ ap (λ r. continue r (λ _. pure (some (transition row)))) done,
        r,
        e,
      )

  pub after_failed_ok :
      (now : ℕ) (worker_id error : String) (permanent : Bool) (url : String) (row : Job) (x : ℕ)
      (dead : Bool)
      → row.id ≡ x
      → is_dead row.status ≡ dead
      → tried db x row.attempts ≡ false
      → lettered db x ≡ 0
      → (db' : Db) × (after_failed u now x worker_id error permanent url (some row) db
          ≡ ok (some (transition row), db'))
        × Records x row.attempts false dead db db'
        × UnusedEvents u db'
  after_failed_ok now worker_id error permanent url row x dead e d =
      rw (← e, ← d) (after_failed_at_id now worker_id error permanent url row)

  pub after_reap_ok :
      (now : ℕ) (url : String) (row : ReapedRow)
      → tried db row.job.id row.job.attempts ≡ false
      → lettered db row.job.id ≡ 0
      → (db' : Db) × (after_reap u now url row db ≡ ok (tt, db'))
        × Records row.job.id row.job.attempts false (is_dead row.job.status) db db'
        × UnusedEvents u db'
  unfolding after_reap
  after_reap_ok now url row fresh none_yet =
      failure_ok now row.job row.locked_by Outcome.lease_expired lease_expired_error row.claimed_at
        "max attempts exceeded" url fresh none_yet
