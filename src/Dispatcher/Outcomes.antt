-- ===== src/Dispatcher/Outcomes.antt =====
-- What a dispatch does to the event's row.
use notify_queue.Prelude.{
  ℕ, suc, ◌-◌, ◌<◌, ◌⊎◌, ltb, ◌+◌, ◌*◌, ◌/◌, ◌≤◌, ◌≡◌, ◌≢◌, ◌↔◌, refl, String, Bool, true, false,
  Option, none, some, List, [], ◌∷◌, leb, str_append, arith, first, select, update_where, ◌==◌,
  Bool-cases, inl, inr,
}
use notify_queue.Domain.Backoff.{Uniform, doubled, delay_at, delay_overflow}
use notify_queue.Settings.{Settings}
use notify_queue.Tables.{Db, OutboxRow, OutboxStatus}
use notify_queue.Tables.Tx.{Tx, ok}
use notify_queue.Outbox.{
  OutboxEvent, mark_delivered, mark_attempt_failed, set_delivered, set_attempt_failed,
}
use notify_queue.Dispatcher.{
  Response, responded, http_error, other_error, is_success, record_failure, dispatch,
  webhook_backoff_base, webhook_backoff_cap,
}

abbrev pub row_of : ℕ → List OutboxRow → Option OutboxRow
row_of x rows = first (select (λ r. r.id == x) rows)

abbrev pub is_accepted : Response → Bool
is_accepted (responded status_code) = is_success status_code
is_accepted (http_error name message) = false
is_accepted other_error = false

module _ (x : ℕ) (set : OutboxRow → OutboxRow) (keeps : (r : OutboxRow) → (set r).id ≡ r.id) where
  row_of-update :
      (rows : List OutboxRow) {r : OutboxRow}
      → row_of x rows ≡ some r
      → row_of x (update_where (λ r. r.id == x) set rows) ≡ some (set r)
  unfolding select update_where
  row_of-update [] h = cc
  row_of-update (y ∷ rows) {r} h = elim (Bool-cases (y.id == x)) [
    | inl e ↦ ground (arith, keeps y)
    | inr e ↦ ground (arith, row_of-update rows {r = r})
  ]

  row_of-other :
      (i : ℕ)
      → x ≢ i
      → (rows : List OutboxRow) → row_of i (update_where (λ r. r.id == x) set rows) ≡ row_of i rows
  unfolding select update_where
  row_of-other i n [] = refl
  row_of-other i n (y ∷ rows) = elim (Bool-cases (y.id == x)) [
    | inl e ↦ ground (arith, keeps y, row_of-other i n rows)
    | inr e ↦ ground (arith, row_of-other i n rows)
  ]

-- What the answer of a POST, made at the event's attempt, leaves of its row.
pub record Recorded (s : Settings) (now : ℕ) (event : OutboxEvent) (accepted : Bool)
    (row : OutboxRow) : Type 0 where
  pub delivered : (row.status ≡ OutboxStatus.delivered) ↔ (accepted ≡ true)
  pub given_up :
      (row.status ≡ OutboxStatus.failed)
      ↔ ((accepted ≡ false) × (s.webhook_max_attempts ≤ event.attempts))
  pub retried :
      row.status ≡ OutboxStatus.pending
      → let c = doubled (event.attempts - 1) webhook_backoff_base webhook_backoff_cap in
        (now + c / 2 ≤ row.next_attempt_at)
        × (row.next_attempt_at ≤ now + c)
        × (row.next_attempt_at ≤ now + 300 * 1000000)

-- A transaction that changes the row of an event, by set, and nothing else.
abbrev pub Records : Settings → ℕ → OutboxEvent → Bool → Db → Option (Tx (Unit {0})) → Type 0
Records s now event accepted db run =
    (tx : Tx (Unit {0})) × (db' : Db) × (row : OutboxRow) × (run ≡ some tx)
    × (tx db ≡ ok (tt, db'))
    × (row_of event.id db'.webhook_outbox ≡ some row)
    × Recorded s now event accepted row
    × ((i : ℕ) → event.id ≢ i → row_of i db'.webhook_outbox ≡ row_of i db.webhook_outbox)
    × (db' ≡ record db { webhook_outbox = db'.webhook_outbox })

-- An exception leaves the dispatch before its transaction: the HTTP client's, other than an HTTPError, or the
-- OverflowError of a delay that a failure asks for.
abbrev pub IsRaised :
    Settings → OutboxEvent → Response → (accepted : Bool) → Option (Tx (Unit {0})) → Type 0
IsRaised s event response accepted run =
    (run ≡ none)
    × ((response ≡ other_error)
        ⊎ ((accepted ≡ false)
            × (1025 ≤ event.attempts)
            × (event.attempts < s.webhook_max_attempts)))

module _ (s : Settings) (now : ℕ) (event : OutboxEvent) (db : Db) {r : OutboxRow}
    (at : row_of event.id db.webhook_outbox ≡ some r) where
  delivered_lem : Records s now event true db (some (mark_delivered now event.id))
  unfolding mark_delivered
  delivered_lem = (
    mark_delivered now event.id,
    record db {
      webhook_outbox = update_where (λ r. r.id == event.id) (set_delivered now) db.webhook_outbox;
    },
    set_delivered now r,
    refl,
    refl,
    row_of-update event.id (set_delivered now) (λ q. refl) db.webhook_outbox at,
    record { delivered = (λ h. refl, λ h. refl); given_up = (λ h. cc, λ h. cc); retried = λ h. cc },
    λ i n. row_of-other event.id (set_delivered now) (λ q. refl) i n db.webhook_outbox,
    refl,
  )

  failed_lem :
      (error : String) (delay : Option ℕ)
      → Recorded s now event false (set_attempt_failed now error delay r)
      → Records s now event false db (some (mark_attempt_failed now event.id error delay))
  unfolding mark_attempt_failed
  failed_lem error delay recorded =
      let keeps = keeps_id error delay in
      (
        mark_attempt_failed now event.id error delay,
        record db {
          webhook_outbox =
              update_where (λ r. r.id == event.id) (set_attempt_failed now error delay)
                db.webhook_outbox;
        },
        set_attempt_failed now error delay r,
        refl,
        refl,
        row_of-update event.id (set_attempt_failed now error delay) keeps db.webhook_outbox at,
        recorded,
        λ i n.
            row_of-other event.id (set_attempt_failed now error delay) keeps i n db.webhook_outbox,
        refl,
      )
    where
      keeps_id :
          (error : String) (delay : Option ℕ) (q : OutboxRow)
          → (set_attempt_failed now error delay q).id ≡ q.id
      keeps_id error none q = refl
      keeps_id error (some d) q = refl

  -- A failure that is recorded, or a delay that cannot be computed.
  abbrev RecordsFailure : Option (Tx (Unit {0})) → Type 0
  RecordsFailure run =
      Records s now event false db run
      ⊎ ((run ≡ none) × (1025 ≤ event.attempts) × (event.attempts < s.webhook_max_attempts))

  record_failure_lem :
      (rng : Uniform) (error : String)
      → 1 ≤ event.attempts
      → RecordsFailure (record_failure s rng now event error)
  record_failure_lem rng error h = elim (Bool-cases (leb s.webhook_max_attempts event.attempts)) [
    | inl y ↦ inl (
        rw y (
          failed_lem error none (record {
            delivered = (λ e. cc, λ e. cc);
            given_up = (λ e. (refl, ground arith), λ e. refl);
            retried = λ e. cc;
          })))
    | inr z ↦ elim (Bool-cases (ltb event.attempts 1025)) [
      | inl y ↦
          let (d, e, above, below, capped) =
            delay_at rng (event.attempts - 1) webhook_backoff_base webhook_backoff_cap
              (ground arith) in
          let at : suc (event.attempts - 1) ≡ event.attempts = omega (arith, h) in
          inl (
            rw (z, rw at at e)
              (failed_lem error (some d) (record {
                delivered = (λ q. cc, λ q. cc);
                given_up = (λ q. cc, λ q. ground (arith, q.1));
                retried = λ q. (omega (arith, above), omega (arith, below), omega (arith, capped));
              })))
      | inr w ↦ inr (
        rw
            (
              z,
              delay_overflow rng event.attempts webhook_backoff_base webhook_backoff_cap
                  (ground arith),
            )
            refl,
        ground arith,
        ground arith,
      )
    ]
  ]

  ends :
      {run : Option (Tx (Unit {0}))} (response : Response)
      → RecordsFailure run
      → Records s now event false db run ⊎ IsRaised s event response false run
  ends response (inl r) = inl r
  ends response (inr (n, late, left)) = inr (n, inr (refl, late, left))

  -- For an event of the outbox at its first or a later attempt, and however the POST ends: the
  -- dispatch commits, and the event is delivered exactly if the status was a success, given up
  -- exactly if the attempts have reached the limit without one, and otherwise pending after a delay
  -- in the upper half of the doubled base and of at most 300 seconds, while no other event and no
  -- other table changes; or an exception leaves the dispatch, with nothing committed, and then it is
  -- one of the POST that is no HTTPError, or a failure at an attempt from 1025 on and below the
  -- limit, whose delay overflows.
  pub dispatch-Records :
      (decimal : ℕ → String) (rng : Uniform) (response : Response)
      → 1 ≤ event.attempts
      → let run = dispatch s decimal rng now event response in
        Records s now event (is_accepted response) db run
        ⊎ IsRaised s event response (is_accepted response) run
  unfolding dispatch
  dispatch-Records decimal rng (responded code) h = elim (Bool-cases (is_success code)) [
    | inl y ↦ rw y (inl delivered_lem)
    | inr z ↦
        rw z (ends (responded code) (record_failure_lem rng (str_append "HTTP " (decimal code)) h))
  ]
  dispatch-Records decimal rng (http_error name message) h =
      ends (http_error name message)
        (record_failure_lem rng (str_append name (str_append ": " message)) h)
  dispatch-Records decimal rng other_error h = inr (refl, inl refl)
