-- ===== src/Dispatcher/Recording.antt =====
-- The events that a dispatcher claims carry their own ids, and what it records of a POST rests on an answer.
use notify_queue.Prelude.{
  ℕ, ◌*◌, String, str_append, ◌≡◌, refl, Bool, true, false, not, ◌&&◌, some, List, [], ◌∷◌, ◌++◌,
  arith, ◌==◌, ==_iff, inl, inr, Bool-cases, Option-cases, leb, none, exists_where, select, map,
}
use mathlib.Core.Path.{subst}
use notify_queue.Dispatcher.Outcomes.{is_accepted}
use notify_queue.Domain.Backoff.{Uniform, backoff_delay}
use notify_queue.Settings.{Settings}
use notify_queue.Tables.{Db, OutboxRow}
use notify_queue.Tables.Tx.{Tx, ok, ok-pair}
use notify_queue.Outbox.{
  OutboxEvent, Receipt, to_event, set_leased, in_due_events, claim_outbox_events,
}
use notify_queue.Dispatcher.{
  webhook_backoff_base, webhook_backoff_cap, record_failure, Response, responded, http_error,
  other_error, is_success, claim_pass, dispatch,
}
use notify_queue.Dispatcher.Postings.{is_astray, Sound, Steady}
use notify_queue.Dispatcher.Marks.{delivered-Steady, failed-Steady, lease-Steady}
use notify_queue.Dispatcher.Exchange.{Acknowledgement}
use notify_queue.Dispatcher.Receiving.{has}

abbrev pub is_mismatched : OutboxEvent → Bool
is_mismatched e = not (e.payload.event_id == e.id)

abbrev pub is_unbacked : List Receipt → Acknowledgement → Bool
is_unbacked rs a = is_success a.status && not (has rs a.event_id)

claimed-matched :
    (p : ℕ → Bool) (hit : OutboxRow → Bool) (now lease : ℕ) (rows : List OutboxRow)
    → exists_where (is_astray p) rows ≡ false
    → exists_where is_mismatched (map (λ r. to_event (set_leased now lease r)) (select hit rows))
      ≡ false
unfolding exists_where select
claimed-matched p hit now lease [] h = refl
claimed-matched p hit now lease (r ∷ rows) h = elim (Bool-cases (hit r)) [
  | inl y ↦ rw y (ground (arith, claimed-matched p hit now lease rows))
  | inr z ↦ rw z (ground (arith, claimed-matched p hit now lease rows))
]

pub exists_where-join :
    (p : OutboxEvent → Bool) (xs ys : List OutboxEvent)
    → exists_where p xs ≡ false
    → exists_where p ys ≡ false
    → exists_where p (xs ++ ys) ≡ false
unfolding exists_where
exists_where-join p [] ys h k = k
exists_where-join p (x ∷ xs) ys h k = ground (arith, exists_where-join p xs ys)

pub claim-matched :
    (p : ℕ → Bool) (s : Settings) (locked : ℕ → Bool) (now : ℕ) (es : List OutboxEvent)
    (db db' : Db)
    → claim_pass s locked now db ≡ ok (es, db')
    → Sound p db
    → (exists_where is_mismatched es ≡ false) × Sound p db'
unfolding claim_pass claim_outbox_events
claim-matched p s locked now es db db' e h =
    let lease = s.webhook_timeout_seconds * 2 in
    let (same, same_db) = ok-pair e in
    let hit = in_due_events locked now s.webhook_batch_size db.webhook_outbox in
    (
      rw same at (claimed-matched p hit now lease db.webhook_outbox h),
      subst (Sound p) same_db (lease-Steady p locked now s.webhook_batch_size lease db h),
    )

pub answer-backed :
    (rs : List Receipt) (id code : ℕ) (answers : List Acknowledgement)
    → exists_where (is_unbacked rs) answers ≡ false
    → exists_where (λ (a : Acknowledgement). (a.event_id == id) && (a.status == code)) answers
      ≡ true
    → is_success code ≡ true
    → has rs id ≡ true
unfolding exists_where
answer-backed rs id code [] b h y = cc
answer-backed rs id code (a ∷ answers) b h y =
    elim (Bool-cases ((a.event_id == id) && (a.status == code))) [
      | inl z ↦
          let same = (==_iff a.event_id id).0 (ground arith) in
          let accepted : is_success a.status ≡ true =
            rw ((==_iff a.status code).0 (ground arith)) y in
          subst (λ n. has rs n ≡ true) same (ground arith)
      | inr z ↦ answer-backed rs id code answers (ground arith) (ground arith) y
    ]

some-equal : {A : Type 0} {a b : A} → some a ≡ some b → a ≡ b
some-equal h = cc

failure-Steady :
    (p : ℕ → Bool) (s : Settings) (rng : Uniform) (now : ℕ) (e : OutboxEvent) (error : String)
    (tx : Tx (Unit {0}))
    → record_failure s rng now e error ≡ some tx
    → Steady p tx
failure-Steady p s rng now e error tx h =
    elim (Bool-cases (leb s.webhook_max_attempts e.attempts)) [
      | inl y ↦ subst (Steady p) (some-equal (rw y at h)) (failed-Steady p now e.id error none)
      | inr z ↦
          elim (Option-cases
            (backoff_delay rng e.attempts webhook_backoff_base webhook_backoff_cap)) [
              | inl n ↦ cc (rw (z, n) at h)
              | inr (d, w) ↦
                  subst (Steady p) (some-equal (rw (z, w) at h))
                    (failed-Steady p now e.id error (some d))
            ]
    ]

pub dispatch-Steady :
    (p : ℕ → Bool) (s : Settings) (decimal : ℕ → String) (rng : Uniform) (now : ℕ) (e : OutboxEvent)
    (response : Response) (tx : Tx (Unit {0}))
    → (is_accepted response ≡ true → p e.id ≡ true)
    → dispatch s decimal rng now e response ≡ some tx
    → Steady p tx
unfolding dispatch
dispatch-Steady p s decimal rng now e (responded code) tx y h =
    elim (Bool-cases (is_success code)) [
      | inl z ↦ subst (Steady p) (some-equal (rw z at h)) (delivered-Steady p now e.id (y z))
      | inr z ↦ failure-Steady p s rng now e (str_append "HTTP " (decimal code)) tx (rw z at h)
    ]
dispatch-Steady p s decimal rng now e (http_error name message) tx y h =
    failure-Steady p s rng now e (str_append name (str_append ": " message)) tx h
dispatch-Steady p s decimal rng now e other_error tx y h = cc
