-- ===== src/Examples/Runs.antt =====
-- The life of one job, transaction by transaction, each run as the code runs it.
use native.Mathlib.Nat.{mul-le-mul}
use notify_queue.Prelude.{
  ℕ, ◌+◌, ◌*◌, ◌<◌, ◌≡◌, refl, ap, Bool, false, none, some, [], ◌∷◌, arith, ltb, Bool-cases, inl,
  inr, select, update_where, exists_where, elem, insert_by, sort_by,
}
use notify_queue.Domain.{Job, NewJob, Channel, Priority}
use notify_queue.Domain.Json.{Fields}
use notify_queue.Tables.{Db, Uuids, IsFresh, empty_db}
use notify_queue.Tables.Tx.{Result, ok, raise}
use notify_queue.Jobs.Create.{
  create_job, insert_job, new_row, conflicts, get_job_by_idempotency_key,
}
use notify_queue.Jobs.Claim.{claim_due_jobs, due}
use notify_queue.Jobs.Finalize.{
  mark_sent, mark_failed, update_jobs, record_attempt, enqueue_webhook, insert_delivery, after_sent,
  after_failed, after_failure, insert_dead_letter,
}
use notify_queue.Jobs.Reap.{
  reap_expired_leases, expired, after_reap, after_reap_all, requeue_dead_letter, after_requeue,
}
use notify_queue.Invariant.{IsValid}
use notify_queue.History.{Step, Reach, here, next, creates, claims, sends, fails, reaps, requeues}
use notify_queue.History.Safety.{Reach-IsValid, empty-IsValid}

-- Uuids that number the draws.
abbrev pub numbered : Uuids
numbered = record {
  job_id = λ draw. draw;
  token = λ draw i. (draw + i) * (draw + i) + draw;
  event_id = λ draw. draw;
}

square_gap : (m i n j : ℕ) → m + i < n + j → (m + i) * (m + i) + m < (n + j) * (n + j) + n
square_gap m i n j h =
    let le =
      mul-le-mul {n₁ = m + i + 1} {m₁ = m + i + 1} {n₂ = n + j} {m₂ = n + j} (omega arith)
        (omega arith) in
    let square : (m + i + 1) * (m + i + 1) ≡ (m + i) * (m + i) + (m + i) + (m + i) + 1 =
      omega arith in
    omega (arith, le, square)

pub numbered-IsFresh : IsFresh numbered
numbered-IsFresh = record {
  job_id_once = λ m n e. e;
  token_once = λ m i n j e. elim (Bool-cases (ltb (m + i) (n + j))) [
    | inl y ↦ absurd (ground (arith, square_gap m i n j, e))
    | inr z ↦ elim (Bool-cases (ltb (n + j) (m + i))) [
      | inl y ↦ absurd (ground (arith, square_gap n j m i, e))
      | inr w ↦
          let same : m + i ≡ n + j = ground arith in
          let square : (m + i) * (m + i) ≡ (n + j) * (n + j) = ap (λ s. s * s) same in
          let first : m ≡ n = omega (arith, e, square) in (first, omega (arith, same, first))
    ]
  ];
  event_id_once = λ m n e. e;
}

abbrev pub request : NewJob
request = record {
  recipient = "ada@example.org";
  channel = Channel.email;
  payload = Fields.end;
  priority = Priority.high;
  max_attempts = 2;
  request_hash = "h";
  idempotency_key = some "k";
  send_at = none;
  delay_seconds = none;
  callback_url = none;
}

abbrev pub unlocked : ℕ → Bool
unlocked i = false

-- The database after a transaction, and its answer.
abbrev pub after : {A : Type 0} → Result (A × Db) → Db
after (ok (a, db)) = db
after (raise e) = empty_db

abbrev pub answer : {A : Type 0} → A → Result (A × Db) → A
answer default (ok (a, db)) = a
answer default (raise e) = default

-- The job is created (number 0), claimed under the token of draw 1, and sent.
abbrev pub created : Db
created = after (create_job numbered 10 request empty_db)

abbrev pub running : Db
running = after (claim_due_jobs numbered unlocked 20 "w1" 5 100 created)

abbrev pub token : ℕ
token = 2

abbrev pub delivered_db : Db
delivered_db = after (mark_sent numbered 30 0 token "w1" (some "m-1") "url" running)

-- Or its first attempt fails, and the second one, under the token of draw 3, outlives its lease: the
-- reaper gives it up, and an operator requeues it.
abbrev pub retrying : Db
retrying = after (mark_failed numbered 30 0 token "w1" "timeout" 5 false "url" running)

abbrev pub running_again : Db
running_again = after (claim_due_jobs numbered unlocked 40 "w2" 5 100 retrying)

abbrev pub second_token : ℕ
second_token = 12

abbrev pub reaped_db : Db
reaped_db = after (reap_expired_leases numbered unlocked 200 10 "url" running_again)

abbrev pub requeued_db : Db
requeued_db = after (requeue_dead_letter 300 0 1 reaped_db)

abbrev pub job_of : Db → Job
job_of db = elim db.jobs [ [] ↦ new_row numbered 0 request 0 | j ∷ js ↦ j ]

-- Each transaction runs to the database named above.
steps :
    Step numbered empty_db created
    × Step numbered created running
    × Step numbered running delivered_db
    × Step numbered running retrying
    × Step numbered retrying running_again
    × Step numbered running_again reaped_db
    × Step numbered reaped_db requeued_db
unfolding create_job insert_job new_row conflicts get_job_by_idempotency_key exists_where select
    claim_due_jobs due elem insert_by sort_by update_where mark_sent after_sent update_jobs
    record_attempt enqueue_webhook insert_delivery mark_failed after_failed after_failure
    insert_dead_letter reap_expired_leases expired after_reap after_reap_all requeue_dead_letter
    after_requeue
steps = (
  creates 10 request (answer (job_of empty_db, false) (create_job numbered 10 request empty_db))
      refl,
  claims unlocked 20 "w1" 5 100 (answer [] (claim_due_jobs numbered unlocked 20 "w1" 5 100 created))
      refl,
  sends 30 0 token "w1" (some "m-1") "url"
      (answer none (mark_sent numbered 30 0 token "w1" (some "m-1") "url" running)) refl,
  fails 30 0 token "w1" "timeout" 5 false "url"
      (answer none (mark_failed numbered 30 0 token "w1" "timeout" 5 false "url" running)) refl,
  claims unlocked 40 "w2" 5 100
      (answer [] (claim_due_jobs numbered unlocked 40 "w2" 5 100 retrying)) refl,
  reaps unlocked 200 10 "url"
      (answer [] (reap_expired_leases numbered unlocked 200 10 "url" running_again)) refl,
  requeues 300 0 1 (answer none (requeue_dead_letter 300 0 1 reaped_db)) (omega arith) refl,
)

pub to_created : Reach numbered empty_db created
to_created = next here steps.0

pub to_running : Reach numbered empty_db running
to_running = next to_created steps.1

pub sending : Reach numbered running delivered_db
sending = next here steps.2

pub to_delivered : Reach numbered empty_db delivered_db
to_delivered = next to_running steps.2

pub reclaiming : Reach numbered running running_again
reclaiming = next (next here steps.3) steps.4

pub to_running_again : Reach numbered empty_db running_again
to_running_again = next (next to_running steps.3) steps.4

pub claiming : Step numbered created running
claiming = steps.1

pub requeuing : Reach numbered reaped_db requeued_db
requeuing = next here steps.6

pub reaping : Reach numbered running_again requeued_db
reaping = next (next here steps.5) steps.6

pub to_reaped : Reach numbered empty_db reaped_db
to_reaped = next to_running_again steps.5

pub reached-IsValid : {db : Db} → Reach numbered empty_db db → IsValid numbered db
reached-IsValid r = Reach-IsValid numbered numbered-IsFresh (empty-IsValid numbered) r
