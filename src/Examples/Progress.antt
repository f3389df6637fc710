-- ===== src/Examples/Progress.antt =====
-- The theorems that say that something good happens, and the round trip of a priority, on small inputs.
use notify_queue.Prelude.{
  ◌⊎◌, List, true, ℕ, ◌≤◌, ◌≡◌, refl, String, false, none, some, [], ◌∷◌, arith, if◌then◌else◌,
  str_eq, select, exists_where, update_where, insert_by, sort_by, elem, count_where,
}
use notify_queue.Domain.{Priority, to_int}
use notify_queue.Domain.Priorities.{text, integer, name, to_text, parse, parse-to_text}
use notify_queue.Domain.Json.{get_field}
use notify_queue.Senders.{SendResult, replied, record_send, mock_send}
use notify_queue.Tables.{Db, find}
use notify_queue.Tables.Tx.{ok}
use notify_queue.Jobs.Create.{
  create_job, insert_job, new_row, conflicts, get_job_by_idempotency_key,
}
use notify_queue.Jobs.Claim.{claim_due_jobs, due}
use notify_queue.Jobs.RateLimit.{try_acquire_rate_limit, upsert_bucket}
use notify_queue.Jobs.Finalize.{
  mark_failed, update_jobs, record_attempt, enqueue_webhook, after_failed, after_failure, set_sent,
}
use notify_queue.Jobs.Reap.{is_expired, set_reaped}
use notify_queue.RateLimiter.{postgres_acquire}
use notify_queue.Invariant.{IsValid, delivered}
use notify_queue.Invariant.Held.{held}
use notify_queue.Worker.{World, Task, acquiring, done, limiter_acquire, send_with_timeout}
use notify_queue.Worker.Delivery.{deliver}
use notify_queue.Reaper.{run_once}
use notify_queue.Reaper.Progress.{run_once-reclaims}
use notify_queue.Cache.{answered}
use notify_queue.Jobs.Reports.{job_counts}
use notify_queue.Services.Metrics.{Metrics, returned, Segment, get_or_compute, serve, quiet}
use notify_queue.Services.Snapshots.{Seen, Holds, is_missed, IsOwned, serve-Seen}
use notify_queue.Fleet.{idle}
use notify_queue.Fleet.Healthy.{healthy_delivery}
use notify_queue.Examples.Runs.{
  numbered, numbered-IsFresh, unlocked, running, running_again, to_running, to_running_again,
  reached-IsValid, token, job_of, after,
}
use notify_queue.Examples.Facts.{facts}
use notify_queue.Examples.Workers.{settings, config, moment}

-- The names, as `str.upper` and `str.lower` write them.
abbrev upper : String → String
upper s =
    if str_eq s "low"
    then "LOW"
    else (if str_eq s "normal"
        then "NORMAL"
        else (if str_eq s "high" then "HIGH" else (if str_eq s "critical" then "CRITICAL" else s)))

abbrev lower : String → String
lower s =
    if str_eq s "LOW"
    then "low"
    else (if str_eq s "NORMAL"
        then "normal"
        else (if str_eq s "HIGH" then "high" else (if str_eq s "CRITICAL" then "critical" else s)))

names : (p : Priority) → upper (lower (name p)) ≡ name p
names Priority.low = refl
names Priority.normal = refl
names Priority.high = refl
names Priority.critical = refl

parse-to_text_example :
    (parse upper (text (to_text lower Priority.high)) ≡ some Priority.high)
    × (parse upper (integer (to_int Priority.high)) ≡ some Priority.high)
    × ((s : String) → parse upper (text s) ≡ some Priority.high → upper s ≡ name Priority.high)
    × ((n : ℕ) → parse upper (integer n) ≡ some Priority.high → n ≡ to_int Priority.high)
parse-to_text_example = parse-to_text upper lower names Priority.high

abbrev claimed_world : World
claimed_world = record idle.world { db = running }

abbrev claimed_task : Task
claimed_task = record {
  job = job_of running;
  claim_token = token;
  lease_deadline = 120;
  phase = acquiring;
}

abbrev admitted_db : Db
admitted_db = after (limiter_acquire settings (moment 21) claimed_task.job claimed_world).1

abbrev sent_result : SendResult
sent_result = record { provider_message_id = "mock-7"; deduplicated = false }

held_now : held claimed_task.job.id token running ≡ some (job_of running)
unfolding create_job insert_job new_row conflicts get_job_by_idempotency_key exists_where select
    claim_due_jobs due elem insert_by sort_by update_where
held_now = refl

goes_well :
    ((limiter_acquire settings (moment 21) claimed_task.job claimed_world).1
      ≡ ok (none, admitted_db))
    × ((send_with_timeout config (moment 23) claimed_task.job []).0 ≡ replied sent_result)
unfolding postgres_acquire try_acquire_rate_limit upsert_bucket select send_with_timeout mock_send
    record_send get_field create_job insert_job new_row conflicts get_job_by_idempotency_key
    exists_where claim_due_jobs due elem insert_by sort_by update_where
goes_well = (refl, refl)

healthy_delivery_example :
    let run =
      deliver config
        (moment 21 ∷ moment 22 ∷ moment 23 ∷ moment 24 ∷ [])
        claimed_task
        claimed_world in
    (run.0.phase ≡ done)
    × (find claimed_task.job.id run.1.db.jobs ≡ some (set_sent 24 (job_of running)))
    × (delivered run.1.db claimed_task.job.id ≡ 1)
healthy_delivery_example =
    healthy_delivery config numbered-IsFresh claimed_task claimed_world {j = job_of running}
      (reached-IsValid to_running) refl held_now (moment 21) (moment 22) (moment 23) (moment 24)
      admitted_db goes_well.0 (omega arith) sent_result goes_well.1

abbrev late_world : World
late_world = record idle.world { db = running_again }

room : count_where (is_expired unlocked 200) running_again.jobs ≤ 10
unfolding create_job insert_job new_row conflicts get_job_by_idempotency_key exists_where select
    claim_due_jobs due elem insert_by sort_by update_where update_jobs record_attempt
    enqueue_webhook mark_failed after_failed after_failure count_where
room = omega arith

run_once-reclaims_example :
    let run = run_once config unlocked 200 late_world in
    IsValid numbered run.1.db
    × (find 0 run.1.db.jobs
        ≡ some (
            if is_expired unlocked 200 (job_of running_again)
            then set_reaped 200 (job_of running_again)
            else job_of running_again))
run_once-reclaims_example =
    run_once-reclaims config numbered-IsFresh unlocked 200 late_world
      (reached-IsValid to_running_again) room 0 {j = job_of running_again} facts.7

-- Two clients at once: the first counts, and the second waits and reads.
abbrev glance : ℕ → Segment
glance i = record {
  client = i;
  metrics_expired = false;
  lock_expired = false;
  link = answered;
  clock = 25;
  now = 25;
  db = running;
}

abbrev glances : List Segment
glances = glance 0 ∷ glance 1 ∷ glance 0 ∷ glance 1 ∷ glance 0 ∷ glance 0 ∷ glance 1 ∷ glance 0 ∷ []

abbrev counted : Metrics
counted = record {
  pending = 0;
  pending_due = 0;
  scheduled = 0;
  failed = 0;
  processing = 1;
  sent = 0;
  failed_attempts_total = 0;
  dead_lettered = 0;
  webhooks_pending = 0;
  generated_at = 25;
}

both_answered :
    ((serve true glances quiet).clients 0 ≡ returned counted false)
    × ((serve true glances quiet).clients 1 ≡ returned counted true)
unfolding serve get_or_compute job_counts count_where create_job insert_job new_row conflicts
    get_job_by_idempotency_key exists_where select claim_due_jobs due elem insert_by sort_by
    update_where
both_answered = (refl, refl)

serve-Seen_example :
    let d = serve true glances quiet in
    ((i : ℕ) → Holds (Seen glances) (d.clients i))
    × ((exists_where is_missed glances ≡ true) ⊎ IsOwned d)
serve-Seen_example = serve-Seen true glances
