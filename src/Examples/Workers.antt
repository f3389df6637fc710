-- ===== src/Examples/Workers.antt =====
-- The theorems on the running system, applied to one job.
use notify_queue.Prelude.{
  ℕ, ◌⊎◌, ◌+◌, ◌≤◌, ◌≡◌, refl, String, true, false, none, some, List, [], ◌∷◌, arith, elem, select,
  exists_where, update_where, insert_by, sort_by, first, ◌==◌, ltb, if◌then◌else◌,
}
use notify_queue.Domain.{Job, JobStatus, Channel, WebhookEvent}
use notify_queue.Domain.Backoff.{Uniform}
use notify_queue.Settings.{Settings, RateLimitBackend}
use notify_queue.Tables.{Db, OutboxRow, OutboxStatus, EventData, empty_db, find}
use notify_queue.Jobs.Create.{
  create_job, insert_job, new_row, conflicts, get_job_by_idempotency_key,
}
use notify_queue.Jobs.Claim.{claim_due_jobs, due}
use notify_queue.Jobs.Reap.{lease_over, is_expired}
use notify_queue.Invariant.{delivered}
use notify_queue.History.{Reach}
use notify_queue.Senders.{record_send}
use notify_queue.Senders.Provider.{accepted, record_send-accepted}
use notify_queue.Cache.{answered}
use notify_queue.Outbox.{to_event}
use notify_queue.Worker.{World, Config, Moment, Task, done, acquiring, sending, budgeting}
use notify_queue.Worker.Delivery.{run_batch, start_all, advance, at_phase, deliver}
use notify_queue.Worker.Accounting.{endings}
use notify_queue.Worker.Termination.{deliver-counted}
use notify_queue.Dispatcher.{responded, dispatch}
use notify_queue.Dispatcher.Outcomes.{Records, IsRaised, dispatch-Records}
use notify_queue.Fleet.{
  Event, requested, polled, advanced, crashed, reaped, idle, run_events, task_at,
}
use notify_queue.Fleet.Delivered.{sent_was_accepted}
use notify_queue.Fleet.Refinement.{run_events-Reach}
use notify_queue.Fleet.Lease.{lease_outlives_send}
use notify_queue.Domain.Json.{get_field}
use notify_queue.Senders.{mock_send}
use notify_queue.Worker.{ended, send_with_timeout}
use notify_queue.Worker.Delivery.{record_result}
use notify_queue.Fleet.{handle}
use notify_queue.Reaper.{run_once, reap_pass}
use notify_queue.RateLimiter.{postgres_acquire}
use notify_queue.Jobs.RateLimit.{
  delete_old_rate_limit_buckets, try_acquire_rate_limit, upsert_bucket,
}
use notify_queue.Jobs.Reap.{reap_expired_leases, expired, after_reap_all}
use notify_queue.Jobs.Finalize.{
  mark_sent, after_sent, update_jobs, record_attempt, enqueue_webhook, insert_delivery,
}
use notify_queue.Prelude.{count_where}
use notify_queue.Examples.Runs.{numbered, numbered-IsFresh, request, unlocked, created, job_of}

abbrev pub settings : Settings
settings = record {
  db_pool_timeout = 5;
  cache_enabled = true;
  worker_concurrency = 2;
  batch_size = 5;
  poll_interval = 6;
  lease_seconds = 100;
  send_timeout_seconds = 10;
  lease_safety_margin_seconds = 5;
  reaper_interval = 50;
  reaper_batch_size = 10;
  max_attempts = 2;
  backoff_base_seconds = 4;
  backoff_cap_seconds = 60;
  rate_limit_per_hour = 3;
  rate_limit_window_seconds = 1000;
  rate_limit_backend = RateLimitBackend.postgres;
  webhook_batch_size = 20;
  webhook_poll_interval = 8;
  webhook_timeout_seconds = 10;
  webhook_max_attempts = 3;
  default_callback_url = "url";
}

abbrev pub digits : ℕ → String
digits n = "7"

abbrev pub config : Config
config = record { uuids = numbered; settings = settings; worker_id = "w"; decimal = digits }

abbrev pub no_jitter : Uniform
no_jitter = record { uniform = λ hi. 0; uniform-le = λ hi. omega arith }

-- A segment at time t by every clock, at which every call is answered.
abbrev pub moment : ℕ → Moment
moment t = record {
  now = t;
  monotonic = t;
  now_ms = t;
  link = answered;
  rng = no_jitter;
  send_link = answered;
  send_fails = false;
  serial = t;
}

-- A job is requested, claimed, and delivered; in between a reaper passes, and a task that is not there
-- crashes.
abbrev day : List Event
day =
    requested 10 request
    ∷ polled unlocked "w/0" 20 20
    ∷ advanced 0 (moment 21)
    ∷ advanced 0 (moment 22)
    ∷ advanced 0 (moment 23)
    ∷ reaped unlocked 24
    ∷ crashed 4
    ∷ advanced 0 (moment 25)
    ∷ []

sent_was_accepted_example :
    let w = (run_events config day idle).world in
    (accepted w.provider 0 ≤ 1)
    × (delivered w.db 0 ≤ accepted w.provider 0)
    × ((j : Job)
        → find 0 w.db.jobs ≡ some j
        → j.status ≡ JobStatus.sent
        → (accepted w.provider 0 ≡ 1) × (delivered w.db 0 ≡ 1))
sent_was_accepted_example = sent_was_accepted config numbered-IsFresh (omega arith) day 0

run_events-Reach_example : Reach numbered empty_db (run_events config day idle).world.db
run_events-Reach_example = run_events-Reach config (omega arith) day idle

-- The day ends with the job sent.
day_sends :
    let w = (run_events config day idle).world in
    (accepted w.provider 0 ≡ 1) × (delivered w.db 0 ≡ 1) × (w.stats ≡ ended JobStatus.sent ∷ [])
unfolding run_events handle advance record_result run_batch start_all send_with_timeout mock_send
    record_send get_field run_once reap_pass delete_old_rate_limit_buckets reap_expired_leases
    expired after_reap_all postgres_acquire try_acquire_rate_limit upsert_bucket count_where
    create_job insert_job new_row conflicts get_job_by_idempotency_key exists_where select
    claim_due_jobs due elem insert_by sort_by update_where mark_sent after_sent update_jobs
    record_attempt enqueue_webhook insert_delivery
day_sends = (refl, refl, refl)

abbrev pub world : World
world = record idle.world { db = created }

abbrev task : Task
task = elim (run_batch config unlocked "w/0" 20 20 world).0 [
  | t ∷ ts ↦ t
  | [] ↦ record { job = job_of created; claim_token = 0; lease_deadline = 0; phase = done }
]

abbrev five : List Moment
five = moment 21 ∷ moment 22 ∷ moment 23 ∷ moment 24 ∷ moment 25 ∷ []

-- The job of the claim is at the start of its delivery, and its send may start.
started :
    (task_at 0 (run_batch config unlocked "w/0" 20 20 world).0 ≡ some task)
    × (task.phase ≡ acquiring)
    × ((advance config (moment 22) (at_phase task budgeting) world).0 ≡ sending)
unfolding run_batch start_all create_job insert_job new_row conflicts get_job_by_idempotency_key
    exists_where select claim_due_jobs due elem insert_by sort_by update_where advance
started = (refl, refl, refl)

deliver-counted_example :
    ((deliver config five task world).0.phase ≡ done)
    × (endings (deliver config five task world).1 ≡ endings world + 1)
deliver-counted_example =
    deliver-counted config five task world (rw (started.1) (omega arith))
      (rw (started.1) (omega arith))

lease_outlives_send_example :
    (lease_over 40 task.job.lease_expires_at ≡ false) × (is_expired unlocked 40 task.job ≡ false)
lease_outlives_send_example =
    lease_outlives_send config unlocked "w/0" 20 20 world (moment 22) world 0 task started.0
      started.2 37 (omega arith) 42 (omega arith) unlocked 40 (omega arith)

record_send-accepted_example :
    let run = record_send 2 40 (job_of created) (record_send 1 30 (job_of created) []).1 in
    (accepted run.1 0 ≡ (
      if (job_of created).id == 0
      then (if accepted (record_send 1 30 (job_of created) []).1 0 == 0
          then 1
          else accepted (record_send 1 30 (job_of created) []).1 0)
      else accepted (record_send 1 30 (job_of created) []).1 0))
    × (run.0.1 ≡ ltb 0 (accepted (record_send 1 30 (job_of created) []).1 (job_of created).id))
record_send-accepted_example =
    record_send-accepted 2 40 (job_of created) (record_send 1 30 (job_of created) []).1 0

abbrev pub outbox_row : OutboxRow
outbox_row = record {
  id = 7;
  job_id = 0;
  event = WebhookEvent.sent;
  payload = record {
    event_id = 7;
    job_id = 0;
    event = WebhookEvent.sent;
    content = EventData.sent "ada@example.org" Channel.email 1 30;
  };
  target_url = "url";
  status = OutboxStatus.pending;
  attempts = 1;
  next_attempt_at = 50;
  last_error = none;
  created_at = 30;
  delivered_at = none;
}

abbrev outbox_db : Db
outbox_db = record empty_db { webhook_outbox = outbox_row ∷ [] }

at_row : first (select (λ r. r.id == 7) outbox_db.webhook_outbox) ≡ some outbox_row
unfolding select
at_row = refl

dispatch-Records_example :
    let run = dispatch settings digits no_jitter 60 (to_event outbox_row) (responded 503) in
    Records settings 60 (to_event outbox_row) false outbox_db run
    ⊎ IsRaised settings (to_event outbox_row) (responded 503) false run
dispatch-Records_example =
    dispatch-Records settings 60 (to_event outbox_row) outbox_db at_row digits no_jitter
      (responded 503) (omega arith)
