-- ===== src/Examples/Processes.antt =====
-- The theorems on a worker process, applied to one that claims a job, delivers it and is stopped.
use mathlib.Core.WellFounded.{Acc}
use notify_queue.Prelude.{
  ℕ, ◌+◌, ◌≤◌, ◌≡◌, refl, ◌⊎◌, true, none, some, List, [], ◌∷◌, elem, select, exists_where,
  update_where, insert_by, sort_by, count_where, set, remove,
}
use notify_queue.Worker.{Moment, send_with_timeout}
use notify_queue.Worker.Accounting.{endings}
use notify_queue.Worker.Delivery.{start_all, advance, record_result}
use notify_queue.Senders.{record_send}
use notify_queue.Senders.{mock_send}
use notify_queue.Domain.Json.{get_field}
use notify_queue.RateLimiter.{postgres_acquire}
use notify_queue.Jobs.RateLimit.{try_acquire_rate_limit, upsert_bucket}
use notify_queue.Jobs.Create.{
  create_job, insert_job, new_row, conflicts, get_job_by_idempotency_key,
}
use notify_queue.Jobs.Claim.{claim_due_jobs, due}
use notify_queue.Jobs.Finalize.{
  mark_sent, after_sent, update_jobs, record_attempt, enqueue_webhook, insert_delivery,
}
use notify_queue.Polling.{
  fresh, passing, napping, claiming, claim_turn, reaper_turn, dispatcher_turn,
}
use notify_queue.Process.{
  Process, Turn, signalled, of_claim_loop, of_reaper, of_dispatcher, of_reporter, run_worker,
  goes_on, take_turn,
}
use notify_queue.Process.Shutdown.{Follows, all_returned, stopped_process_ends}
use notify_queue.Process.Stopping.{passes}
use notify_queue.Process.Claimed.{Visit, run_turns, jobs_claimed, in_flight, claimed_jobs_end}
use notify_queue.Dispatcher.{responded}
use notify_queue.Examples.Runs.{unlocked}
use notify_queue.Examples.Workers.{config, settings, moment, world}

abbrev visit : Turn → ℕ → Visit
visit turn t = record { turn = turn; moment = moment t; meanwhile = λ w. w }

abbrev first_loop : Turn
first_loop = of_claim_loop 0 0 unlocked

-- The first loop claims and delivers; the process is stopped before its next claim.
abbrev shift : List Visit
shift =
    visit first_loop 20
    ∷ visit first_loop 20
    ∷ visit first_loop 21
    ∷ visit first_loop 22
    ∷ visit first_loop 23
    ∷ visit first_loop 24
    ∷ visit signalled 25
    ∷ visit first_loop 25
    ∷ visit first_loop 26
    ∷ visit (of_claim_loop 1 0 unlocked) 26
    ∷ visit (of_reaper unlocked) 26
    ∷ visit (of_dispatcher 0 unlocked (responded 200)) 26
    ∷ visit of_reporter 26
    ∷ []

claimed_jobs_end_example :
    let p = run_worker settings 20 none in
    let end = run_turns config shift p world in
    (endings end.1 + in_flight end.0 ≡ endings world + jobs_claimed config shift p world)
    × (all_returned end.0 ≡ true
        → endings end.1 ≡ endings world + jobs_claimed config shift p world)
claimed_jobs_end_example = claimed_jobs_end config shift 20 none world

-- Every task returns, the job was claimed once, and its delivery has ended.
shift_ends :
    let p = run_worker settings 20 none in
    let end = run_turns config shift p world in
    (all_returned end.0 ≡ true) × (jobs_claimed config shift p world ≡ 1) × (endings end.1 ≡ 1)
unfolding run_turns jobs_claimed run_worker take_turn claim_turn reaper_turn dispatcher_turn set
    remove advance record_result start_all send_with_timeout mock_send record_send get_field
    postgres_acquire try_acquire_rate_limit upsert_bucket count_where create_job insert_job new_row
    conflicts get_job_by_idempotency_key exists_where select claim_due_jobs due elem insert_by
    sort_by update_where mark_sent after_sent update_jobs record_attempt enqueue_webhook
    insert_delivery
shift_ends = (refl, refl, refl)

-- A process that a signal finds in a claim and in a pass of the reaper.
abbrev stopped : Process
stopped = record {
  stop = true;
  last_activity = 20;
  exit_when_idle = some 60;
  claim_loops = passing (claiming 20) ∷ napping 30 ∷ [];
  reaper = passing tt;
  dispatcher = fresh;
  detached = [];
  reporter = napping 40;
  idle_watch = napping 25;
}

stopped_process_ends_example :
    Acc (Follows config) stopped
    × ((m : Moment) → (all_returned stopped ≡ true) ⊎ ((t : Turn) × (goes_on t m stopped ≡ true)))
    × ((q : Process) → Follows config q stopped → (q.stop ≡ true) × (passes q ≤ passes stopped))
stopped_process_ends_example = stopped_process_ends config stopped refl
