-- ===== src/Examples/Requests.antt =====
-- The theorems on the services, applied to one request.
use notify_queue.Prelude.{
  ◌⊎◌, true, false, String, ◌≡◌, refl, true, none, some, [], ◌∷◌, ◌++◌, arith, select, exists_where,
  first,
}
use notify_queue.Domain.{Channel, Priority}
use notify_queue.Domain.Json.{Fields}
use notify_queue.Domain.Schemas.{ScheduleJobRequest, from_domain}
use notify_queue.Tables.{empty_db}
use notify_queue.Jobs.Create.{
  create_job, insert_job, new_row, conflicts, get_job_by_idempotency_key, has_key,
}
use notify_queue.Invariant.{IsValid}
use notify_queue.History.{here}
use notify_queue.Cache.{answered, lost, down}
use notify_queue.Services.Scheduler.{Shared, Visit, schedule, scheduled, new_job, remember}
use notify_queue.Services.Coherence.{Coherent, remember-Coherent}
use notify_queue.Services.Replay.{Replayed, schedule-Replayed}
use notify_queue.Services.Creation.{schedule-created}
use notify_queue.Examples.Runs.{numbered, numbered-IsFresh, created, reached-IsValid, job_of}
use notify_queue.Services.Scheduler.{schedule_route, replied, error, is_past}
use notify_queue.Services.Posts.{schedule_route-replays}
use notify_queue.Domain.Schemas.{JobOut}
use notify_queue.Examples.Workers.{settings}

abbrev body : ScheduleJobRequest
body = record {
  recipient = "ada@example.org";
  channel = Channel.email;
  payload = Fields.end;
  priority = Priority.high;
  send_at = none;
  delay_seconds = none;
  max_attempts = none;
  callback_url = none;
  idempotency_key = some "k";
}

abbrev visit : Visit
visit = record {
  clock = 50;
  now = 50;
  read_key = answered;
  read_job = down;
  write_key = answered;
  write_job = lost;
}

abbrev cold : Shared
cold = record { db = created; cache = λ i. none; keys = λ k. none }

abbrev fresh : Shared
fresh = record { db = empty_db; cache = λ i. none; keys = λ k. none }

cold-Coherent : Coherent cold
cold-Coherent = record { of_keys = λ key id hash e. cc; of_jobs = λ i out e. cc }

fresh-Coherent : Coherent fresh
fresh-Coherent = record { of_keys = λ key id hash e. cc; of_jobs = λ i out e. cc }

-- Redis knows the key of the job.
abbrev warm : Shared
warm = remember visit (some "k") (job_of created) cold

keyed : first (select (has_key "k") created.jobs) ≡ some (job_of created)
unfolding create_job insert_job new_row conflicts get_job_by_idempotency_key exists_where select
keyed = refl

schedule-Replayed_example :
    Replayed (job_of created) "h" created (schedule numbered settings visit "h" body warm)
schedule-Replayed_example =
    schedule-Replayed numbered settings (omega arith) visit "h" body refl warm
      (remember-Coherent visit "k" (job_of created) cold cold-Coherent keyed) "k"
      {j = job_of created} refl keyed

schedule-created_example :
    let run = schedule numbered settings visit "h" body fresh in
    let row = new_row numbered 50 (new_job settings "h" body) 0 in
    (run.0 ≡ scheduled (from_domain row) true)
    × (run.1.db.jobs ≡ [] ++ row ∷ [])
    × IsValid numbered run.1.db
    × Coherent run.1
unfolding conflicts exists_where
schedule-created_example =
    schedule-created numbered numbered-IsFresh settings (omega arith) visit "h" body refl fresh
      fresh-Coherent (reached-IsValid here) refl

abbrev same_hash : ScheduleJobRequest → String
same_hash r = "h"

schedule_route-replays_example :
    let one = schedule_route numbered settings same_hash visit (some "k") body fresh in
    let two = schedule_route numbered settings same_hash visit (some "k") body one.1 in
    (out : JobOut) × (one.0 ≡ replied 201 out)
    × (two.1.db ≡ one.1.db)
    × (((is_past visit.clock body.send_at ≡ false)
          × (out' : JobOut) × (two.0 ≡ replied 200 out')
          × (out'.id ≡ out.id))
        ⊎ ((is_past visit.clock body.send_at ≡ true) × (two.0 ≡ error 422)))
unfolding conflicts exists_where
schedule_route-replays_example =
    schedule_route-replays numbered numbered-IsFresh settings (omega arith) same_hash "k" body refl
      visit visit fresh refl (reached-IsValid here) fresh-Coherent refl
