-- ===== src/Services/Routes.antt =====
-- The other routes of the HTTP API: src/notify_queue/api/routes/jobs.py (get), dead_letters.py, health.py and
-- mock.py. What a query parameter may be is checked by FastAPI, as its declaration says: a request that
-- breaks it is answered with 422. The bodies of the lists are the rows.
use notify_queue.Prelude.{ℕ, Bool, true, false, ◌&&◌, Option, none, some, List, leb, if◌then◌else◌}
use notify_queue.Domain.Schemas.{JobOut, within}
use notify_queue.Settings.{Settings}
use notify_queue.Tables.{Db, EventPayload}
use notify_queue.Tables.Tx.{Error, Result, ok, raise}
use notify_queue.Jobs.Reports.{DeadLetterListing, list_dead_letters}
use notify_queue.Outbox.{Receipt, record_receipt, list_receipts}
use notify_queue.Cache.{Link, answered, lost, down, Store}
use notify_queue.Services.Scheduler.{
  Shared, Visit, get_out, get_with_attempts, HttpReply, replied, error,
}
use notify_queue.Services.DeadLetters.{
  RequeueReply, requeued, not_dead_lettered, failed, requeue, extra_or_default,
}

-- `None` is a 404.
abbrev pub to_found : Option JobOut → HttpReply
to_found none = error 404
to_found (some job) = replied 200 job

-- `get_job`
unfoldable pub get_route :
    Visit → (include_attempts : Bool) → (job_id : ℕ) → Shared → HttpReply × Shared
get_route v true job_id s = let found = get_with_attempts v job_id s in (to_found found.0, found.1)
get_route v false job_id s = let found = get_out v job_id s in (to_found found.0, found.1)

-- An answer whose body is not a job.
pub data Answer (A : Type 0) : Type 0 where
  answer : (status : ℕ) → A → Answer A
  refused : (status : ℕ) → Answer A
  exception : Error → Answer A

-- `Query(ge=1, le=500)`
abbrev pub is_page_limit : ℕ → Bool
is_page_limit limit = leb 1 limit && leb limit 500

abbrev pub to_answer : {A : Type 0} → Result (A × Db) → Answer A
to_answer (ok (a, db)) = answer 200 a
to_answer (raise e) = exception e

-- `list_dead_letters`, which changes nothing.
unfoldable pub list_route : (limit offset : ℕ) → Db → Answer (List DeadLetterListing)
list_route limit offset db =
    if is_page_limit limit then to_answer (list_dead_letters limit offset db) else refused 422

abbrev pub to_requeued : (job_id : ℕ) → RequeueReply → Answer ℕ
to_requeued job_id requeued = answer 202 job_id
to_requeued job_id not_dead_lettered = refused 404
to_requeued job_id (failed e) = exception e

-- `requeue_dead_letter`; `extra_attempts` is `Query(ge=1, le=20)`.
unfoldable pub requeue_route :
    Settings
    → Link
    → (now job_id : ℕ) (extra_attempts : Option ℕ) → Store JobOut
    → Db
    → Answer ℕ × (Store JobOut × Db)
requeue_route s link now job_id extra_attempts cache db =
    let run = requeue link now job_id (extra_or_default extra_attempts s.max_attempts) cache db in
    if within 1 20 extra_attempts
    then (to_requeued job_id run.0, run.1)
    else (refused 422, (cache, db))

-- The JSON body of a POST to the mock receiver: one with the three keys of an event, or another.
pub data Body : Type 0 where
  event : EventPayload → Body
  other : Body

abbrev pub on_receipt : Bool × List Receipt → Answer Bool × List Receipt
on_receipt (first_time, receipts) = (answer 200 first_time, receipts)

-- `receive_webhook`: `outage` says that `random() < mock_webhook_failure_rate`. The answer says whether the
-- event came for the first time.
unfoldable pub receive_webhook :
    (outage : Bool) (now : ℕ) → Body → List Receipt → Answer Bool × List Receipt
receive_webhook true now body receipts = (refused 503, receipts)
receive_webhook false now other receipts = (refused 422, receipts)
receive_webhook false now (event payload) receipts =
    on_receipt (record_receipt now payload receipts)

-- `list_webhooks`
unfoldable pub list_webhooks :
    (job_id : Option ℕ) (limit : ℕ) → List Receipt → Answer (List Receipt)
list_webhooks job_id limit receipts =
    if is_page_limit limit then answer 200 (list_receipts job_id limit receipts) else refused 422

-- The state of Redis that `healthz` reports, once Postgres has answered.
pub data RedisState : Type 0 where
  disabled reachable unavailable : RedisState

unfoldable pub healthz : Settings → Link → RedisState
healthz s link =
    if s.cache_enabled
    then (elim link [ answered ↦ reachable | lost ↦ unavailable | down ↦ unavailable ])
    else disabled
