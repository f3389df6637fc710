-- ===== src/Services/Scheduler.antt =====
-- src/notify_queue/services/scheduler.py: scheduling and lookup, over Postgres and the cache; and the route
-- that schedules, of api/routes/jobs.py.
use notify_queue.Prelude.{
  ℕ, ◌+◌, ◌*◌, ◌&&◌, String, Bool, true, false, not, Option, none, some, List, [], map, ltb, str_eq,
  if◌then◌else◌,
}
use notify_queue.Domain.{Job, NewJob, JobAttempt}
use notify_queue.Domain.Schemas.{ScheduleJobRequest, JobOut, from_domain, from_attempt}
use notify_queue.Settings.{Settings}
use notify_queue.Tables.{Db, Uuids}
use notify_queue.Tables.Tx.{Error, Result, ok, raise}
use notify_queue.Jobs.Create.{create_job, get_job, get_job_attempts}
use notify_queue.Cache.{Link, Store, KeyStore, put, get, get_idempotency, put_idempotency}
use notify_queue.Services.DeadLetters.{extra_or_default}

-- In microseconds.
abbrev pub send_at_grace : ℕ
send_at_grace = 5 * 1000000

-- What a request works on: the tables, and what Redis holds for jobs and for idempotency keys.
pub record Shared : Type 0 where
  pub db : Db
  pub cache : Store JobOut
  pub keys : KeyStore

-- What a request meets: the clocks of the process and of the database, and how each call of Redis ends.
pub record Visit : Type 0 where
  pub clock : ℕ
  pub now : ℕ
  pub read_key : Link
  pub read_job : Link
  pub write_key : Link
  pub write_job : Link

pub data ScheduleReply : Type 0 where
  scheduled : (job : JobOut) (created : Bool) → ScheduleReply
  invalid_schedule : ScheduleReply
  idempotency_conflict : (job_id : ℕ) → ScheduleReply
  failed : Error → ScheduleReply

-- `JobCache.put`
abbrev pub put_out : Link → JobOut → Shared → Shared
put_out link out s = record s { cache = (put JobOut link out.id out.version out s.cache).1 }

-- `get` once the cache has missed.
abbrev pub on_found : Visit → Shared → Result (Option Job × Db) → Option JobOut × Shared
on_found v s (ok (some job, db)) = (some (from_domain job), put_out v.write_job (from_domain job) s)
on_found v s (ok (none, db)) = (none, s)
on_found v s (raise e) = (none, s)

-- `JobService.get`. The cache is asked unless the attempts are wanted; the entry that is put has none.
unfoldable pub get_out : Visit → (job_id : ℕ) → Shared → Option JobOut × Shared
get_out v job_id s = elim (get JobOut v.read_job job_id s.cache) [
  | some out ↦ (some out, s)
  | none ↦ on_found v s (get_job job_id s.db)
]

abbrev pub attempts_of : Result (List JobAttempt × Db) → List JobAttempt
attempts_of (ok (attempts, db)) = attempts
attempts_of (raise e) = []

abbrev pub add_attempts : List JobAttempt → Option JobOut → Option JobOut
add_attempts attempts none = none
add_attempts attempts (some out) =
    some (record out { attempt_history = some (map from_attempt attempts) })

unfoldable pub get_with_attempts : Visit → (job_id : ℕ) → Shared → Option JobOut × Shared
get_with_attempts v job_id s =
    let found = on_found v s (get_job job_id s.db) in
    (add_attempts (attempts_of (get_job_attempts job_id s.db)) found.0, found.1)

abbrev pub new_job : Settings → String → ScheduleJobRequest → NewJob
new_job settings request_hash r = record {
  recipient = r.recipient;
  channel = r.channel;
  payload = r.payload;
  priority = r.priority;
  max_attempts = extra_or_default r.max_attempts settings.max_attempts;
  request_hash = request_hash;
  idempotency_key = r.idempotency_key;
  send_at = r.send_at;
  delay_seconds = r.delay_seconds;
  callback_url = r.callback_url;
}

-- `if key is not None: put_idempotency(...)`
abbrev pub remember : Visit → Option String → Job → Shared → Shared
remember v none job s = s
remember v (some key) job s = record s {
  keys = put_idempotency v.write_key key job.id job.request_hash s.keys;
}

-- What follows the transaction that creates the job.
abbrev pub on_created :
    Visit
    → (key : Option String) (request_hash : String) → Shared
    → Result ((Job × Bool) × Db)
    → ScheduleReply × Shared
on_created v key request_hash s (raise e) = (failed e, s)
on_created v key request_hash s (ok ((job, created), db)) =
    let out = from_domain job in
    let stored : Shared = record s { db = db } in
    if not created && not (str_eq job.request_hash request_hash)
    then (idempotency_conflict job.id, stored)
    else (scheduled out created, put_out v.write_job out (remember v key job stored))

unfoldable pub insert :
    Uuids
    → Settings
    → Visit
    → (request_hash : String) → ScheduleJobRequest
    → Shared
    → ScheduleReply × Shared
insert u settings v request_hash r s =
    on_created v r.idempotency_key request_hash s
      (create_job u v.now (new_job settings request_hash r) s.db)

-- The fast path, at what the cache knows of the key: the reply, if it is one.
abbrev pub on_known :
    Visit → (request_hash : String) → Shared → Option (ℕ × String) → Option ScheduleReply × Shared
on_known v request_hash s none = (none, s)
on_known v request_hash s (some (job_id, cached_hash)) =
    let existing = get_out v job_id s in
    if not (str_eq cached_hash request_hash)
    then (some (idempotency_conflict job_id), s)
    else (elim existing.0 [ none ↦ none | some out ↦ some (scheduled out false) ], existing.1)

abbrev pub known_key : Visit → Option String → Shared → Option (ℕ × String)
known_key v none s = none
known_key v (some key) s = get_idempotency v.read_key key s.keys

abbrev pub is_past : ℕ → Option ℕ → Bool
is_past clock none = false
is_past clock (some send_at) = ltb (send_at + send_at_grace) clock

-- What follows the fast path: its reply, or the insert.
abbrev pub after_fast :
    Uuids
    → Settings
    → Visit
    → (request_hash : String) → ScheduleJobRequest
    → Option ScheduleReply × Shared
    → ScheduleReply × Shared
after_fast u settings v request_hash r (some reply, s) = (reply, s)
after_fast u settings v request_hash r (none, s) = insert u settings v request_hash r s

-- `JobService.schedule`. `request_hash` is `request.request_hash()`, a SHA-256 of the body.
unfoldable pub schedule :
    Uuids
    → Settings
    → Visit
    → (request_hash : String) → ScheduleJobRequest
    → Shared
    → ScheduleReply × Shared
schedule u settings v request_hash r s =
    let fast = on_known v request_hash s (known_key v r.idempotency_key s) in
    if is_past v.clock r.send_at
    then (invalid_schedule, s)
    else after_fast u settings v request_hash r fast

-- What the HTTP API answers.
pub data HttpReply : Type 0 where
  replied : (status : ℕ) (job : JobOut) → HttpReply
  error : (status : ℕ) → HttpReply
  exception : Error → HttpReply

abbrev pub to_http : ScheduleReply → HttpReply
to_http (scheduled job true) = replied 201 job
to_http (scheduled job false) = replied 200 job
to_http invalid_schedule = error 422
to_http (idempotency_conflict job_id) = error 409
to_http (failed e) = exception e

-- Whether the header and the body name different keys.
abbrev pub keys_differ : String → Option String → Bool
keys_differ header none = false
keys_differ header (some key) = not (str_eq key header)

-- The route `schedule_job`, for a body that was validated. `hash` is `request_hash`, which leaves the key
-- out.
unfoldable pub schedule_route :
    Uuids
    → Settings
    → (hash : ScheduleJobRequest → String) → Visit
    → (header : Option String) → ScheduleJobRequest
    → Shared
    → HttpReply × Shared
schedule_route u settings hash v none body s =
    let done = schedule u settings v (hash body) body s in (to_http done.0, done.1)
schedule_route u settings hash v (some header) body s =
    let keyed : ScheduleJobRequest = record body { idempotency_key = some header } in
    let done = schedule u settings v (hash keyed) keyed s in
    if keys_differ header body.idempotency_key then (error 422, s) else (to_http done.0, done.1)
