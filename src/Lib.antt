-- ===== src/Lib.antt =====
-- Notify Queue: scheduled notifications (email, SMS, push) that are delivered once, from a queue in
-- Postgres.
--
-- Clients schedule jobs; workers claim the jobs that are due, send them and record the outcome; a reaper
-- takes back the jobs whose lease has run out; operators requeue dead letters. All of that is
-- transactions on the tables of migrations/versions/0001_initial.py, written in
-- src/notify_queue/repositories/jobs.py, and that module is the core of what is modelled:
--
--   Prelude      lists as tables (select, update_where, count_where, sort_by), Boolean tests, numbers
--   Domain       src/notify_queue/domain/enums.py and models.py; Domain.Priorities: the parsing of a
--                priority; Domain.Schemas: schemas.py; Domain.Backoff: backoff.py
--   Tables       the rows and the database; Tables.Tx: a transaction, which returns a value and the new
--                database or raises an error and is rolled back; Tables.Find: rows by their key
--   Jobs         repositories/jobs.py: Create (create_job and the lookups), Claim (claim_due_jobs),
--                Finalize (mark_sent, mark_failed, return_to_queue; Finalize.Bookkeeping), Reap
--                (reap_expired_leases, requeue_dead_letter), RateLimit, Reports
--   Invariant    what is true of the tables between two transactions, and what each operation does
--   Selection    the rows that WHERE, ORDER BY and LIMIT pick
--   Claims, Limits, Reports   what callers of the claims, the Postgres limiter and the counts get
--   Outbox       repositories/webhooks.py, with the lease of a claimed event (Outbox.Leases) and the
--                receiver that stands in for clients (Outbox.Receipts)
--   RateLimiter  services/rate_limiter.py: the sliding window of the Lua script, its bound with hand-backs
--                (RateLimiter.Calls, Window), and the fallback to Postgres
--   Cache        cache/job_cache.py over cache/client.py: versioned entries and tombstones of jobs;
--                Cache.Freshness: what a reader may see; Cache.Text: the same as texts on one keyspace; Cache.Keys,
--                Keyspace, Traffic: that the texts are the entries
--   History      transactions in any order (Step, Reach) and what holds after any of them
--   Settings, Senders   config.py as far as it is read; senders/base.py and the mock provider, with its log
--                (Senders.Provider)
--   Worker       worker/loop.py and common.py: what a delivery is about to do (Phase), the world it works on;
--                Worker.Delivery: its segments (advance), and run_batch; Worker.Accounting and
--                Worker.Termination: that it ends
--   Reaper, Dispatcher   worker/reaper.py and worker/webhook_dispatcher.py, one pass each; Reaper.Progress,
--                Dispatcher.Outcomes: what a pass does; Exchange, Callbacks: the dispatchers with the receiver,
--                turn by turn, with the lemmas by transaction (Postings, Marks) and by turn
--                (Receiving, Recording)
--   Polling, Process   the tasks of a worker process and their turns, of worker/main.py and the loops of
--                worker/*.py (take_turn, run_turns); Process.Remaining, Stopping, Shutdown: its end after the stop
--                event; Process.Counters, Claimed: the deliveries of what it claimed
--   Services     services/scheduler.py and dead_letters.py with the routes over them; Services.Coherence,
--                Replay, Creation, Posts: what a request is answered; Services.Readers, Currency: the job cache while
--                the tables change; Services.Routes: the other routes of api/routes; Requeueing: how a
--                requeue ends; Services.Metrics: services/metrics.py over
--                cache/metrics_cache.py; Services.Snapshots: what its clients get
--   Fleet        all of them together: an event is one segment of one process (handle, run_events), with the
--                lemmas by event (Paths, Segments, Events, Starts, Sending, Backed); Delivered, Refinement, Lease and
--                Healthy: what holds of its runs
--   Examples     small runs
--
-- Correspondence. A function of jobs.py is the definition of its name, with the connection's state as the
-- database argument of Tx, `now()` as an argument, and a SQL statement as its parts: the rows it hits, its
-- SET clause, the row it inserts. A transaction is atomic: workers, reapers and API processes interleave
-- between transactions. The rows that another transaction holds locked, which FOR UPDATE SKIP LOCKED
-- leaves out, are an argument (`locked`), and no theorem restricts it. Random uuids are a parameter
-- (Uuids), and IsFresh says that none comes up twice; Examples.Runs has one instance. Times and
-- intervals are numbers of microseconds, `run_at` and the lease included (those of Redis are
-- milliseconds), and have no bound. Strings are compared as they are. No recursion has fuel: all of it
-- is on lists.
--
-- A history (History.Reach) is made of the transactions of the two repositories, in any order and number;
-- a requeue in it allows at least one more attempt.
--
-- A delivery (worker/loop.py, _deliver) is cut at its awaits: a segment meets a Moment, which says what the
-- clocks show, how the calls of Redis and of the provider end, and what the random generators draw. Between
-- two segments anything may happen. An exception ends the delivery, as _process does; a crash ends it
-- without a trace. The provider is senders/mock.py; a send that times out may have reached it. The HTTP
-- client, the request hash and the writing of integers are parameters.
--
-- A cache operation is atomic, and is answered, lost on the way back, or not done (Link). A cached job
-- belongs to the version of the row that History.Versions is about.
--
-- A worker process is a list of tasks, each of which waits at an await; the event loop gives the turns in any
-- order, a turn is told the time, and a sleep ends when its time has come or the stop event is set. No turn
-- is fair: that a process comes to its end says that no sequence of turns goes on for ever (Acc).
--
-- Not modelled: the set-up of connections, signal handlers and command lines; how long cache entries
-- live; the text of the metrics entry; the parsing of requests and settings, which is pydantic's; the
-- route of the metrics, which passes its call on; seeds; foreign keys and indexes; errors of the
-- connection; the priority's CHECK, which the type meets.
mod Prelude
pub mod Domain
pub mod Tables
pub mod Settings
pub mod Senders
pub mod Jobs
pub mod Invariant
pub mod Selection
pub mod Claims
pub mod Reports
pub mod Limits
pub mod RateLimiter
pub mod Cache
pub mod Outbox
pub mod Worker
pub mod Reaper
pub mod Dispatcher
pub mod Polling
pub mod Process
pub mod Services
pub mod Fleet
pub mod History
mod Examples
