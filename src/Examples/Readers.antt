-- ===== src/Examples/Readers.antt =====
-- The theorems on the job cache and on requeues, applied to a reader that comes late and a dead letter.
use notify_queue.Prelude.{◌≤◌, ◌≡◌, ◌≢◌, refl, arith, none, some, [], ◌∷◌}
use notify_queue.Domain.{Job}
use notify_queue.Domain.Schemas.{JobOut, from_domain}
use notify_queue.Tables.{find}
use notify_queue.Cache.{answered, lost, down, put}
use notify_queue.Services.Scheduler.{Visit, get_out}
use notify_queue.Services.Readers.{Site, Run, commits, reads, puts, rests, goes_on}
use notify_queue.Services.DeadLetters.{extra_or_default}
use notify_queue.Services.Routes.{requeue_route}
use notify_queue.Services.Requeueing.{Ends, requeue_route-Ends}
use notify_queue.Examples.Workers.{settings}
use notify_queue.Services.Currency.{to_shared, cold, tombstoned, get_after_change}
use notify_queue.Examples.Runs.{
  numbered, numbered-IsFresh, created, running, job_of, to_created, claiming, reached-IsValid,
  reaped_db, to_reaped,
}
use notify_queue.Examples.Facts.{facts}

-- The row is read, the job is claimed, its entry becomes a tombstone, and then the row is put.
abbrev read_first : Site
read_first = record (cold created) { readers = job_of created ∷ [] }

abbrev changed : Site
changed = record read_first { db = running }

abbrev marked : Site
marked = tombstoned lost 0 (job_of running).version changed

abbrev put_late : Site
put_late = record marked {
  cache =
      (put JobOut answered (job_of created).id (job_of created).version
        (from_domain (job_of created)) marked.cache).1;
}

abbrev later : Visit
later = record {
  clock = 90;
  now = 90;
  read_key = answered;
  read_job = answered;
  write_key = answered;
  write_job = lost;
}

before : Run numbered none (cold created) changed
before =
    goes_on (goes_on rests (reads (cold created) 0 (job_of created) facts.5))
      (commits read_first claiming)

after : Run numbered (some 0) marked put_late
after = goes_on rests (puts marked answered 0 (job_of created) refl)

lost-up : lost ≢ down
lost-up = λ e. cc

get_after_change_example :
    (k : Job) × (out : JobOut) × (find 0 put_late.db.jobs ≡ some k)
    × ((get_out later 0 (to_shared put_late (λ key. none))).0 ≡ some out)
    × (out.id ≡ 0)
    × ((job_of running).version ≤ out.version)
    × (out.version ≤ k.version)
    × (out.version ≡ k.version → out ≡ from_domain k)
get_after_change_example =
    get_after_change numbered numbered-IsFresh created changed put_late 0 (job_of running) lost
      (reached-IsValid to_created) before facts.4 lost-up after later (λ key. none)

-- A dead-lettered job is requeued over HTTP, with the attempts of the settings.
requeue_route-Ends_example :
    Ends numbered
      (extra_or_default none settings.max_attempts)
      lost
      300
      0
      (λ i. none)
      reaped_db
      (requeue_route settings lost 300 0 none (λ i. none) reaped_db)
requeue_route-Ends_example =
    requeue_route-Ends numbered (reached-IsValid to_reaped) settings (omega arith) lost 300 0 none
      refl (λ i. none)
