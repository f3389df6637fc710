-- ===== src/Examples/Histories.antt =====
-- The theorems on histories, applied to the life of one job.
use notify_queue.Prelude.{
  ℕ, ◌≤◌, ◌≡◌, ◌↔◌, ◌⊎◌, refl, String, Bool, false, ◌&&◌, none, some, [], ◌∷◌, leb, arith,
}
use notify_queue.Domain.{Job, JobStatus}
use notify_queue.Tables.{find}
use notify_queue.Tables.Tx.{ok}
use notify_queue.Jobs.Create.{create_job}
use notify_queue.Jobs.Finalize.{transition, set_sent, mark_sent, mark_failed, return_to_queue}
use notify_queue.Jobs.Reap.{set_reaped}
use notify_queue.Invariant.{IsValid, delivered, lettered, tries, events, tried, finished}
use notify_queue.History.{here, next}
use notify_queue.History.Safety.{
  Reach-IsValid, empty-IsValid, delivered-once, lettered-once, history-exact,
}
use notify_queue.History.Fencing.{stale_worker_fenced}
use notify_queue.History.Endings.{sent_once, reaped_worker_fenced}
use notify_queue.History.Lifecycle.{◌⟶◌, Step-lifecycle}
use notify_queue.History.Versions.{Reach-version}
use notify_queue.History.Idempotence.{create-replays}
use notify_queue.Examples.Runs.{
  numbered, numbered-IsFresh, request, unlocked, created, running, delivered_db, running_again,
  reaped_db, requeued_db, token, second_token, job_of, to_created, to_running, to_delivered,
  to_running_again, to_reaped, reclaiming, reaping, requeuing, claiming, reached-IsValid,
}
use notify_queue.Examples.Facts.{facts, tests, answers}

Reach-IsValid_example : IsValid numbered running_again
Reach-IsValid_example =
    Reach-IsValid numbered numbered-IsFresh (empty-IsValid numbered) to_running_again

delivered-once_example :
    (delivered delivered_db 0 ≤ 1)
    × ((delivered delivered_db 0 ≡ 1)
        ↔ ((j : Job) × (find 0 delivered_db.jobs ≡ some j) × (j.status ≡ JobStatus.sent)))
delivered-once_example = delivered-once numbered numbered-IsFresh to_delivered 0

lettered-once_example :
    (lettered reaped_db 0 ≤ 1)
    × ((lettered reaped_db 0 ≡ 1)
        ↔ ((j : Job) × (find 0 reaped_db.jobs ≡ some j) × (j.status ≡ JobStatus.dead_lettered)))
lettered-once_example = lettered-once numbered numbered-IsFresh to_reaped 0

history-exact_example :
    let j = job_of running_again in
    ((n : ℕ) → tried running_again 0 n ≡ (leb 1 n && leb n (finished j)))
    × (tries running_again 0 ≡ finished j)
    × (events running_again 0 ≡ finished j)
    × (j.attempts ≤ j.max_attempts)
history-exact_example =
    history-exact numbered numbered-IsFresh to_running_again 0 (job_of running_again) facts.7

stale_worker_fenced_example :
    (mark_sent numbered 90 0 token "w1" none "url" requeued_db ≡ ok (none, requeued_db))
    × (mark_failed numbered 90 0 token "w1" "late" 5 false "url" requeued_db
        ≡ ok (none, requeued_db))
    × (return_to_queue 90 0 token 5 requeued_db ≡ ok (none, requeued_db))
stale_worker_fenced_example =
    stale_worker_fenced numbered numbered-IsFresh 0 1 (reached-IsValid to_running_again) tests.5
      facts.2 reaping 90 "w1" "late" "url" none 5 false

sent_once_example :
    (some (transition (set_sent 30 (job_of running)))
      ≡ some (transition (set_sent 30 (job_of running))))
    × (find 0 delivered_db.jobs ≡ some (set_sent 30 (job_of running)))
    × (delivered delivered_db 0 ≡ 1)
    × ((later : ℕ) (error : String) (delay : ℕ) (permanent : Bool)
        → (mark_sent numbered later 0 token "w1" (some "m-1") "url" delivered_db
            ≡ ok (none, delivered_db))
          × (mark_failed numbered later 0 token "w1" error delay permanent "url" delivered_db
              ≡ ok (none, delivered_db))
          × (return_to_queue later 0 token delay delivered_db ≡ ok (none, delivered_db)))
sent_once_example =
    sent_once numbered numbered-IsFresh (reached-IsValid to_running) 0 1 facts.0 30 "w1" "url"
      (some "m-1") (some (transition (set_sent 30 (job_of running)))) answers.0 here

reaped_worker_fenced_example :
    (find 0 reaped_db.jobs ≡ some (set_reaped 200 (job_of running_again)))
    × (mark_sent numbered 400 0 second_token "w2" none "url" requeued_db ≡ ok (none, requeued_db))
    × (mark_failed numbered 400 0 second_token "w2" "late" 5 false "url" requeued_db
        ≡ ok (none, requeued_db))
    × (return_to_queue 400 0 second_token 5 requeued_db ≡ ok (none, requeued_db))
reaped_worker_fenced_example =
    reaped_worker_fenced numbered numbered-IsFresh (reached-IsValid to_running_again) 0 3 facts.1
      unlocked 200 10 "url" (transition (set_reaped 200 (job_of running_again)) ∷ []) answers.1
      tests.3 requeuing 400 "w2" "late" none 5 false

Step-lifecycle_example :
    (j' : Job) × (find 0 running.jobs ≡ some j')
    × ((j' ≡ job_of created) ⊎ ((job_of created).status ⟶ j'.status))
Step-lifecycle_example =
    Step-lifecycle numbered numbered-IsFresh 0 (reached-IsValid to_created) claiming facts.5

Reach-version_example :
    (j' : Job) × (find 0 running_again.jobs ≡ some j')
    × ((job_of running).version ≤ j'.version)
    × (j'.version ≡ (job_of running).version → j' ≡ job_of running)
Reach-version_example =
    Reach-version numbered numbered-IsFresh 0 (job_of running) (reached-IsValid to_running) facts.4
      reclaiming

create-replays_example :
    (j' : Job) × (find 0 running.jobs ≡ some j')
    × (create_job numbered 50 request running ≡ ok ((j', false), running))
create-replays_example =
    create-replays numbered numbered-IsFresh 0 (job_of created) "k" (reached-IsValid to_created)
      facts.5 tests.6 (next here claiming) 50 request refl (omega arith)
