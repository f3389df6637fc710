-- ===== src/Examples/Operations.antt =====
-- The theorems on single operations, applied to the life of one job.
use notify_queue.Prelude.{
  ℕ, ◌-◌, ◌/◌, ◌≤◌, ◌≡◌, ◌≢◌, String, true, false, not, ◌||◌, leb, none, some, List, [], ◌∷◌, map,
  arith, length, min, select, update_where, count_where, elem,
}
use notify_queue.Domain.{Job, is_pending}
use notify_queue.Domain.Backoff.{Uniform, doubled, backoff_delay, backoff-within}
use notify_queue.Tables.{Db, find, empty_db}
use notify_queue.Tables.Tx.{ok}
use notify_queue.Jobs.Create.{create_job, has_key}
use notify_queue.Jobs.Claim.{before, is_due, claim_due_jobs}
use notify_queue.Jobs.Finalize.{
  transition, set_sent, set_failed, set_returned, mark_sent, mark_failed, return_to_queue,
}
use notify_queue.Jobs.Reap.{
  in_expired, set_reaped, set_requeued, reap_expired_leases, requeue_dead_letter,
}
use notify_queue.Invariant.{IsValid, lettered}
use notify_queue.Invariant.Recording.{SameRows}
use notify_queue.Invariant.Held.{Ended}
use notify_queue.Invariant.Finalize.{mark_sent-held, mark_failed-held, return_to_queue-held}
use notify_queue.Invariant.Create.{create-replay}
use notify_queue.Invariant.Reap.{reap-ok}
use notify_queue.Invariant.Requeue.{requeue-dead}
use notify_queue.Selection.Order.{All, IsSorted}
use notify_queue.Claims.{IsClaimed, claim-batch, claim-fair, claims-disjoint}
use notify_queue.Limits.Buckets.{used}
use notify_queue.Limits.{Call, admitted, is_for, admitted_lem}
use notify_queue.Examples.Runs.{
  numbered, numbered-IsFresh, request, unlocked, created, running, running_again, reaped_db, token,
  second_token, job_of, to_created, to_running, to_running_again, to_reaped, reached-IsValid,
}
use notify_queue.Examples.Facts.{facts, tests, answers, queued, second_job, to_queued}

mark_sent-held_example :
    (db' : Db) × (mark_sent numbered 30 0 token "w1" none "url" running
      ≡ ok (some (transition (set_sent 30 (job_of running))), db'))
    × Ended numbered running db' 0 (set_sent 30 (job_of running)) true false
mark_sent-held_example =
    mark_sent-held numbered (reached-IsValid to_running) 0 token 30 numbered-IsFresh facts.0 "w1"
      "url" none

mark_failed-held_example :
    let j' = set_failed 150 "timeout" 5 false (job_of running_again) in
    let over = false || leb (job_of running_again).max_attempts (job_of running_again).attempts in
    (db' : Db) × (mark_failed numbered 150 0 second_token "w2" "timeout" 5 false "url" running_again
      ≡ ok (some (transition j'), db'))
    × Ended numbered running_again db' 0 j' false over
    × (is_pending j'.status ≡ not over)
mark_failed-held_example =
    mark_failed-held numbered (reached-IsValid to_running_again) 0 second_token 150 numbered-IsFresh
      facts.1 "w2" "timeout" "url" 5 false

return_to_queue-held_example :
    let j' = set_returned 30 60 (job_of running) in
    (db' : Db) × (return_to_queue 30 0 token 60 running ≡ ok (some (transition j'), db'))
    × IsValid numbered db'
    × (find 0 db'.jobs ≡ some j')
    × ((i : ℕ) → 0 ≢ i → find i db'.jobs ≡ find i running.jobs)
    × ((i : ℕ) → SameRows running db' i)
    × (db'.draws ≡ running.draws)
return_to_queue-held_example =
    return_to_queue-held numbered (reached-IsValid to_running) 0 token 30 numbered-IsFresh facts.0
      60

create-replay_example :
    (k : String) × (j : Job) × (request.idempotency_key ≡ some k)
    × (create_job numbered 15 request created ≡ ok ((j, false), created))
    × (has_key k j ≡ true)
create-replay_example = create-replay numbered 15 request created (omega arith) tests.1

reap-ok_example :
    let hit = in_expired unlocked 200 10 running_again.jobs in
    (db' : Db) × (reap_expired_leases numbered unlocked 200 10 "url" running_again
      ≡ ok (map (λ j. transition (set_reaped 200 j)) (select hit running_again.jobs), db'))
    × IsValid numbered db'
    × (db'.jobs ≡ update_where hit (set_reaped 200) running_again.jobs)
    × ((i : ℕ)
        → ((j : Job) → find i running_again.jobs ≡ some j → hit j ≡ false)
        → SameRows running_again db' i)
    × (running_again.draws ≤ db'.draws)
reap-ok_example =
    reap-ok numbered numbered-IsFresh 200 "url" (reached-IsValid to_running_again) unlocked 10

requeue-dead_example :
    (db' : Db) × (requeue_dead_letter 300 0 1 reaped_db
      ≡ ok (some (transition (set_requeued 300 1 (job_of reaped_db))), db'))
    × IsValid numbered db'
    × (find 0 db'.jobs ≡ some (set_requeued 300 1 (job_of reaped_db)))
    × (lettered db' 0 ≡ 0)
    × ((i : ℕ) → 0 ≢ i → (find i db'.jobs ≡ find i reaped_db.jobs) × SameRows reaped_db db' i)
    × (db'.draws ≡ reaped_db.draws)
requeue-dead_example =
    requeue-dead numbered (reached-IsValid to_reaped) 0 300 1 facts.6 (omega arith)

claim-batch_example :
    (js : List Job) × (db' : Db) × (claim_due_jobs numbered unlocked 20 "w1" 5 100 created
      ≡ ok (js, db'))
    × (length js ≤ 5)
    × IsSorted before js
    × All (IsClaimed numbered created.draws db') js
claim-batch_example =
    claim-batch numbered numbered-IsFresh (reached-IsValid to_created) unlocked 20 "w1" 5 100

claims-disjoint_example : All (λ j. elem j.id [] ≡ false) (job_of running ∷ [])
claims-disjoint_example =
    claims-disjoint numbered numbered-IsFresh (job_of running ∷ []) [] (reached-IsValid to_created)
      unlocked unlocked 20 25 "w1" "w2" 5 5 100 100 answers.2 answers.3

claim-fair_example :
    (is_due unlocked 20 (job_of queued) ≡ true) × (before (job_of queued) second_job ≡ true)
claim-fair_example =
    claim-fair numbered numbered-IsFresh (reached-IsValid to_queued.0) unlocked 20 "w1" 1 100 0 1
      to_queued.1 to_queued.2 to_queued.3 to_queued.4 to_queued.5

abbrev calls : List Call
calls =
    (record { now = 3; recipient = "ada@example.org" })
    ∷ (record { now = 8; recipient = "ada@example.org" })
    ∷ (record { now = 9; recipient = "bob@example.org" })
    ∷ []

admitted_lem_example :
    admitted "ada@example.org" 0 1 10 calls empty_db
    ≡ min
        (1 - used "ada@example.org" 0 empty_db.rate_limit_buckets)
        (count_where (is_for "ada@example.org" 0 10) calls)
admitted_lem_example =
    admitted_lem "ada@example.org" 0 1 10 (omega arith) (omega arith) calls empty_db tests.8

abbrev lowest : Uniform
lowest = record { uniform = λ hi. 0; uniform-le = λ hi. omega arith }

backoff-within_example :
    (delay : ℕ) × (later : ℕ) × (backoff_delay lowest 3 1000 60000 ≡ some delay)
    × (backoff_delay lowest 4 1000 60000 ≡ some later)
    × (doubled 2 1000 60000 / 2 ≤ delay)
    × (delay ≤ doubled 2 1000 60000)
    × (doubled 3 1000 60000 / 2 ≤ later)
    × (later ≤ doubled 3 1000 60000)
    × (min delay (60000 / 2) ≤ later)
    × (later ≤ 60000)
    × (backoff_delay lowest 0 1000 60000 ≡ none)
    × (backoff_delay lowest 1028 1000 60000 ≡ none)
backoff-within_example = backoff-within lowest lowest 2 3 1000 60000 (omega arith)
