-- ===== src/Reports.antt =====
-- What the counts of `job_counts` and the pages of `list_dead_letters` say together.
use notify_queue.Prelude.{ℕ, ◌+◌, ◌≤◌, ◌≡◌, refl, List, [], ◌∷◌, arith, length, count_where}
use notify_queue.Domain.{Job, is_pending, is_processing, is_sent, is_dead}
use notify_queue.Tables.{Db}
use notify_queue.Tables.Tx.{ok}
use notify_queue.Jobs.Reports.{Counts, job_counts, is_pending_due, is_scheduled, has_failed_before}

-- Every job is counted under exactly one status.
all-counted :
    (js : List Job)
    → count_where (λ j. is_pending j.status) js
        + count_where (λ j. is_processing j.status) js
        + count_where (λ j. is_sent j.status) js
        + count_where (λ j. is_dead j.status) js
      ≡ length js
unfolding count_where
all-counted [] = refl
all-counted (j ∷ js) = ground (arith, all-counted js)

waiting-counted :
    (now : ℕ) (js : List Job)
    → (count_where (is_scheduled now) js + count_where has_failed_before js
        ≤ count_where (λ j. is_pending j.status) js)
      × (count_where (λ j. is_pending j.status) js
          ≤ count_where (is_pending_due now) js
            + count_where (is_scheduled now) js
            + count_where has_failed_before js)
unfolding count_where
waiting-counted now [] = (omega arith, omega arith)
waiting-counted now (j ∷ js) =
    (ground (arith, waiting-counted now js), ground (arith, waiting-counted now js))

-- The counts of the four statuses add up to the jobs of the table. Every pending job is counted as
-- due, scheduled or retrying, and none as both scheduled and retrying.
pub counts-partition :
    (now : ℕ) (db : Db)
    → (c : Counts) × (job_counts now db ≡ ok (c, db))
      × (c.pending + c.processing + c.sent + c.dead_lettered ≡ length db.jobs)
      × (c.scheduled + c.retrying ≤ c.pending)
      × (c.pending ≤ c.pending_due + c.scheduled + c.retrying)
unfolding job_counts
counts-partition now db =
    let (apart, cover) = waiting-counted now db.jobs in (_, refl, all-counted db.jobs, apart, cover)
