-- ===== src/RateLimiter/Calls.antt =====
-- Calls of the Redis limiter, one after the other, with what the jobs are charged for by its answers.
use notify_queue.Prelude.{
  ℕ, ◌+◌, ◌≤◌, Bool, true, false, ◌||◌, not, ◌&&◌, List, [], ◌∷◌, ◌++◌, length, leb, ltb, ◌==◌,
  if◌then◌else◌, select, exists_where,
}
use notify_queue.RateLimiter.{
  Slot, Answer, admitted, wait, script_error, is_live, acquire_script, release,
}

-- A call of the limiter: the clock, and the job.
pub record Request : Type 0 where
  pub now : ℕ
  pub job_id : ℕ

abbrev pub slot_of : Request → Slot
slot_of r = record { job_id = r.job_id; taken = r.now }

-- A run of the script, or a hand-back.
pub data Call : Type 0 where
  acquires : Request → Call
  releases : (job_id : ℕ) → Call

-- Whether a hand-back removes the slot: it is the job's, and the last run of the script left it.
abbrev pub is_returned : (last window job_id : ℕ) → Slot → Bool
is_returned last window job_id s = (s.job_id == job_id) && is_live last window s

abbrev pub is_admitted : Answer → Bool
is_admitted admitted = true
is_admitted (wait ms) = false
is_admitted script_error = false

-- The script admits a job that holds no slot taken within the last window: it is charged for a new one.
abbrev pub charges : (window limit : ℕ) → Request → (past slots : List Slot) → Bool
charges window limit r past slots =
    not (exists_where (λ s. s.job_id == r.job_id) (select (is_live r.now window) past))
    && is_admitted (acquire_script r.now window limit r.job_id slots).0

-- The slots that the jobs are charged for and have not handed back, after the calls, by the answers of the
-- script: `past` are those of before, and `slots` those that Redis holds.
unfoldable pub charged :
    (window limit : ℕ) → List Call → (last : ℕ) (past slots : List Slot) → List Slot
charged window limit [] last past slots = past
charged window limit (acquires r ∷ cs) last past slots =
    charged window limit cs r.now
      (if charges window limit r past slots then past ++ slot_of r ∷ [] else past)
      (acquire_script r.now window limit r.job_id slots).1
charged window limit (releases job_id ∷ cs) last past slots =
    charged window limit cs last (select (λ s. not (is_returned last window job_id s)) past)
      (release job_id slots)

-- Whether some call is refused while fewer than `limit` of the charges are within the last window.
unfoldable pub refuses_early :
    (window limit : ℕ) → List Call → (last : ℕ) (past slots : List Slot) → Bool
refuses_early window limit [] last past slots = false
refuses_early window limit (acquires r ∷ cs) last past slots =
    (not (is_admitted (acquire_script r.now window limit r.job_id slots).0)
      && ltb (length (select (is_live r.now window) past)) limit)
    || refuses_early window limit cs r.now
        (if charges window limit r past slots then past ++ slot_of r ∷ [] else past)
        (acquire_script r.now window limit r.job_id slots).1
refuses_early window limit (releases job_id ∷ cs) last past slots =
    refuses_early window limit cs last (select (λ s. not (is_returned last window job_id s)) past)
      (release job_id slots)

-- The clock does not run backwards.
abbrev pub IsForward : ℕ → List Call → Type 0
IsForward last [] = Unit {0}
IsForward last (acquires r ∷ cs) = (last ≤ r.now) × IsForward r.now cs
IsForward last (releases job_id ∷ cs) = IsForward last cs

-- The slots taken in the window that ends at t.
abbrev pub within : (t window : ℕ) → Slot → Bool
within t window s = leb s.taken t && ltb t (s.taken + window)
