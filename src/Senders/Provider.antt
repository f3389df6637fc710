-- ===== src/Senders/Provider.antt =====
-- The provider's log: one delivery for each idempotency key.
use notify_queue.Prelude.{
  ℕ, ◌+◌, ◌≤◌, ◌≡◌, refl, ap, Bool, false, none, some, List, [], ◌∷◌, ◌++◌, arith, ltb, ◌==◌,
  if◌then◌else◌, first, select, update_where, count_where, count_where-append, Option-cases, inl,
  inr,
}
use notify_queue.Domain.{Job}
use notify_queue.Senders.{ProviderRow, has_provider_key, set_duplicate, provider_row, record_send}

-- How many deliveries the provider has made for a job.
abbrev pub accepted : List ProviderRow → ℕ → ℕ
accepted log i = count_where (has_provider_key i) log

first-count :
    (i : ℕ) (log : List ProviderRow) {row : ProviderRow}
    → first (select (has_provider_key i) log) ≡ some row
    → 1 ≤ accepted log i
unfolding select count_where
first-count i [] h = cc
first-count i (r ∷ log) {row} h = ground (arith, first-count i log {row = row})

none-count :
    (i : ℕ) (log : List ProviderRow)
    → first (select (has_provider_key i) log) ≡ none
    → accepted log i ≡ 0
unfolding select count_where
none-count i [] h = refl
none-count i (r ∷ log) h = ground (arith, none-count i log)

update-accepted :
    (i : ℕ) (p : ProviderRow → Bool) (log : List ProviderRow)
    → accepted (update_where p set_duplicate log) i ≡ accepted log i
unfolding update_where count_where
update-accepted i p [] = refl
update-accepted i p (r ∷ log) = ground (arith, update-accepted i p log)

send-first :
    (serial now : ℕ) (job : Job) (log : List ProviderRow)
    → first (select (has_provider_key job.id) log) ≡ none
    → record_send serial now job log ≡ ((serial, false), log ++ provider_row serial now job ∷ [])
unfolding record_send
send-first serial now job log e = rw (e, record_send)

send-again :
    (serial now : ℕ) (job : Job) (log : List ProviderRow) (row : ProviderRow)
    → first (select (has_provider_key job.id) log) ≡ some row
    → record_send serial now job log ≡ (
      (row.id, ltb 0 (row.duplicate_requests + 1)),
      update_where (has_provider_key job.id) set_duplicate log,
    )
unfolding record_send
send-again serial now job log row e = rw (e, record_send)

-- A request for a job is a delivery exactly if there was none for it before, and is answered as a
-- duplicate otherwise; it is no delivery of any other job.
pub record_send-accepted :
    (serial now : ℕ) (job : Job) (log : List ProviderRow) (i : ℕ)
    → (accepted (record_send serial now job log).1 i ≡ (
        if job.id == i
        then (if accepted log i == 0 then 1 else accepted log i)
        else accepted log i))
      × ((record_send serial now job log).0.1 ≡ ltb 0 (accepted log job.id))
unfolding count_where
record_send-accepted serial now job log i =
    let same : job.id ≡ i → accepted log job.id ≡ accepted log i = ap (accepted log) in
    elim (Option-cases (first (select (has_provider_key job.id) log))) [
      | inl e ↦
          let zero_before = none-count job.id log e in
          let more =
            count_where-append (has_provider_key i) log (provider_row serial now job ∷ []) in
          rw (send-first serial now job log e)
            (ground (arith, zero_before, more, same), ground (arith, zero_before))
      | inr (row, e) ↦
          let some_before = first-count job.id log {row = row} e in
          let kept = update-accepted i (has_provider_key job.id) log in
          rw (send-again serial now job log row e)
            (ground (arith, some_before, kept, same), ground (arith, some_before))
    ]
