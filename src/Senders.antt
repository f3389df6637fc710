-- ===== src/Senders.antt =====
-- src/notify_queue/senders/base.py and mock.py: what a sender answers, and the stub provider with its own
-- log (mock_provider_log of migrations/versions/0001_initial.py and 0002).
pub mod Provider
use notify_queue.Prelude.{
  ℕ, ◌+◌, String, Bool, true, false, Option, none, some, List, [], ◌∷◌, ◌++◌, ltb, ◌==◌,
  if◌then◌else◌, str_eq, str_append, first, select, update_where,
}
use notify_queue.Domain.{Job, Channel}
use notify_queue.Domain.Json.{Json, Fields, get_field}

pub record SendResult : Type 0 where
  pub provider_message_id : String
  pub deduplicated : Bool

-- How a call of `send` ends: a result, or one of the exceptions that the caller tells apart, with
-- `str(exc)`; `failed` is any other exception, with its class name.
pub data SendReply : Type 0 where
  replied : SendResult → SendReply
  permanent_delivery_error : String → SendReply
  delivery_error : String → SendReply
  failed : (name : String) (message : String) → SendReply

-- A row of `mock_provider_log`. The key is `str(job.id)`, for which the id stands.
pub record ProviderRow : Type 0 where
  pub id : ℕ
  pub provider_idempotency_key : ℕ
  pub job_id : ℕ
  pub channel : Channel
  pub recipient : String
  pub received_at : ℕ
  pub duplicate_requests : ℕ

abbrev pub has_provider_key : ℕ → ProviderRow → Bool
has_provider_key key row = row.provider_idempotency_key == key

-- `SET duplicate_requests = duplicate_requests + 1`
abbrev pub set_duplicate : ProviderRow → ProviderRow
set_duplicate row = record row { duplicate_requests = row.duplicate_requests + 1 }

-- The row of a first request. Its number is the next of a sequence.
abbrev pub provider_row : (serial now : ℕ) → Job → ProviderRow
provider_row serial now job = record {
  id = serial;
  provider_idempotency_key = job.id;
  job_id = job.id;
  channel = job.channel;
  recipient = job.recipient;
  received_at = now;
  duplicate_requests = 0;
}

-- `_RECORD`: RETURNING id, deduplicated.
unfoldable pub record_send :
    (serial now : ℕ) → Job → List ProviderRow → (ℕ × Bool) × List ProviderRow
record_send serial now job log = elim (first (select (has_provider_key job.id) log)) [
  | some row ↦ (
    (row.id, ltb 0 (row.duplicate_requests + 1)),
    update_where (has_provider_key job.id) set_duplicate log,
  )
  | none ↦ ((serial, false), log ++ provider_row serial now job ∷ [])
]

-- `simulate == text` for a value of the payload.
abbrev pub is_text : String → Option Json → Bool
is_text t (some (Json.str s)) = str_eq s t
is_text t _ = false

-- `MockSender.send`. `fails` is whether the draw falls below the failure rate, and `decimal` how the
-- language writes an integer; the sleep before is time that passes.
unfoldable pub mock_send :
    (decimal : ℕ → String) (fails : Bool) (serial now : ℕ)
    → Job
    → List ProviderRow
    → SendReply × List ProviderRow
mock_send decimal fails serial now job log =
    let simulate = get_field "simulate" job.payload in
    let recorded = record_send serial now job log in
    let result : SendResult = record {
      provider_message_id = str_append "mock-" (decimal recorded.0.0);
      deduplicated = recorded.0.1;
    } in
    let rejected : String =
      str_append "recipient " (str_append job.recipient " rejected by provider") in
    if is_text "poison" simulate
    then (failed "ValueError" "unparseable payload", log)
    else (if is_text "permanent_failure" simulate
        then (permanent_delivery_error rejected, log)
        else (if fails
            then (delivery_error "simulated provider failure (503)", log)
            else (replied result, recorded.1)))
