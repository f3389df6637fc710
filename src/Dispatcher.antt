-- ===== src/Dispatcher.antt =====
-- src/notify_queue/worker/webhook_dispatcher.py: one pass over the outbox, and what is recorded of a POST.
pub mod Outcomes
pub mod Postings
pub mod Marks
pub mod Exchange
pub mod Receiving
pub mod Recording
pub mod Callbacks
use notify_queue.Prelude.{
  ℕ, ◌*◌, String, Bool, true, false, ◌&&◌, Option, none, some, List, leb, if◌then◌else◌, str_append,
}
use notify_queue.Domain.Backoff.{Uniform, backoff_delay}
use notify_queue.Settings.{Settings}
use notify_queue.Tables.Tx.{Tx}
use notify_queue.Outbox.{OutboxEvent, claim_outbox_events, mark_delivered, mark_attempt_failed}

-- In microseconds.
abbrev pub webhook_backoff_base : ℕ
webhook_backoff_base = 1000000

abbrev pub webhook_backoff_cap : ℕ
webhook_backoff_cap = 300 * 1000000

-- How the POST ends: a status, an exception of the HTTP client, or another exception.
pub data Response : Type 0 where
  responded : (status_code : ℕ) → Response
  http_error : (name message : String) → Response
  other_error : Response

-- `response.is_success`, as HTTP defines the codes.
abbrev pub is_success : ℕ → Bool
is_success status_code = leb 200 status_code && leb status_code 299

-- The claim of `run_once`.
unfoldable pub claim_pass : Settings → (ℕ → Bool) → ℕ → Tx (List OutboxEvent)
claim_pass s locked now =
    claim_outbox_events locked now s.webhook_batch_size (s.webhook_timeout_seconds * 2)

-- The transaction of `_dispatch` for an error; `none` is an exception of `backoff_delay`.
abbrev pub record_failure : Settings → Uniform → ℕ → OutboxEvent → String → Option (Tx (Unit {0}))
record_failure s rng now event error =
    if leb s.webhook_max_attempts event.attempts
    then some (mark_attempt_failed now event.id error none)
    else elim (backoff_delay rng event.attempts webhook_backoff_base webhook_backoff_cap) [
      | none ↦ none
      | some delay ↦ some (mark_attempt_failed now event.id error (some delay))
    ]

-- `_dispatch` after the POST: no transaction if an exception leaves it. `decimal` is how the language
-- writes an integer.
unfoldable pub dispatch :
    Settings
    → (decimal : ℕ → String) → Uniform
    → (now : ℕ) → OutboxEvent
    → Response
    → Option (Tx (Unit {0}))
dispatch s decimal rng now event (responded status_code) =
    if is_success status_code
    then some (mark_delivered now event.id)
    else record_failure s rng now event (str_append "HTTP " (decimal status_code))
dispatch s decimal rng now event (http_error name message) =
    record_failure s rng now event (str_append name (str_append ": " message))
dispatch s decimal rng now event other_error = none
