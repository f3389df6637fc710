-- ===== src/Services.antt =====
-- src/notify_queue/services: what the API calls.
pub mod DeadLetters
pub mod Scheduler
pub mod Coherence
pub mod Replay
pub mod Creation
pub mod Posts
pub mod Metrics
pub mod Snapshots
pub mod Readers
pub mod Currency
pub mod Routes
pub mod Requeueing
