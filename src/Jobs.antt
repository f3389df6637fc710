-- ===== src/Jobs.antt =====
-- src/notify_queue/repositories/jobs.py: the SQL over the jobs table and its satellites.
pub mod Create
pub mod Claim
pub mod Finalize
pub mod Reap
pub mod RateLimit
pub mod Reports
