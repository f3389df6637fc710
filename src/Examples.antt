-- ===== src/Examples.antt =====
-- Small runs of the repository, on which the theorems are applied.
mod Runs
mod Facts
mod Histories
mod Operations
mod Services
mod Workers
mod Progress
mod Requests
mod Processes
mod Readers
mod Texts
mod Callbacks
