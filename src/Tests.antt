-- ===== src/Tests.antt =====
-- Runs of the model on concrete bytes, and the theorems at concrete inputs.
mod Network
mod Parser
mod Queries
mod TwoEntries
mod Timers
mod Wheels
mod Refined
mod Runners
mod Resolving
