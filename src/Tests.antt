-- ===== src/Tests.antt =====
-- Runs of the model on concrete robots, and the theorems applied to them.
mod Fixtures
mod Lifecycle
mod Storage
mod Requests
mod Threads
mod Limits
mod Chain
mod Switching
mod Sorting
mod Loading
mod Chains
mod Loop
