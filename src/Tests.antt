-- ===== src/Tests.antt =====
-- Concrete data, and the theorems at concrete inputs.
mod Data
mod Addresses
mod Backlog
mod Scheduling
mod Fetching
mod Budgets
mod Structuring
mod Queue
mod Storing
mod Running
