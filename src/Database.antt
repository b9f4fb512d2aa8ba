-- ===== src/Database.antt =====
-- database/: the schema of models.py, the state that the repository works on, and repository.py.
pub mod Schema
pub mod State
pub mod Accounts
pub mod Audit
pub mod Mapping
pub mod Bridges
pub mod Idempotency
pub mod Jobs
pub mod Ledger
pub mod Events
pub mod Triage
