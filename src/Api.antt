-- ===== src/Api.antt =====
-- main.py and core/auth.py: the routes, and who may call them.
pub mod State
mod Tests
mod Samples
pub mod Access
pub mod Webhook
pub mod Receive
pub mod Uncertain
pub mod Mappings
pub mod Deliveries
pub mod Triage
pub mod Accounts
pub mod Events
