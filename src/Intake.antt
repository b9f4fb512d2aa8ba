-- ===== src/Intake.antt =====
-- What happens to a webhook before its keys are matched: core/normalizer.py and core/security.py.
pub mod Normalizer
pub mod Security
mod Tests
