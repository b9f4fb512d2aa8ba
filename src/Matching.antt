-- ===== src/Matching.antt =====
-- core/algorithms.py: how an incoming key is matched with an expected field.
pub mod Levenshtein
pub mod Similarity
pub mod Keys
pub mod Payloads
pub mod Persisted
mod Tests
