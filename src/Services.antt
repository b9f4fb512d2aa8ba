-- ===== src/Services.antt =====
-- services/: the outbound delivery of a payload.
pub mod Outbound
pub mod SchemaResolution
pub mod Digest
mod Tests
