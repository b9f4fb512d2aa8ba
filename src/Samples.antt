-- ===== src/Samples.antt =====
-- Rows and settings for the tests: one small database, text functions that leave a text as it is,
-- and a policy with the default delays.
use healpipe.Prelude.{ℕ, true, ltb, none, [], ◌∷◌, refl}
use healpipe.Database.Schema.{
  Uuid, Time, MappingRule, MappingStatus, DeliveryJob, JobStatus, HealingEventRecord, EventStatus,
  IdempotencyClaim,
}
use healpipe.Database.Schema.Json.{Value}
use healpipe.Database.State.{Db}
use healpipe.Python.{Text}

abbrev pub plain_text : Text
plain_text = record {
  strip = λ s. s;
  lower = λ s. s;
  casefold = λ s. s;
  parse_int = λ s. none;
  parse_float = λ s. none;
  sequence_ratio = λ a b. record { num = 0; den = 1 };
  strip_strip = λ s. refl;
}

abbrev pub empty_db : Db
empty_db = record {
  configured = true;
  next_id = 100;
  sorts_before = λ i j. ltb i j;
  accounts = [];
  account_members = [];
  google_identities = [];
  onboarding_profiles = [];
  api_keys = [];
  audit_logs = [];
  audit_exports = [];
  healing_events = [];
  idempotency_claims = [];
  digest_runs = [];
  delivery_jobs = [];
  delivery_attempts = [];
  event_lifecycle = [];
  inventory_mappings = [];
  mapping_rules = [];
  data_bridges = [];
}

-- A rule of account 7 and bridge 9 for the field "client".
abbrev pub client_rule : Uuid → ℕ → MappingStatus → MappingRule
client_rule i revision status = record {
  mapping_id = i;
  account_id = 7;
  bridge_id = 9;
  source_field = "client";
  destination_field = "customer_id";
  revision = revision;
  status = status;
  created_by = "ann";
  created_at = 1;
  approved_by = none;
  approved_at = none;
  deactivated_by = none;
  deactivated_at = none;
  reason = none;
}

abbrev pub sample_job : Uuid → JobStatus → DeliveryJob
sample_job i status = record {
  job_id = i;
  account_id = 7;
  original_job_id = none;
  replay_count = 0;
  event_id = 3;
  bridge_id = 9;
  body = [];
  target_url = "https://example.org";
  idempotency_key = none;
  status = status;
  attempt_count = 0;
  next_attempt_at = 10;
  last_error = none;
  created_at = 5;
  completed_at = none;
}

-- An uncertain event with one key outside the allowed ones.
abbrev pub sample_event : HealingEventRecord
sample_event = record {
  event_id = 3;
  account_id = 7;
  bridge_id = 9;
  status = EventStatus.uncertain;
  raw_payload = ("client", Value.str "c1") ∷ [];
  raw_payload_sha256 = none;
  normalized_payload = ("client", Value.str "c1") ∷ [];
  healed_payload = ("client", Value.str "c1") ∷ [];
  key_mappings = [];
  ai_telemetry = none;
  validation_errors = [];
  mapping_versions = [];
  reason = none;
  created_at = 1;
}

abbrev pub sample_claim : Time → IdempotencyClaim
sample_claim expires_at = record {
  claim_id = 4;
  account_id = 7;
  bridge_id = 9;
  idempotency_key = "order-1";
  event_id = 3;
  expires_at = expires_at;
}
