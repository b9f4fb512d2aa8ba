-- ===== src/Database/Audit/Tests.antt =====
-- The theorems on redacted exports and on the audit of an event at concrete values.
use healpipe.Prelude.{
  ℕ, String, true, none, some, if◌then◌else◌, List, [], ◌∷◌, ◌++◌, ◌≡◌, refl, ◌-◌,
}
use healpipe.Prelude.Table.{any}
use healpipe.Database.Schema.Json.{Value, Fields}
use healpipe.Database.Audit.Redaction.{
  Step, key, at, map_option, redacted, is_sensitive, IsOpenPath, redact_export_value,
  redacts_exactly,
}
use healpipe.Database.Schema.{
  DeliveryAttempt, JobStatus, AttemptStatus, HealingEventRecord, EventStatus,
}
use healpipe.Database.State.{Db, ok}
use healpipe.Database.Audit.Events.{event_audit}
use healpipe.Database.Audit.Trail.{jobs_of_event, event_on_bridge, fetch_event_audit}
use healpipe.Database.Audit.Complete.{audited_jobs, fetch_event_audit_complete}
use healpipe.Samples.{plain_text, empty_db, sample_job}

abbrev exported : Value
exported = Value.obj (
    Fields.field "login"
      (Value.obj
        (Fields.field "password" (Value.str "p") (Fields.field "name" (Value.str "n") Fields.end)))
      Fields.end)

abbrev to_login : List Step
to_login = key "login" ∷ []

login_is_open : IsOpenPath plain_text to_login
unfolding is_sensitive any
login_is_open = (refl, tt)

redacts_exactly_example :
    (at to_login (redact_export_value plain_text exported)
      ≡ map_option (redact_export_value plain_text) (at to_login exported))
    × ((k : String)
        → is_sensitive plain_text k ≡ true
        → at (to_login ++ key k ∷ []) (redact_export_value plain_text exported)
          ≡ map_option (λ w. redacted) (at (to_login ++ key k ∷ []) exported))
redacts_exactly_example = redacts_exactly plain_text to_login exported login_is_open

abbrev an_event : HealingEventRecord
an_event = record {
  event_id = 3;
  account_id = 7;
  bridge_id = 9;
  status = EventStatus.healed;
  raw_payload = [];
  raw_payload_sha256 = none;
  normalized_payload = [];
  healed_payload = [];
  key_mappings = [];
  ai_telemetry = none;
  validation_errors = [];
  mapping_versions = [];
  reason = none;
  created_at = 10;
}

abbrev an_attempt : ℕ → ℕ → DeliveryAttempt
an_attempt i job = record {
  attempt_id = i;
  job_id = job;
  attempt_number = 1;
  status = AttemptStatus.failed;
  http_status = some 503;
  response_body = none;
  error_message = some "busy";
  started_at = 40 - i;
  completed_at = none;
}

abbrev audit_db : Db
audit_db = record empty_db {
  healing_events = an_event ∷ [];
  delivery_jobs = sample_job 1 JobStatus.retrying ∷ sample_job 2 JobStatus.dead_lettered ∷ [];
  delivery_attempts = an_attempt 21 1 ∷ an_attempt 22 2 ∷ an_attempt 23 1 ∷ an_attempt 24 8 ∷ [];
}

fetch_event_audit_complete_example :
    fetch_event_audit 3 9 audit_db
    ≡ ok (
        if audit_db.configured
        then elim (event_on_bridge 3 9 audit_db) [
          | none ↦ none
          | some e ↦ some (event_audit e (audited_jobs (jobs_of_event 3 9 audit_db) audit_db))
        ]
        else none)
fetch_event_audit_complete_example = fetch_event_audit_complete 3 9 audit_db
