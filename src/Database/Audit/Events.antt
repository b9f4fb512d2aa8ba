-- ===== src/Database/Audit/Events.antt =====
-- database/repository.py: the list of the healing events, and the rows of the audit of an event.
-- Identifiers and times stand as they are; the code renders them as text.
use healpipe.Prelude.{
  ℕ, String, Bool, true, false, not, ◌&&◌, Option, none, some, List, [], ◌∷◌, ◌++◌, map, ◌==◌,
  nat_eq, if◌then◌else◌,
}
use healpipe.Prelude.Table.{select, take, order_by}
use healpipe.Prelude.Dict.{Dict}
use healpipe.Database.Schema.{
  Uuid, Time, HealingEventRecord, EventStatus, ValidationError, AiTelemetry, DeliveryJob, JobStatus,
  DeliveryAttempt, AttemptStatus,
}
use healpipe.Database.Schema.Json.{Payload}
use healpipe.Database.State.{Db}

abbrev pub is_dropped : EventStatus → Bool
is_dropped EventStatus.dropped = true
is_dropped _ = false

abbrev pub reverse : {A : Type 0} → List A → List A
reverse [] = []
reverse (x ∷ xs) = reverse xs ++ x ∷ []

abbrev pub is_of_bridge : Uuid → HealingEventRecord → Bool
is_of_bridge b e = e.bridge_id == b

-- The row without its account and its digest, which the answer leaves out.
pub record ListedEvent : Type 0 where
  pub event_id : Uuid
  pub bridge_id : Uuid
  pub status : EventStatus
  pub raw_payload : Payload
  pub normalized_payload : Payload
  pub healed_payload : Payload
  pub key_mappings : Dict String
  pub mapping_versions : Dict ℕ
  pub ai_telemetry : Option AiTelemetry
  pub validation_errors : List ValidationError
  pub reason : Option String
  pub created_at : Time

abbrev pub listed_event : HealingEventRecord → ListedEvent
listed_event e = record {
  event_id = e.event_id;
  bridge_id = e.bridge_id;
  status = e.status;
  raw_payload = e.raw_payload;
  normalized_payload = e.normalized_payload;
  healed_payload = e.healed_payload;
  key_mappings = e.key_mappings;
  mapping_versions = e.mapping_versions;
  ai_telemetry = e.ai_telemetry;
  validation_errors = e.validation_errors;
  reason = e.reason;
  created_at = e.created_at;
}

-- The latest events first.
unfoldable pub fetch_healing_events : (limit : ℕ) → Option Uuid → Db → List ListedEvent
fetch_healing_events limit bridge_id db =
    let rows =
      select
        (λ e.
          not (is_dropped e.status) && elim bridge_id [ none ↦ true | some b ↦ is_of_bridge b e ])
        db.healing_events in
    if db.configured
    then map listed_event (take limit (reverse (order_by (λ e. e.created_at) rows)))
    else []

pub record AuditedAttempt : Type 0 where
  pub attempt_id : Uuid
  pub attempt_number : ℕ
  pub status : AttemptStatus
  pub http_status : Option ℕ
  pub response_body : Option String
  pub error_message : Option String
  pub started_at : Time
  pub completed_at : Option Time

pub record AuditedJob : Type 0 where
  pub job_id : Uuid
  pub original_job_id : Option Uuid
  pub status : JobStatus
  pub body : Payload
  pub target_url : String
  pub attempt_count : ℕ
  pub last_error : Option String
  pub created_at : Time
  pub completed_at : Option Time
  pub attempts : List AuditedAttempt

pub record EventAudit : Type 0 where
  pub event_id : Uuid
  pub bridge_id : Uuid
  pub status : EventStatus
  pub raw_payload : Payload
  pub normalized_payload : Payload
  pub healed_payload : Payload
  pub raw_payload_sha256 : Option String
  pub key_mappings : Dict String
  pub mapping_versions : Dict ℕ
  pub ai_telemetry : Option AiTelemetry
  pub validation_errors : List ValidationError
  pub reason : Option String
  pub created_at : Time
  pub delivery_jobs : List AuditedJob

abbrev pub audited_attempt : DeliveryAttempt → AuditedAttempt
audited_attempt a = record {
  attempt_id = a.attempt_id;
  attempt_number = a.attempt_number;
  status = a.status;
  http_status = a.http_status;
  response_body = a.response_body;
  error_message = a.error_message;
  started_at = a.started_at;
  completed_at = a.completed_at;
}

abbrev pub audited_job : DeliveryJob → List AuditedAttempt → AuditedJob
audited_job j attempts = record {
  job_id = j.job_id;
  original_job_id = j.original_job_id;
  status = j.status;
  body = j.body;
  target_url = j.target_url;
  attempt_count = j.attempt_count;
  last_error = j.last_error;
  created_at = j.created_at;
  completed_at = j.completed_at;
  attempts = attempts;
}

abbrev pub event_audit : HealingEventRecord → List AuditedJob → EventAudit
event_audit e jobs = record {
  event_id = e.event_id;
  bridge_id = e.bridge_id;
  status = e.status;
  raw_payload = e.raw_payload;
  normalized_payload = e.normalized_payload;
  healed_payload = e.healed_payload;
  raw_payload_sha256 = e.raw_payload_sha256;
  key_mappings = e.key_mappings;
  mapping_versions = e.mapping_versions;
  ai_telemetry = e.ai_telemetry;
  validation_errors = e.validation_errors;
  reason = e.reason;
  created_at = e.created_at;
  delivery_jobs = jobs;
}
