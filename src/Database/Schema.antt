-- ===== src/Database/Schema.antt =====
-- database/models.py: one record for each table that the pipeline reads or writes. UUIDs and
-- datetimes are numbers; a CHECK constraint on a status column is a data type of its values.
pub mod Json
use healpipe.Prelude.{ℕ, String, Bool, true, false, Option, List}
use healpipe.Prelude.Dict.{Dict}
use healpipe.Database.Schema.Json.{Payload}
use healpipe.Python.{Score}

abbrev pub Uuid : Type 0
Uuid = ℕ

abbrev pub Time : Type 0
Time = ℕ

-- 00000000-0000-0000-0000-000000000001
abbrev pub default_account_id : Uuid
default_account_id = 1

pub record Account : Type 0 where
  pub account_id : Uuid
  pub name : String
  pub created_at : Time

pub data Role : Type 0 where
  owner admin operator viewer : Role

pub record AccountMember : Type 0 where
  pub membership_id : Uuid
  pub account_id : Uuid
  pub actor_id : String
  pub role : Role
  pub created_at : Time

pub record GoogleIdentity : Type 0 where
  pub identity_id : Uuid
  pub account_id : Uuid
  pub google_subject : String
  pub email : String
  pub display_name : Option String
  pub created_at : Time
  pub last_login_at : Time

-- The five answers, which a request gives together.
pub record Onboarding : Type 0 where
  pub user_type : String
  pub integration_type : String
  pub primary_problem : String
  pub monthly_volume : String
  pub user_role : String

pub record OnboardingProfile : Type 0 where
  pub profile_id : Uuid
  pub account_id : Uuid
  pub answers : Onboarding
  pub completed_at : Time

pub record ApiKey : Type 0 where
  pub key_id : Uuid
  pub account_id : Uuid
  pub key_prefix : String
  pub key_hash : String
  pub scopes : List String
  pub role : Role
  pub expires_at : Option Time
  pub revoked_at : Option Time
  pub created_at : Time

pub record AuditLog : Type 0 where
  pub audit_id : Uuid
  pub account_id : Uuid
  pub actor_id : String
  pub action : String
  pub object_type : String
  pub object_id : String
  pub before_state : Option Payload
  pub after_state : Option Payload
  pub request_id : Option String
  pub ip_address : Option String
  pub created_at : Time

pub data ExportFormat : Type 0 where
  json csv summary pdf : ExportFormat

-- The status is always "completed".
pub record AuditExport : Type 0 where
  pub export_id : Uuid
  pub account_id : Uuid
  pub requested_by : String
  pub export_format : ExportFormat
  pub filters : Payload
  pub row_count : ℕ
  pub file_sha256 : Option String
  pub created_at : Time

pub data EventStatus : Type 0 where
  validated healed rejected uncertain delivery_failed dropped idempotency_blocked : EventStatus

pub record ValidationError : Type 0 where
  pub field_name : String
  pub message : String

-- `{"confidence_score": resolution.confidence, "algorithm": model}`
pub record AiTelemetry : Type 0 where
  pub confidence_score : Score
  pub algorithm : String

pub record HealingEventRecord : Type 0 where
  pub event_id : Uuid
  pub account_id : Uuid
  pub bridge_id : Uuid
  pub status : EventStatus
  pub raw_payload : Payload
  pub raw_payload_sha256 : Option String
  pub normalized_payload : Payload
  pub healed_payload : Payload
  pub key_mappings : Dict String
  pub ai_telemetry : Option AiTelemetry
  pub validation_errors : List ValidationError
  pub mapping_versions : Dict ℕ
  pub reason : Option String
  pub created_at : Time

pub record IdempotencyClaim : Type 0 where
  pub claim_id : Uuid
  pub account_id : Uuid
  pub bridge_id : Uuid
  pub idempotency_key : String
  pub event_id : Uuid
  pub expires_at : Time

pub record DigestRun : Type 0 where
  pub digest_id : Uuid
  pub account_id : Uuid
  pub bridge_id : Uuid
  pub period_start : Time
  pub sent_at : Time

pub data JobStatus : Type 0 where
  queued delivering retrying delivered dead_lettered idempotency_blocked : JobStatus

pub record DeliveryJob : Type 0 where
  pub job_id : Uuid
  pub account_id : Uuid
  pub original_job_id : Option Uuid
  pub replay_count : ℕ
  pub event_id : Uuid
  pub bridge_id : Uuid
  pub body : Payload
  pub target_url : String
  pub idempotency_key : Option String
  pub status : JobStatus
  pub attempt_count : ℕ
  pub next_attempt_at : Time
  pub last_error : Option String
  pub created_at : Time
  pub completed_at : Option Time

pub data AttemptStatus : Type 0 where
  delivered failed : AttemptStatus

pub record DeliveryAttempt : Type 0 where
  pub attempt_id : Uuid
  pub job_id : Uuid
  pub attempt_number : ℕ
  pub status : AttemptStatus
  pub http_status : Option ℕ
  pub response_body : Option String
  pub error_message : Option String
  pub started_at : Time
  pub completed_at : Option Time

pub data LifecycleState : Type 0 where
  received validated healed uncertain rejected queued delivering : LifecycleState
  delivery_attempted delivered retrying delivery_failed dead_lettered : LifecycleState
  replayed archived idempotency_blocked : LifecycleState

-- `http_status` is the one key that the program puts into the metadata column.
pub record EventLifecycle : Type 0 where
  pub lifecycle_id : Uuid
  pub account_id : Uuid
  pub bridge_id : Uuid
  pub event_id : Uuid
  pub job_id : Option Uuid
  pub state : LifecycleState
  pub attempt_number : Option ℕ
  pub reason : Option String
  pub http_status : Option ℕ
  pub occurred_at : Time

pub record InventoryMapping : Type 0 where
  pub id : Uuid
  pub bridge_id : Option Uuid
  pub supplier_name : String
  pub source_sku : String
  pub target_sku : String
  pub translation_vector : Payload
  pub created_at : Time
  pub updated_at : Time

pub data MappingStatus : Type 0 where
  proposed approved active inactive rejected : MappingStatus

pub record MappingRule : Type 0 where
  pub mapping_id : Uuid
  pub account_id : Uuid
  pub bridge_id : Uuid
  pub source_field : String
  pub destination_field : String
  pub revision : ℕ
  pub status : MappingStatus
  pub created_by : String
  pub created_at : Time
  pub approved_by : Option String
  pub approved_at : Option Time
  pub deactivated_by : Option String
  pub deactivated_at : Option Time
  pub reason : Option String

pub record DataBridge : Type 0 where
  pub bridge_id : Uuid
  pub account_id : Uuid
  pub bridge_name : String
  pub source_platform : String
  pub target_endpoint_url : String
  pub signature_secret : String
  pub is_active : Bool
  pub created_at : Time
