-- ===== src/Api/Webhook.antt =====
-- database/schemas.py: the request and the response of a webhook; main.py: the event that it becomes.
use healpipe.Prelude.{ℕ, suc, String, ◌<>◌, Option, none, some, List, [], ◌∷◌, ◌++◌, string_eq}
use healpipe.Prelude.Dict.{Dict, update}
use healpipe.Database.Schema.{Uuid, HealingEventRecord, EventStatus, ValidationError, DataBridge}
use healpipe.Database.Schema.Json.{ℤ, Value, Payload}
use healpipe.Database.State.{Db}
use healpipe.Api.State.{Setting}

-- `extra` holds the fields that the model does not name; `source` and `target_url`, which it names,
-- are never read.
pub record WebhookReceiveRequest : Type 0 where
  pub customer_id : Option String
  pub email_address : Option String
  pub stock_count : Option ℤ
  pub phone_number : Option String
  pub idempotency_key : Option String
  pub body : Option Payload
  pub expected_fields : List String
  pub extra : Payload

abbrev pub text_field : String → Option String → Payload
text_field key none = []
text_field key (some s) = (key, Value.str s) ∷ []

abbrev pub known_fields : WebhookReceiveRequest → Payload
known_fields r =
    text_field "customer_id" r.customer_id
    ++ text_field "email_address" r.email_address
    ++ elim r.stock_count [ none ↦ [] | some n ↦ ("stock_count", Value.int n) ∷ [] ]
    ++ text_field "phone_number" r.phone_number

-- "target_url" is a field of the model and so none of the extra ones.
unfoldable pub as_payload : WebhookReceiveRequest → Payload
as_payload r = elim r.body [ none ↦ update (known_fields r) r.extra | some p ↦ p ]

abbrev pub join : String → List String → String
join sep [] = ""
join sep (x ∷ []) = x
join sep (x ∷ y ∷ xs) = x <> (sep <> join sep (y ∷ xs))

-- The response, with its status code.
pub record Receipt : Type 0 where
  pub code : ℕ
  pub event_id : Uuid
  pub status : EventStatus
  pub body : Payload
  pub key_mappings : Dict String
  pub reason : Option String

-- What the checks and the healing leave to the three ways out.
pub record Healed : Type 0 where
  pub bridge : DataBridge
  pub expected : List String
  pub key : Option String
  pub sha256 : String
  pub raw : Payload
  pub normalized : Payload
  pub healed : Payload
  pub mappings : Dict String
  pub versions : Dict ℕ

abbrev pub status_name : EventStatus → String
status_name EventStatus.validated = "validated"
status_name EventStatus.healed = "healed"
status_name EventStatus.rejected = "rejected"
status_name EventStatus.uncertain = "uncertain"
status_name EventStatus.delivery_failed = "delivery_failed"
status_name EventStatus.dropped = "dropped"
status_name EventStatus.idempotency_blocked = "idempotency_blocked"

abbrev pub event_execution_log : Setting → EventStatus → String → String
event_execution_log s status detail =
    "Timestamp: "
    <> (s.show_time s.now <> (". Status: " <> (status_name status <> (". " <> detail))))

-- `uuid4()`
abbrev pub fresh_id : Db → Uuid × Db
fresh_id db = (db.next_id, record db { next_id = suc db.next_id })

abbrev pub event_of :
    Setting
    → Healed
    → Uuid
    → EventStatus
    → Option String
    → List ValidationError
    → HealingEventRecord
event_of s h event status reason errors = record {
  event_id = event;
  account_id = h.bridge.account_id;
  bridge_id = h.bridge.bridge_id;
  status = status;
  raw_payload = h.raw;
  raw_payload_sha256 = some h.sha256;
  normalized_payload = h.normalized;
  healed_payload = h.healed;
  key_mappings = h.mappings;
  ai_telemetry = none;
  validation_errors = errors;
  mapping_versions = h.versions;
  reason = reason;
  created_at = s.now;
}
