-- ===== src/Api/Receive.antt =====
-- main.py: `receive_webhook`.
pub mod Accepted
pub mod Outcome
use healpipe.Prelude.{
  ℕ, suc, String, ◌<>◌, Bool, true, false, not, ◌&&◌, Option, none, some, List, [], ◌∷◌, ◌++◌, map,
  string_eq, if◌then◌else◌, contains,
}
use healpipe.Prelude.Table.{select}
use healpipe.Prelude.Dict.{Dict, keys, has_key, update}
use healpipe.Database.Schema.{
  Uuid, HealingEventRecord, EventStatus, ValidationError, LifecycleState, DeliveryJob, DataBridge,
}
use healpipe.Database.Schema.Json.{ℤ, Value, Payload}
use healpipe.Database.State.{Db, Result, ok, err, http_exception}
use healpipe.Database.Bridges.{get_active_data_bridge}
use healpipe.Database.Events.{persist_healing_event}
use healpipe.Database.Jobs.{create_delivery_job}
use healpipe.Database.Ledger.{append_event_lifecycle}
use healpipe.Intake.Normalizer.{normalize_payload}
use healpipe.Intake.Security.{verify_webhook_signature}
use healpipe.Matching.Keys.{default_match_threshold, key_confidence}
use healpipe.Matching.Payloads.{map_payload_keys}
use healpipe.Matching.Persisted.{apply_persisted_mappings}
use healpipe.Python.{score_ltb}
use healpipe.Worker.Delivery.{Job}
use healpipe.Worker.Pool.{enqueue_delivery}
use healpipe.Api.State.{
  Api, Task, Route, Request, Setting, send_pipeline_alert, resolve_and_forward, on_db, add_task,
  check,
}
use healpipe.Api.Access.{present}
use healpipe.Api.Webhook.{
  Healed, Receipt, WebhookReceiveRequest, as_payload, event_execution_log, event_of, fresh_id, join,
}

-- The event with its first two entries in the ledger: "received", and its status.
unfoldable pub record_event :
    Setting
    → Healed
    → Uuid
    → EventStatus
    → LifecycleState
    → Option String
    → List ValidationError
    → Db
    → Db
record_event s h event status state reason errors db =
    append_event_lifecycle event h.bridge.bridge_id h.bridge.account_id state none reason s.now
      (persist_healing_event (event_of s h event status reason errors) s.now db)

abbrev pub required_fields : List String
required_fields = "customer_id" ∷ "email_address" ∷ []

abbrev pub missing_required : Payload → List String
missing_required healed = select (λ field. not (has_key field healed)) required_fields

abbrev pub each_field : String → List String → List ValidationError
each_field message fields = map (λ f. record { field_name = f; message = message }) fields

unfoldable pub reject : Setting → Healed → List String → Route Receipt
reject s h missing api =
    let (event, db) = fresh_id api.db in
    let reason = "Missing required fields: " <> join ", " missing in
    let db =
      record_event s h event EventStatus.rejected LifecycleState.rejected (some reason)
        (each_field "Required field is missing" missing) db in
    (
      ok (record {
        code = 422;
        event_id = event;
        status = EventStatus.rejected;
        body = h.healed;
        key_mappings = [];
        reason = some reason;
      }),
      add_task
          (send_pipeline_alert event EventStatus.rejected
            (event_execution_log s EventStatus.rejected reason))
          (record api { db = db }),
    )

-- The keys that are not expected and whose confidence is too low.
unfoldable pub uncertain_keys : Setting → List String → Payload → List String
uncertain_keys s expected healed =
    select
      (λ key.
        not (contains key expected)
        && score_ltb (key_confidence s.text key expected) default_match_threshold)
      (keys healed)

unfoldable pub park : Setting → Healed → String → List String → Route Receipt
park s h first more api =
    let (event, db) = fresh_id api.db in
    let reason = "Low-confidence fields parked for triage: " <> join ", " (first ∷ more) in
    let db =
      record_event s h event EventStatus.uncertain LifecycleState.uncertain (some reason)
        (each_field "Low-confidence field requires triage" (first ∷ more)) db in
    (
      ok (record {
        code = 202;
        event_id = event;
        status = EventStatus.uncertain;
        body = h.healed;
        key_mappings = h.mappings;
        reason = some reason;
      }),
      add_task
          (resolve_and_forward event h.raw h.healed h.mappings first h.bridge.target_endpoint_url
            h.bridge.bridge_id h.bridge.account_id)
          (add_task
            (send_pipeline_alert event EventStatus.uncertain
              (event_execution_log s EventStatus.uncertain reason))
            (record api { db = db })),
    )

-- The status of an accepted event, with its ledger state and what the alert says of it.
abbrev pub accepted_status : Dict String → EventStatus × LifecycleState × String
accepted_status [] = (
  EventStatus.validated, LifecycleState.validated,
  "Payload passed validation without schema corrections.",
)
accepted_status (m ∷ more) = (
  EventStatus.healed,
  LifecycleState.healed,
  "Normalized fields: " <> (join ", " (keys (m ∷ more)) <> "."),
)

-- The job as it is queued: `enqueue_delivery` is given no key.
abbrev pub queued_job : DeliveryJob → Job
queued_job job = record {
  job_id = job.job_id;
  event_id = job.event_id;
  body = job.body;
  target_url = job.target_url;
  bridge_id = job.bridge_id;
  idempotency_key = none;
  is_replay = false;
}

-- The job of an event that is stored, and its entry "queued".
unfoldable pub queue_event : Setting → Healed → Uuid → EventStatus → Route Receipt
queue_event s h event status api =
    let (created, db) =
      create_delivery_job event h.bridge.bridge_id h.healed h.bridge.target_endpoint_url h.key
        h.bridge.account_id s.now api.db in
    elim created [
      | none ↦
          (err (http_exception 503 "Delivery job could not be persisted"), record api { db = db })
      | some job ↦ (
        ok (record {
          code = 200;
          event_id = event;
          status = status;
          body = h.healed;
          key_mappings = h.mappings;
          reason = none;
        }),
        record api {
          db =
              append_event_lifecycle event h.bridge.bridge_id h.bridge.account_id
                LifecycleState.queued (some job.job_id) none s.now db;
          pool = enqueue_delivery s.api_role (queued_job job) api.pool;
        },
      )
    ]

unfoldable pub accept_as :
    Setting → Healed → EventStatus → LifecycleState → (detail : String) → Route Receipt
accept_as s h status state detail api =
    let (event, db) = fresh_id api.db in
    queue_event s h event status (
      add_task (send_pipeline_alert event status (event_execution_log s status detail))
        (record api { db = record_event s h event status state none [] db }))

unfoldable pub accept : Setting → Healed → Route Receipt
accept s h =
    let (status, state, detail) = accepted_status h.mappings in accept_as s h status state detail

abbrev pub way_out : Setting → Healed → Route Receipt
way_out s h = elim (missing_required h.healed) [
  | field ∷ fields ↦ reject s h (field ∷ fields)
  | [] ↦ elim (uncertain_keys s h.expected h.healed) [
    | key ∷ more ↦ park s h key more
    | [] ↦ accept s h
  ]
]

abbrev pub is_signed : Setting → Request → DataBridge → Result (Unit {0})
is_signed s request b = elim (present request.webhook_signature) [
  | none ↦ err (http_exception 401 "Webhook signature is required")
  | some signature ↦
      elim (verify_webhook_signature s.text s.hmac request.body signature b.signature_secret) [
        | err e ↦ err e
        | ok valid ↦
            if valid then ok tt else err (http_exception 401 "Webhook signature is invalid")
      ]
]

abbrev pub has_key_if_required : Setting → WebhookReceiveRequest → Result (Unit {0})
has_key_if_required s r =
    if s.require_idempotency_key
    then elim (present r.idempotency_key) [
      | none ↦ err (http_exception 400 "idempotency_key is required for this bridge")
      | some key ↦ ok tt
    ]
    else ok tt

unfoldable pub heal : Setting → Request → WebhookReceiveRequest → DataBridge → Db → Healed
heal s request r b db =
    let normalized = normalize_payload s.text (as_payload r) in
    let (mapped, persisted, versions) = apply_persisted_mappings normalized b.bridge_id db in
    let (healed, matched) =
      map_payload_keys s.text mapped r.expected_fields default_match_threshold in
    record {
      bridge = b;
      expected = r.expected_fields;
      key = r.idempotency_key;
      sha256 = s.sha256 request.body;
      raw = as_payload r;
      normalized = normalized;
      healed = healed;
      mappings = update persisted matched;
      versions = versions;
    }

unfoldable pub receive_webhook : Setting → Request → WebhookReceiveRequest → Uuid → Route Receipt
receive_webhook s request r bridge_id api = elim (get_active_data_bridge bridge_id none api.db) [
  | none ↦ (err (http_exception 404 "Active data bridge was not found"), api)
  | some b ↦
      check (is_signed s request b)
        (λ _. check (has_key_if_required s r) (λ _ a. way_out s (heal s request r b a.db) a)) api
]
