-- ===== src/Api/Uncertain.antt =====
-- main.py: `resolve_and_forward_uncertain`, the task that asks for a decision on a parked webhook.
pub mod FailClosed
pub mod Others
mod Tests
use healpipe.Prelude.{
  String, ◌<>◌, Bool, true, false, Option, none, some, List, [], ◌∷◌, if◌then◌else◌,
}
use healpipe.Prelude.Dict.{Dict, get, put, has_key}
use healpipe.Database.Schema.{Uuid}
use healpipe.Database.Schema.Json.{Payload}
use healpipe.Database.State.{Db, Result, Error, ok, err, runtime_error, unhandled}
use healpipe.Database.Events.{promote_ai_healing, update_event_reason}
use healpipe.Database.Jobs.{create_delivery_job}
use healpipe.Matching.Persisted.{move}
use healpipe.Python.{Score, score_ltb}
use healpipe.Services.SchemaResolution.{Claude, Resolution, resolve_ambiguous_schema}
use healpipe.Worker.Pool.{enqueue_delivery}
use healpipe.Api.State.{Api, Route, Setting, on_db}
use healpipe.Api.Receive.{queued_job}

-- How Python writes an exception, and a confidence with two decimals.
pub record Print : Type 0 where
  pub error_text : Error → String
  pub two_decimals : Score → String

-- The arguments of the task.
pub record Parked : Type 0 where
  pub event_id : Uuid
  pub raw_payload : Payload
  pub healed_payload : Payload
  pub key_mappings : Dict String
  pub uncertain_key : String
  pub target_url : String
  pub bridge_id : Uuid
  pub account_id : Uuid

-- 0.85
abbrev pub forward_threshold : Score
forward_threshold = record { num = 85; den = 100 }

abbrev pub claude_reason : Print → Parked → Resolution → String
claude_reason print p r =
    "Claude mapped "
    <> (p.uncertain_key
        <> (" to " <> (r.mapped_key <> (" with confidence " <> print.two_decimals r.confidence))))

-- The job for the corrected payload, once the event is promoted.
unfoldable pub forward : Setting → Parked → Payload → Route (Unit {0})
forward s p corrected api =
    let (created, db) =
      create_delivery_job p.event_id p.bridge_id corrected p.target_url none p.account_id s.now
        api.db in
    elim created [
      | none ↦ (err (runtime_error "Delivery job could not be persisted"), record api { db = db })
      | some job ↦ (
        ok tt,
        record api { db = db; pool = enqueue_delivery s.api_role (queued_job job) api.pool },
      )
    ]

abbrev pub promote_and_forward : Setting → Print → Parked → Resolution → Payload → Route (Unit {0})
promote_and_forward s print p r corrected api =
    let (promoted, db) =
      promote_ai_healing p.event_id corrected (put p.uncertain_key r.mapped_key p.key_mappings)
        (claude_reason print p r) (some r.telemetry) (some p.bridge_id) api.db in
    elim promoted [
      | err e ↦ (err e, record api { db = db })
      | ok _ ↦ forward s p corrected (record api { db = db })
    ]

-- The body of the `try`. A payload without the uncertain key raises a KeyError.
unfoldable pub decide : Setting → Print → Parked → Resolution → Route (Unit {0})
decide s print p r api =
    let go : Result (Unit {0}) × Api = elim (get p.uncertain_key p.healed_payload) [
      | none ↦ (err (unhandled p.uncertain_key), api)
      | some value ↦
          promote_and_forward s print p r (move p.uncertain_key r.mapped_key value p.healed_payload)
            api
    ] in
    if score_ltb r.confidence forward_threshold
    then (ok tt, api)
    else if has_key r.mapped_key p.healed_payload
    then (ok tt, api)
    else go

-- `except Exception`: the reason of the event says what failed.
abbrev pub handled : Print → Parked → Result (Unit {0}) × Api → Api
handled print p (ok _, api) = api
handled print p (err e, api) =
    on_db (update_event_reason p.event_id ("AI triage failed: " <> print.error_text e)) api

unfoldable pub resolve_and_forward_uncertain : Setting → Print → Claude → Parked → Api → Api
resolve_and_forward_uncertain s print claude p api =
    elim (resolve_ambiguous_schema claude p.raw_payload p.uncertain_key) [
      | err e ↦ handled print p (err e, api)
      | ok r ↦ handled print p (decide s print p r api)
    ]
