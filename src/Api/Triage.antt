-- ===== src/Api/Triage.antt =====
-- main.py: `resolve_triage`, the route of an operator's decision.
pub mod Undelivered
mod Tests
use healpipe.Prelude.{String, Bool, true, false, Option, none, some, List, [], ◌∷◌, if◌then◌else◌}
use healpipe.Database.Schema.{Uuid, DataBridge}
use healpipe.Database.Schema.Json.{Payload}
use healpipe.Database.State.{
  Db, Result, Error, ok, err, lookup_error, value_error, runtime_error, attribute_error, type_error,
  multiple_results_found, index_error, unhandled, http_exception,
}
use healpipe.Database.Jobs.{create_delivery_job}
use healpipe.Database.Triage.{Action, TriageResult, dropped, mapped, resolve_triage_event}
use healpipe.Worker.Pool.{enqueue_delivery}
use healpipe.Api.State.{Api, Route, Request, Setting, check}
use healpipe.Api.Access.{request_account, require_role, require_bridge_account}
use healpipe.Api.Receive.{queued_job}
use healpipe.Api.Deliveries.{operators}

pub record TriageRequest : Type 0 where
  pub event_id : Uuid
  pub target_key : Option String
  pub action : Action

-- `except LookupError` and `except ValueError`.
abbrev pub as_http : Error → Error
as_http (lookup_error text) = http_exception 404 text
as_http (value_error text) = http_exception 400 text
as_http (runtime_error text) = runtime_error text
as_http (attribute_error text) = attribute_error text
as_http (type_error text) = type_error text
as_http multiple_results_found = multiple_results_found
as_http index_error = index_error
as_http (unhandled text) = unhandled text
as_http (http_exception code text) = http_exception code text

-- The job of a healed event, for its bridge.
unfoldable pub deliver_healed :
    Setting → Uuid → Payload → (account : Uuid) → DataBridge → TriageResult → Route TriageResult
deliver_healed s event healed account b result api =
    let (created, db) =
      create_delivery_job event b.bridge_id healed b.target_endpoint_url none account s.now
        api.db in
    elim created [
      | none ↦
          (err (http_exception 503 "Delivery job could not be persisted"), record api { db = db })
      | some job ↦ (
        ok result,
        record api { db = db; pool = enqueue_delivery s.api_role (queued_job job) api.pool },
      )
    ]

-- The part after the decision. Its action is "map" exactly where the result is that of a map, and
-- an event always has a bridge.
abbrev pub after_decision : Setting → Request → Result TriageResult → Route TriageResult
after_decision s request (err e) api = (err (as_http e), api)
after_decision s request (ok (dropped event)) api = (ok (dropped event), api)
after_decision s request (ok (mapped event healed source target bridge)) api =
    check (require_bridge_account s request bridge (some "events:write") api.db)
      (λ who. deliver_healed s event healed who.0 who.2 (mapped event healed source target bridge))
      api

abbrev pub decide_triage : Setting → Request → TriageRequest → Uuid → String → Route TriageResult
decide_triage s request r account actor api =
    let (result, db) =
      resolve_triage_event s.show r.event_id r.action r.target_key actor account s.now api.db in
    after_decision s request result (record api { db = db })

unfoldable pub resolve_triage : Setting → Request → TriageRequest → Route TriageResult
resolve_triage s request r api =
    check (require_role s request operators api.db)
      (λ who api.
        check (request_account s request (some "events:write") api.db)
          (λ _ api. decide_triage s request r who.0 who.1 api) api)
      api
