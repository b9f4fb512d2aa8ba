-- ===== src/Api/Triage/Tests.antt =====
-- The theorem on undelivered triage decisions at a concrete event, whose bridge is inactive.
use healpipe.Prelude.{String, false, Option, some, [], ◌∷◌, ◌≡◌, refl, string_eq}
use healpipe.Prelude.Table.{find, select}
use healpipe.Prelude.Dict.{get, put, remove}
use healpipe.Database.Schema.{EventStatus, HealingEventRecord}
use healpipe.Database.Schema.Json.{Value, Payload}
use healpipe.Database.State.{Result, Error, ok, err, http_exception}
use healpipe.Database.Bridges.{get_active_data_bridge}
use healpipe.Database.Triage.{
  Action, TriageResult, mapped, is_event_of, map_event, resolve_triage_event,
}
use healpipe.Api.State.{Api}
use healpipe.Api.Access.{
  bearer_session, read_session_token, request_account, require_bridge_account,
}
use healpipe.Api.Triage.{decide_triage}
use healpipe.Api.Triage.Undelivered.{map_request, decided, triage_heals_undelivered}
use healpipe.Samples.{sample_event}
use healpipe.Api.Samples.{setting, request, sample_bridge, api}

abbrev closed_api : Api
closed_api = record api {
  db = record api.db {
    data_bridges = record sample_bridge { is_active = false } ∷ [];
    healing_events = sample_event ∷ [];
  };
}

abbrev healed : Payload
healed = ("customer_id", Value.str "c1") ∷ []

is_mapped :
    (resolve_triage_event setting.show 3 Action.map (some "customer_id") "ann" 7 20 closed_api.db).0
    ≡ ok (mapped 3 healed "client" "customer_id" 9)
unfolding resolve_triage_event map_event find select get put remove
is_mapped = refl

abbrev not_found : Error
not_found = http_exception 404 "Active data bridge was not found"

is_refused :
    require_bridge_account setting request 9
      (some "events:write")
      (decided setting request 3 7 (some "customer_id") "ann" closed_api is_mapped)
    ≡ err not_found
unfolding require_bridge_account request_account bearer_session read_session_token
    get_active_data_bridge resolve_triage_event map_event find select get put remove
is_refused = refl

abbrev first : Result TriageResult × Api
first = decide_triage setting request (map_request 3 (some "customer_id")) 7 "ann" closed_api

triage_heals_undelivered_example :
    (first.0 ≡ err not_found)
    × (first.1.db.delivery_jobs ≡ closed_api.db.delivery_jobs)
    × (first.1.pool ≡ closed_api.pool)
    × ((h : HealingEventRecord) × (find (is_event_of 3 7) first.1.db.healing_events ≡ some h)
        × (h.status ≡ EventStatus.healed)
        × (h.healed_payload ≡ healed))
    × ((action : Action) (key : Option String) (who : String)
        → (decide_triage setting request
            (record { event_id = 3; target_key = key; action = action })
            7
            who
            first.1).0
          ≡ err (http_exception 400 "Only uncertain events can be resolved through triage"))
triage_heals_undelivered_example =
    triage_heals_undelivered setting request 3 7 (some "customer_id") "ann" closed_api is_mapped
      not_found is_refused
