-- ===== src/Database/Triage/Tests.antt =====
-- The theorems on triage decisions at a concrete event.
use healpipe.Prelude.{
  Option, ℕ, ◌≤◌, String, true, false, none, some, [], ◌∷◌, ◌≡◌, ◌≢◌, refl, contains, string_eq,
  arith,
}
use healpipe.Prelude.Table.{count_where, find, select}
use healpipe.Prelude.Dict.{IsDict, has_key, get, put, remove}
use healpipe.Database.Schema.{
  MappingRule, MappingStatus, default_account_id, Uuid, HealingEventRecord, EventStatus,
}
use healpipe.Database.Schema.Json.{Value, Payload}
use healpipe.Database.State.{Db, Error, ok, err}
use healpipe.Database.Events.{has_event_id}
use healpipe.Database.Mapping.{approve_mapping_rule, has_mapping_id}
use healpipe.Database.Mapping.Invariant.{IsSound}
use healpipe.Database.Triage.{
  Action, allowed_keys, mapped, is_event_of, source_keys, value_at, heal_event, map_event,
  resolve_triage_event,
}
use healpipe.Database.Triage.Decisions.{triage_error_unchanged}
use healpipe.Database.Triage.Mapping.{IsMoved, triage_maps_payload, triage_proposal_unapprovable}
use healpipe.Samples.{empty_db, sample_event}

abbrev show_id : Uuid → String
show_id i = "an id"

abbrev triage_db : Db
triage_db = record empty_db { healing_events = sample_event ∷ [] }

abbrev healed : Payload
healed = ("customer_id", Value.str "c1") ∷ []

is_mapped :
    (resolve_triage_event show_id 3 Action.map (some "customer_id") "ann" 7 20 triage_db).0
    ≡ ok (mapped 3 healed "client" "customer_id" 9)
unfolding resolve_triage_event map_event find select get put remove
is_mapped = refl

is_refused :
    (resolve_triage_event show_id 5 Action.drop none "ann" 7 20 triage_db).0
    ≡ err (Error.lookup_error "Event was not found")
unfolding resolve_triage_event find
is_refused = refl

triage_error_unchanged_example :
    (resolve_triage_event show_id 5 Action.drop none "ann" 7 20 triage_db).1 ≡ triage_db
triage_error_unchanged_example =
    triage_error_unchanged show_id "ann" 20 triage_db 5 Action.drop none 7
      (Error.lookup_error "Event was not found") is_refused

one_event : count_where (has_event_id 3) triage_db.healing_events ≤ 1
unfolding count_where
one_event = omega arith

healed_IsDict :
    (e : HealingEventRecord)
    → find (is_event_of 3 7) triage_db.healing_events ≡ some e
    → IsDict e.healed_payload
unfolding find
healed_IsDict e h = ground arith

abbrev triaged_db : Db
triaged_db = (resolve_triage_event show_id 3 Action.map (some "customer_id") "ann" 7 20 triage_db).1

abbrev MapsPayload : Type 0
MapsPayload =
    (e : HealingEventRecord) × (find (is_event_of 3 7) triage_db.healing_events ≡ some e)
    × (e.status ≡ EventStatus.uncertain)
    × (◌≡◌ {A = Option String} (some "customer_id") (some "customer_id"))
    × (source_keys e.raw_payload ≡ "client" ∷ [])
    × (contains "customer_id" allowed_keys ≡ true)
    × (has_key "customer_id" e.healed_payload ≡ false)
    × (find (has_event_id 3) triaged_db.healing_events
        ≡ some (heal_event "client" "customer_id" healed e))
    × IsMoved "client" "customer_id"
        (value_at "client" (value_at "client" Value.null e.raw_payload) e.healed_payload)
        e.healed_payload healed

triage_maps_payload_example : MapsPayload
triage_maps_payload_example =
    triage_maps_payload show_id "ann" 20 triage_db 3 7 (some "customer_id") is_mapped one_event
      healed_IsDict

triage_db-IsSound : IsSound triage_db
unfolding count_where
triage_db-IsSound = record {
  ids = λ i. ground arith;
  fresh = λ i h. ground arith;
  one_active = λ b s. ground arith;
  revisions = λ b s n. ground arith;
}

not_default : ◌≢◌ {A = ℕ} 8 1
not_default h = absurd (omega (arith, h))

triage_proposal_unapprovable_example :
    (r : MappingRule) × (find (has_mapping_id 100) triaged_db.mapping_rules ≡ some r)
    × (r.status ≡ MappingStatus.proposed)
    × (r.bridge_id ≡ 9)
    × (r.source_field ≡ "client")
    × (r.destination_field ≡ "customer_id")
    × (r.account_id ≡ default_account_id)
    × (approve_mapping_rule 100 "bob" 8 30 triaged_db ≡ (ok none, triaged_db))
triage_proposal_unapprovable_example =
    triage_proposal_unapprovable show_id "ann" 20 triage_db 3 7 (some "customer_id") is_mapped 8
      "bob" 30 triage_db-IsSound not_default
