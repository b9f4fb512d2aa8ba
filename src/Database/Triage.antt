-- ===== src/Database/Triage.antt =====
-- database/repository.py: `resolve_triage_event`, an operator's decision on an uncertain event.
pub mod Decisions
pub mod Mapping
mod Tests
use healpipe.Prelude.{
  ℕ, suc, String, ◌<>◌, Bool, true, false, not, ◌&&◌, Option, none, some, List, [], ◌∷◌, ◌==◌,
  nat_eq, string_eq, if◌then◌else◌, contains,
}
use healpipe.Prelude.Table.{find, update_where, select}
use healpipe.Prelude.Dict.{Dict, get, put, remove, keys, has_key}
use healpipe.Database.Schema.{Uuid, Time, HealingEventRecord, EventStatus, default_account_id}
use healpipe.Database.Schema.Json.{Value, Payload}
use healpipe.Database.State.{Db, Result, ok, err, runtime_error, lookup_error, value_error}
use healpipe.Database.Mapping.{proposal, add_mapping_rule}
use healpipe.Database.Events.{has_event_id, is_uncertain}

pub data Action : Type 0 where
  map drop : Action

abbrev pub allowed_keys : List String
allowed_keys = "customer_id" ∷ "email_address" ∷ "stock_count" ∷ []

-- What the call returns: the id and status for a drop, and the healed payload, the mapping and the
-- bridge for a map.
pub data TriageResult : Type 0 where
  dropped : Uuid → TriageResult
  mapped : Uuid → Payload → String → String → Uuid → TriageResult

abbrev pub is_event_of : Uuid → Uuid → HealingEventRecord → Bool
is_event_of event account e = e.event_id == event && e.account_id == account

-- `[key for key in event.raw_payload if key not in allowed_keys]`
abbrev pub source_keys : Payload → List String
source_keys raw = select (λ k. not (contains k allowed_keys)) (keys raw)

-- `payload.get(key, default)`
abbrev pub value_at : String → Value → Payload → Value
value_at key default p = elim (get key p) [ none ↦ default | some v ↦ v ]

-- `payload[target] = payload.pop(source, default)`
abbrev pub move_key : String → String → Value → Payload → Payload
move_key source target default p = put target (value_at source default p) (remove source p)

abbrev pub drop_event : HealingEventRecord → HealingEventRecord
drop_event e = record e {
  status = EventStatus.dropped;
  reason = some "Manually dropped from triage by an operator";
}

abbrev pub heal_event : String → String → Payload → HealingEventRecord → HealingEventRecord
heal_event source target healed e = record e {
  status = EventStatus.healed;
  healed_payload = healed;
  key_mappings = put source target e.key_mappings;
  reason = some ("Manually mapped " <> (source <> (" to " <> target)));
}

-- The rule is inserted without an account, so the column takes its default.
abbrev pub triage_proposal :
    (show : Uuid → String) → HealingEventRecord → String → String → String → Time → Db → Db
triage_proposal show e source target actor now db =
    add_mapping_rule
      (proposal default_account_id e.bridge_id source target actor
        (some ("Manual triage proposal for event " <> show e.event_id)) now db)
      db

-- The source key is one of the raw payload, so the inner default is never taken.
abbrev pub healed_by : HealingEventRecord → String → String → Payload
healed_by e source target =
    move_key source target (value_at source Value.null e.raw_payload) e.healed_payload

-- The part after the checks on the event: the chosen key against the payload.
unfoldable pub map_event :
    (show : Uuid → String)
    → HealingEventRecord
    → Option String
    → String
    → Time
    → Db
    → Result TriageResult × Db
map_event show e none actor now db =
    (err (value_error "target_key must be customer_id, email_address, or stock_count"), db)
map_event show e (some target) actor now db =
    if contains target allowed_keys
    then elim (source_keys e.raw_payload) [
      | [] ↦ (err (value_error "The event must contain exactly one unrecognized field"), db)
      | source ∷ more ↦ elim more [
        | _ ∷ _ ↦ (err (value_error "The event must contain exactly one unrecognized field"), db)
        | [] ↦
            if has_key target e.healed_payload
            then (err (value_error "The selected target field already exists in the payload"), db)
            else let healed = healed_by e source target in
              (
                ok (mapped e.event_id healed source target e.bridge_id),
                triage_proposal show e source target actor now (record db {
                  healing_events =
                      update_where (has_event_id e.event_id) (heal_event source target healed)
                        db.healing_events;
                }),
              )
      ]
    ]
    else (err (value_error "target_key must be customer_id, email_address, or stock_count"), db)

unfoldable pub resolve_triage_event :
    (show : Uuid → String)
    → Uuid
    → Action
    → Option String
    → String
    → Uuid
    → Time
    → Db
    → Result TriageResult × Db
resolve_triage_event show event action target_key actor account now db =
    if db.configured
    then elim (find (is_event_of event account) db.healing_events) [
      | none ↦ (err (lookup_error "Event was not found"), db)
      | some e ↦
          if is_uncertain e.status
          then elim action [
            | drop ↦ (
              ok (dropped event),
              record db {
                healing_events =
                    update_where (has_event_id e.event_id) drop_event db.healing_events;
              },
            )
            | map ↦ map_event show e target_key actor now db
          ]
          else (err (value_error "Only uncertain events can be resolved through triage"), db)
    ]
    else (err (runtime_error "DATABASE_URL is not configured"), db)
