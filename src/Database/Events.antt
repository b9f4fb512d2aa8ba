-- ===== src/Database/Events.antt =====
-- database/repository.py: the healing events: storing one, and the later changes of its status.
pub mod Promotion
use healpipe.Prelude.{
  String, ◌<>◌, Bool, true, false, Option, none, some, [], ◌∷◌, ◌++◌, ◌==◌, nat_eq, if◌then◌else◌,
}
use healpipe.Prelude.Table.{find, update_where}
use healpipe.Prelude.Dict.{Dict}
use healpipe.Database.Schema.{
  Uuid, Time, HealingEventRecord, EventStatus, AiTelemetry, LifecycleState,
}
use healpipe.Database.Schema.Json.{Payload}
use healpipe.Database.State.{Db, Result, ok, err, lookup_error, value_error}
use healpipe.Database.Ledger.{entry, add_entry}

abbrev pub has_event_id : Uuid → HealingEventRecord → Bool
has_event_id i e = e.event_id == i

-- The arguments of `persist_healing_event`, of which `HealingEventRecord` is made.
abbrev pub add_event : HealingEventRecord → Db → Db
add_event e db = record db { healing_events = db.healing_events ++ e ∷ [] }

-- The event and its entry "received" are committed together.
unfoldable pub persist_healing_event : HealingEventRecord → Time → Db → Db
persist_healing_event e now db =
    if db.configured
    then add_entry
        (entry db.next_id e.event_id e.bridge_id e.account_id LifecycleState.received none none
          e.reason none now)
        (add_event e db)
    else db

abbrev pub set_status : EventStatus → String → HealingEventRecord → HealingEventRecord
set_status status reason e = record e { status = status; reason = some reason }

unfoldable pub mark_delivery_failed : Uuid → String → Db → Db
mark_delivery_failed event error_message db =
    if db.configured
    then record db {
      healing_events =
          update_where (has_event_id event) (set_status EventStatus.delivery_failed error_message)
            db.healing_events;
    }
    else db

unfoldable pub mark_idempotency_blocked : Uuid → String → Db → Db
mark_idempotency_blocked event idempotency_key db =
    if db.configured
    then record db {
      healing_events =
          update_where (has_event_id event)
            (set_status EventStatus.idempotency_blocked
              ("Duplicate delivery suppressed for idempotency key " <> idempotency_key))
            db.healing_events;
    }
    else db

unfoldable pub update_event_reason : Uuid → String → Db → Db
update_event_reason event reason db =
    if db.configured
    then record db {
      healing_events =
          update_where (has_event_id event) (λ e. record e { reason = some reason })
            db.healing_events;
    }
    else db

abbrev pub is_uncertain : EventStatus → Bool
is_uncertain EventStatus.uncertain = true
is_uncertain _ = false

abbrev pub ai_healed :
    Payload → Dict String → String → Option AiTelemetry → HealingEventRecord → HealingEventRecord
ai_healed healed_payload key_mappings reason telemetry e = record e {
  status = EventStatus.healed;
  healed_payload = healed_payload;
  key_mappings = key_mappings;
  ai_telemetry = telemetry;
  reason = some reason;
}

unfoldable pub promote_ai_healing :
    Uuid
    → Payload
    → Dict String
    → String
    → Option AiTelemetry
    → Option Uuid
    → Db
    → Result (Unit {0}) × Db
promote_ai_healing event healed_payload key_mappings reason telemetry b db =
    if db.configured
    then elim (find (has_event_id event) db.healing_events) [
      | none ↦ (err (lookup_error "Event was not found for this bridge"), db)
      | some e ↦
          if elim b [ none ↦ true | some i ↦ e.bridge_id == i ]
          then (if is_uncertain e.status
              then (
                ok tt,
                record db {
                  healing_events =
                      update_where (has_event_id event)
                        (ai_healed healed_payload key_mappings reason telemetry) db.healing_events;
                },
              )
              else (err (value_error "Only uncertain events can be AI-healed"), db))
          else (err (lookup_error "Event was not found for this bridge"), db)
    ]
    else (ok tt, db)
