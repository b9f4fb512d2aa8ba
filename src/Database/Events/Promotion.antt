-- ===== src/Database/Events/Promotion.antt =====
-- database/repository.py: the promotion of an event that a model has healed.
use healpipe.Prelude.{String, true, Option, some, ◌≡◌, refl, inl, inr, arith, Option-cases, nat_eq}
use healpipe.Prelude.Table.{find}
use healpipe.Prelude.Dict.{Dict}
use healpipe.Database.Schema.{Uuid, EventStatus, HealingEventRecord, AiTelemetry}
use healpipe.Database.Schema.Json.{Payload}
use healpipe.Database.State.{Db, ok}
use healpipe.Database.Events.{promote_ai_healing, update_event_reason, has_event_id, is_uncertain}

pub promote_ai_healing-jobs :
    (i : Uuid) (healed : Payload) (mappings : Dict String) (reason : String)
    (telemetry : Option AiTelemetry) (b : Option Uuid) (db : Db)
    → (promote_ai_healing i healed mappings reason telemetry b db).1.delivery_jobs
      ≡ db.delivery_jobs
unfolding promote_ai_healing
promote_ai_healing-jobs i healed mappings reason telemetry b db = ground arith

pub update_event_reason-jobs :
    (i : Uuid) (reason : String) (db : Db)
    → (update_event_reason i reason db).delivery_jobs ≡ db.delivery_jobs
unfolding update_event_reason
update_event_reason-jobs i reason db = ground arith

is_uncertain-eq : (st : EventStatus) → is_uncertain st ≡ true → st ≡ EventStatus.uncertain
is_uncertain-eq EventStatus.uncertain h = refl
is_uncertain-eq EventStatus.validated h = cc
is_uncertain-eq EventStatus.healed h = cc
is_uncertain-eq EventStatus.rejected h = cc
is_uncertain-eq EventStatus.delivery_failed h = cc
is_uncertain-eq EventStatus.dropped h = cc
is_uncertain-eq EventStatus.idempotency_blocked h = cc

-- A promotion in a database that is configured succeeds only for an uncertain event of the bridge.
pub promote_ai_healing_sound :
    (i : Uuid) (healed : Payload) (mappings : Dict String) (reason : String)
    (telemetry : Option AiTelemetry) (b : Uuid) (db : Db)
    → db.configured ≡ true
    → (promote_ai_healing i healed mappings reason telemetry (some b) db).0 ≡ ok tt
    → (e : HealingEventRecord) × (find (has_event_id i) db.healing_events ≡ some e)
      × (e.bridge_id ≡ b)
      × (e.status ≡ EventStatus.uncertain)
unfolding promote_ai_healing
promote_ai_healing_sound i healed mappings reason telemetry b db c h =
    elim (Option-cases (find (has_event_id i) db.healing_events)) [
      | inl f ↦ absurd (ground arith)
      | inr (e, f) ↦ (e, f, ground arith, is_uncertain-eq e.status (ground arith))
    ]
