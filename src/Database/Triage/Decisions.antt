-- ===== src/Database/Triage/Decisions.antt =====
-- What a triage decision does, and what it leaves.
use healpipe.Prelude.{
  String, true, false, Option, none, some, [], ◌∷◌, ◌≡◌, refl, nat_eq, string_eq, contains, arith,
  inl, inr, Bool-cases, Option-cases,
}
use healpipe.Prelude.Table.{find, update_where}
use healpipe.Prelude.Dict.{has_key}
use healpipe.Database.Schema.{Uuid, Time, HealingEventRecord}
use healpipe.Database.Schema.Json.{Payload}
use healpipe.Database.State.{Db, Error, ok, err}
use healpipe.Database.Events.{has_event_id, is_uncertain}
use healpipe.Database.Triage.{
  Action, TriageResult, mapped, allowed_keys, is_event_of, source_keys, healed_by, heal_event,
  triage_proposal, map_event, resolve_triage_event,
}

module _ (show : Uuid → String) (actor : String) (now : Time) (db : Db) where
  map_event-err :
      (e : HealingEventRecord) (target : Option String) (x : Error)
      → (map_event show e target actor now db).0 ≡ err x
      → (map_event show e target actor now db).1 ≡ db
  unfolding map_event
  map_event-err e none x h = refl
  map_event-err e (some target) x h = ground arith

  -- A triage call that raises has changed nothing in the database.
  pub triage_error_unchanged :
      (event : Uuid) (action : Action) (target : Option String) (account : Uuid) (x : Error)
      → (resolve_triage_event show event action target actor account now db).0 ≡ err x
      → (resolve_triage_event show event action target actor account now db).1 ≡ db
  unfolding resolve_triage_event
  triage_error_unchanged event Action.drop target account x h = ground arith
  triage_error_unchanged event Action.map target account x h =
      elim (Option-cases (find (is_event_of event account) db.healing_events)) [
        | inl missing ↦ ground (arith, missing)
        | inr (e, found) ↦ ground (arith, found, map_event-err e target x)
      ]

  pub map_event-ok :
      (e : HealingEventRecord) (target_key : Option String) {event : Uuid} {healed : Payload}
      {source target : String} {b : Uuid}
      → (map_event show e target_key actor now db).0 ≡ ok (mapped event healed source target b)
      → (target_key ≡ some target)
        × (contains target allowed_keys ≡ true)
        × (source_keys e.raw_payload ≡ source ∷ [])
        × (has_key target e.healed_payload ≡ false)
        × (healed ≡ healed_by e source target)
        × (e.bridge_id ≡ b)
        × ((map_event show e target_key actor now db).1
            ≡ triage_proposal show e source target actor now (record db {
              healing_events =
                  update_where
                    (has_event_id e.event_id)
                    (heal_event source target healed)
                    db.healing_events;
            }))
  unfolding map_event
  map_event-ok e none h = absurd (ground arith)
  map_event-ok e (some t) {event} {healed} {source} {target} {b} h = ground arith

  pub resolve-ok :
      (event account : Uuid) (target_key : Option String) {r : TriageResult}
      → (resolve_triage_event show event Action.map target_key actor account now db).0 ≡ ok r
      → (e : HealingEventRecord) × (find (is_event_of event account) db.healing_events ≡ some e)
        × (is_uncertain e.status ≡ true)
        × (resolve_triage_event show event Action.map target_key actor account now db
            ≡ map_event show e target_key actor now db)
  unfolding resolve_triage_event
  resolve-ok event account target_key {r} h = elim (Bool-cases db.configured) [
    | inr off ↦ absurd (ground (arith, off))
    | inl on ↦ elim (Option-cases (find (is_event_of event account) db.healing_events)) [
      | inl missing ↦ absurd (ground (arith, on, missing))
      | inr (e, found) ↦ elim (Bool-cases (is_uncertain e.status)) [
        | inr settled ↦ absurd (ground (arith, on, found, settled))
        | inl waits ↦ (e, found, waits, simp on (rw (found, waits)))
      ]
    ]
  ]
