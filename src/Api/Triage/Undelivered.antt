-- ===== src/Api/Triage/Undelivered.antt =====
-- main.py: a decision on an event whose bridge has been deactivated since.
use healpipe.Prelude.{
  String, true, false, Option, some, nat_eq, ◌≡◌, refl, sym, ap, ◌∙◌, arith, ==_refl,
}
use healpipe.Prelude.Table.{find, find-update_where}
use healpipe.Database.Schema.{Uuid, Time, EventStatus, HealingEventRecord}
use healpipe.Database.Schema.Json.{Payload}
use healpipe.Database.State.{Db, Error, ok, err, value_error, http_exception}
use healpipe.Database.Events.{has_event_id, is_uncertain}
use healpipe.Database.Triage.{Action, mapped, is_event_of, heal_event, resolve_triage_event}
use healpipe.Database.Triage.Decisions.{resolve-ok, map_event-ok}
use healpipe.Api.State.{Api, Request, Setting}
use healpipe.Api.Access.{require_bridge_account}
use healpipe.Api.Triage.{TriageRequest, decide_triage}

abbrev pub map_request : Uuid → Option String → TriageRequest
map_request event target_key = record {
  event_id = event;
  target_key = target_key;
  action = Action.map;
}

-- An event that is healed is not up for a decision.
settled_is_refused :
    (show : Uuid → String) (event account : Uuid) (action : Action) (target_key : Option String)
    (actor : String) (now : Time) (db : Db) (e : HealingEventRecord)
    → db.configured ≡ true
    → find (is_event_of event account) db.healing_events ≡ some e
    → is_uncertain e.status ≡ false
    → (resolve_triage_event show event action target_key actor account now db).0
      ≡ err (value_error "Only uncertain events can be resolved through triage")
unfolding resolve_triage_event
settled_is_refused show event account action target_key actor now db e c found settled =
    simp c (rw (found, settled) refl)

resolve_configured :
    (show : Uuid → String) (event account : Uuid) (target_key : Option String) (actor : String)
    (now : Time) (db : Db) {i b : Uuid} {healed : Payload} {source target : String}
    → (resolve_triage_event show event Action.map target_key actor account now db).0
      ≡ ok (mapped i healed source target b)
    → db.configured ≡ true
unfolding resolve_triage_event
resolve_configured show event account target_key actor now db h = ground arith

module _ (s : Setting) (request : Request) (event account : Uuid) (target_key : Option String)
    (actor : String) (api : Api) {i b : Uuid} {healed : Payload} {source target : String}
    (done : (resolve_triage_event s.show event Action.map target_key actor account s.now api.db).0
      ≡ ok (mapped i healed source target b)) where
  abbrev pub decided : Db
  decided = (resolve_triage_event s.show event Action.map target_key actor account s.now api.db).1

  decided_lem :
      (decided.configured ≡ true)
      × (decided.delivery_jobs ≡ api.db.delivery_jobs)
      × (e : HealingEventRecord) × (find (is_event_of event account) decided.healing_events
          ≡ some (heal_event source target healed e))
  decided_lem =
      let (e, found, waits, same) =
        resolve-ok s.show actor s.now api.db event account target_key done in
      let (_, allowed, only, free, made, _, result) =
        map_event-ok s.show actor s.now api.db e target_key (ap (λ r. r.0) (sym same) ∙ done) in
      let after = ap (λ r. r.1) same ∙ result in
      let on = resolve_configured s.show event account target_key actor s.now api.db done in
      let own : has_event_id e.event_id e ≡ true = ==_refl e.event_id in
      (
        ap (λ (db : Db). db.configured) after ∙ on,
        ap (λ (db : Db). db.delivery_jobs) after,
        e,
        ap (λ (db : Db). find (is_event_of event account) db.healing_events) after
            ∙ (find-update_where (is_event_of event account) (has_event_id e.event_id)
                  (heal_event source target healed) api.db.healing_events (λ x h. refl)
                ∙ rw found (rw own refl)),
      )

  -- Where the decision to map an event succeeds and the check of its bridge then refuses the
  -- request, because the bridge is no longer active or for any other reason, the answer is that
  -- error and there is no job; but the event is already stored as healed, so every later decision
  -- of the account on it is answered by 400 and its payload can no longer be delivered this way.
  pub triage_heals_undelivered :
      (e : Error)
      → require_bridge_account s request b (some "events:write") decided ≡ err e
      → let first = decide_triage s request (map_request event target_key) account actor api in
        (first.0 ≡ err e)
        × (first.1.db.delivery_jobs ≡ api.db.delivery_jobs)
        × (first.1.pool ≡ api.pool)
        × ((h : HealingEventRecord) × (find (is_event_of event account) first.1.db.healing_events
              ≡ some h)
            × (h.status ≡ EventStatus.healed)
            × (h.healed_payload ≡ healed))
        × ((action : Action) (key : Option String) (who : String)
            → (decide_triage s request
                (record { event_id = event; target_key = key; action = action })
                account
                who
                first.1).0
              ≡ err (http_exception 400 "Only uncertain events can be resolved through triage"))
  triage_heals_undelivered e refused =
      let (on, jobs, h, found) = decided_lem in
      let q : decide_triage s request (map_request event target_key) account actor api
          ≡ (err e, record api { db = decided }) =
        rw (decide_triage, done) (rw refused refl) in
      rw q (
        refl,
        jobs,
        refl,
        (heal_event source target healed h, found, refl, refl),
        λ action key who.
            rw
              (
                decide_triage,
                settled_is_refused s.show event account action key who s.now decided
                    (heal_event source target healed h) on found refl,
              )
              refl,
      )
