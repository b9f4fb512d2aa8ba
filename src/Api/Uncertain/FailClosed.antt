-- ===== src/Api/Uncertain/FailClosed.antt =====
-- main.py: what `resolve_and_forward_uncertain` forwards.
use healpipe.Prelude.{
  String, Bool, true, false, none, some, [], ◌∷◌, ◌++◌, string_eq, nat_eq, if◌then◌else◌, contains,
  ◌≡◌, refl, sym, subst, ap, ◌∙◌, ◌⊎◌, inl, inr, arith, Bool-cases, Option-cases,
}
use healpipe.Prelude.Table.{find}
use healpipe.Prelude.Dict.{get, put, has_key}
use healpipe.Database.Schema.{EventStatus, HealingEventRecord, DeliveryJob}
use healpipe.Database.Schema.Json.{Value, Payload}
use healpipe.Database.State.{Db, Result, Error, ok, err, Result-cases}
use healpipe.Database.Events.{promote_ai_healing, has_event_id}
use healpipe.Database.Jobs.{create_delivery_job, new_job, add_job}
use healpipe.Database.Events.Promotion.{
  promote_ai_healing-jobs, update_event_reason-jobs, promote_ai_healing_sound,
}
use healpipe.Matching.Persisted.{move}
use healpipe.Python.{score_leb, score_ltb}
use healpipe.Services.SchemaResolution.{
  Claude, Resolution, read_answer, resolve_ambiguous_schema, valid_destination_keys,
}
use healpipe.Worker.Pool.{enqueue_delivery}
use healpipe.Api.State.{Api, Setting}
use healpipe.Api.Receive.{queued_job}
use healpipe.Api.Uncertain.{
  Print, Parked, forward_threshold, claude_reason, forward, promote_and_forward, decide, handled,
  resolve_and_forward_uncertain,
}

if_ok :
    {A : Type 0} (b : Bool) (a c : A) (e : Error)
    → (if b then ok a else err e) ≡ ok c
    → (b ≡ true) × (a ≡ c)
if_ok true a c e h = (refl, cc h)
if_ok false a c e h = cc h

read_answer_valid :
    (claude : Claude) (text : String) (r : Resolution)
    → read_answer claude text ≡ ok r
    → contains r.mapped_key valid_destination_keys ≡ true
unfolding read_answer
read_answer_valid claude text r h = elim (Option-cases (claude.parse text)) [
  | inl e ↦ absurd (ground arith)
  | inr (found, e) ↦
      let read = if_ok _ _ _ _ (rw (read_answer, e) at h) in
      subst (λ (k : String). contains k valid_destination_keys ≡ true)
        (ap (λ (a : Resolution). a.mapped_key) read.1) read.0
]

resolution_is_valid :
    (claude : Claude) (raw : Payload) (key : String) (r : Resolution)
    → resolve_ambiguous_schema claude raw key ≡ ok r
    → contains r.mapped_key valid_destination_keys ≡ true
unfolding resolve_ambiguous_schema
resolution_is_valid claude raw key r h = elim (Result-cases (claude.answer raw key)) [
  | inr (fault, e) ↦ absurd (ground arith)
  | inl (text, e) ↦ read_answer_valid claude text r (ground arith)
]

-- Nothing is made ready for delivery.
abbrev pub Holds : Api → Api → Type 0
Holds before after = (after.db.delivery_jobs ≡ before.db.delivery_jobs) × (after.pool ≡ before.pool)

-- The event is parked, the decision is sure enough and names a field that is free, and the one job
-- has the payload in which the value of the uncertain key has moved to that field.
abbrev pub Forwards : Setting → Parked → Resolution → Api → Api → Type 0
Forwards s p r before after =
    (e : HealingEventRecord) × (value : Value) × (job : DeliveryJob) × (find
        (has_event_id p.event_id) before.db.healing_events
      ≡ some e)
    × (e.bridge_id ≡ p.bridge_id)
    × (e.status ≡ EventStatus.uncertain)
    × (score_leb forward_threshold r.confidence ≡ true)
    × (has_key r.mapped_key p.healed_payload ≡ false)
    × (get p.uncertain_key p.healed_payload ≡ some value)
    × (after.db.delivery_jobs ≡ before.db.delivery_jobs ++ job ∷ [])
    × (after.pool ≡ enqueue_delivery s.api_role (queued_job job) before.pool)
    × (job.body ≡ move p.uncertain_key r.mapped_key value p.healed_payload)
    × (job.event_id ≡ p.event_id)
    × (job.target_url ≡ p.target_url)
    × (job.account_id ≡ p.account_id)

handled_ok :
    (print : Print) (p : Parked) (out : Result (Unit {0}) × Api)
    → out.0 ≡ ok tt
    → handled print p out ≡ out.1
handled_ok print p (ok _, api) h = refl
handled_ok print p (err e, api) h = cc h

handled-Holds :
    (print : Print) (p : Parked) (before : Api) (out : Result (Unit {0}) × Api)
    → Holds before out.1
    → Holds before (handled print p out)
handled-Holds print p before (ok _, api) h = h
handled-Holds print p before (err e, api) h =
    (update_event_reason-jobs p.event_id _ api.db ∙ h.0, h.1)

forward-Holds :
    (s : Setting) (p : Parked) (payload : Payload) (api : Api)
    → api.db.configured ≡ false
    → Holds api (forward s p payload api).1
unfolding forward create_delivery_job
forward-Holds s p payload api c = ground arith

abbrev job_for : Setting → Parked → Payload → Db → DeliveryJob
job_for s p payload db =
    new_job db.next_id p.event_id p.bridge_id payload p.target_url none s.now p.account_id

forward_lem :
    (s : Setting) (p : Parked) (payload : Payload) (api : Api)
    → api.db.configured ≡ true
    → forward s p payload api ≡ (
      ok tt,
      record api {
        db = add_job (job_for s p payload api.db) api.db;
        pool = enqueue_delivery s.api_role (queued_job (job_for s p payload api.db)) api.pool;
      },
    )
unfolding forward create_delivery_job
forward_lem s p payload api c = rw c refl

module _ (s : Setting) (print : Print) (p : Parked) (r : Resolution) (api : Api) where
  abbrev corrected : Value → Payload
  corrected value = move p.uncertain_key r.mapped_key value p.healed_payload

  abbrev promoted : Value → Result (Unit {0}) × Db
  promoted value =
      promote_ai_healing p.event_id (corrected value)
        (put p.uncertain_key r.mapped_key p.key_mappings) (claude_reason print p r)
        (some r.telemetry) (some p.bridge_id) api.db

  promoted-jobs : (value : Value) → (promoted value).1.delivery_jobs ≡ api.db.delivery_jobs
  promoted-jobs value = promote_ai_healing-jobs p.event_id (corrected value) _ _ _ _ api.db

  promoted-configured : (value : Value) → (promoted value).1.configured ≡ api.db.configured
  unfolding promote_ai_healing
  promoted-configured value = ground arith

  promote_and_forward_lem :
      (value : Value)
      → get p.uncertain_key p.healed_payload ≡ some value
      → score_leb forward_threshold r.confidence ≡ true
      → has_key r.mapped_key p.healed_payload ≡ false
      → let out = promote_and_forward s print p r (corrected value) api in
        Holds api out.1 ⊎ ((out.0 ≡ ok tt) × Forwards s p r api out.1)
  promote_and_forward_lem value g sure free = elim (Result-cases (promoted value).0) [
    | inr (e, f) ↦ inl (rw (promote_and_forward, f) (promoted-jobs value, refl))
    | inl (_, f) ↦
        let next : Api = record api { db = (promoted value).1 } in
        let q : promote_and_forward s print p r (corrected value) api
            ≡ forward s p (corrected value) next =
          rw (promote_and_forward, f) refl in
        elim (Bool-cases api.db.configured) [
          | inr c ↦
              let kept = forward-Holds s p (corrected value) next (promoted-configured value ∙ c) in
              inl (rw q (kept.0 ∙ promoted-jobs value, kept.1))
          | inl c ↦
              let (e, found, same, parked) =
                promote_ai_healing_sound p.event_id (corrected value) _ _ _ p.bridge_id api.db c
                  f in
              let job = job_for s p (corrected value) next.db in
              inr (
                rw q (
                  rw (forward_lem s p (corrected value) next (promoted-configured value ∙ c)) (
                    refl,
                    (
                      e,
                      value,
                      job,
                      found,
                      same,
                      parked,
                      sure,
                      free,
                      g,
                      ap (λ jobs. jobs ++ job ∷ []) (promoted-jobs value),
                      refl,
                      refl,
                      refl,
                      refl,
                      refl,
                    ),
                  )))
        ]
  ]

  decide_lem :
      Holds api (decide s print p r api).1
      ⊎ (((decide s print p r api).0 ≡ ok tt) × Forwards s p r api (decide s print p r api).1)
  unfolding decide
  decide_lem = elim (Bool-cases (score_ltb r.confidence forward_threshold)) [
    | inl low ↦ inl (rw (decide, low) (refl, refl))
    | inr high ↦ elim (Bool-cases (has_key r.mapped_key p.healed_payload)) [
      | inl taken ↦ inl (rw (decide, high) (rw taken (refl, refl)))
      | inr free ↦ elim (Option-cases (get p.uncertain_key p.healed_payload)) [
        | inl gone ↦ inl (rw (decide, high) (rw free (rw gone (refl, refl))))
        | inr (value, g) ↦
            let q : decide s print p r api ≡ promote_and_forward s print p r (corrected value) api =
              rw (decide, high) (rw free (rw g refl)) in
            subst (λ out. Holds api out.1 ⊎ ((out.0 ≡ ok tt) × Forwards s p r api out.1)) (sym q)
              (promote_and_forward_lem value g (ground arith) free)
      ]
    ]
  ]

module _ (s : Setting) (print : Print) (claude : Claude) (p : Parked) (api : Api) where
  -- Whatever the model answers or the client raises, either no job is stored and none is queued; or
  -- the answer was read and names one of the five destination fields, which the payload does not
  -- have yet, with a confidence of at least 0.85, the event is an uncertain one of the bridge, and
  -- there is one new job, stored and queued, with the value of the key in question under this
  -- field and everything else as it was.
  pub forwarded_on_decision :
      Holds api (resolve_and_forward_uncertain s print claude p api)
      ⊎ ((r : Resolution) × (resolve_ambiguous_schema claude p.raw_payload p.uncertain_key ≡ ok r)
          × (contains r.mapped_key valid_destination_keys ≡ true)
          × Forwards s p r api (resolve_and_forward_uncertain s print claude p api))
  unfolding resolve_and_forward_uncertain
  forwarded_on_decision =
      elim (Result-cases (resolve_ambiguous_schema claude p.raw_payload p.uncertain_key)) [
        | inr (e, f) ↦ inl (
            rw (resolve_and_forward_uncertain, f)
              (handled-Holds print p api (err e, api) (refl, refl)))
        | inl (r, f) ↦
            let q : resolve_and_forward_uncertain s print claude p api
                ≡ handled print p (decide s print p r api) =
              rw (resolve_and_forward_uncertain, f) refl in
            elim (decide_lem s print p r api) [
              | inl held ↦ inl (subst (Holds api) (sym q) (handled-Holds print p api _ held))
              | inr (done, forwards) ↦
                  let whole : handled print p (decide s print p r api)
                      ≡ (decide s print p r api).1 =
                    handled_ok print p (decide s print p r api) done in
                  inr (
                    r,
                    f,
                    resolution_is_valid claude _ _ r f,
                    subst (Forwards s p r api) (sym (q ∙ whole)) forwards,
                  )
            ]
      ]
