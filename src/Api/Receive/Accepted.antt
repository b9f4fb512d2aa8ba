-- ===== src/Api/Receive/Accepted.antt =====
-- main.py: which webhooks `receive_webhook` passes on, and what it leaves behind.
use healpipe.Prelude.{
  String, Bool, true, false, not, ◌&&◌, Option, none, some, List, [], ◌∷◌, ◌++◌, string_eq,
  contains, ◌≡◌, refl, ap, ◌∙◌, ◌⊎◌, inl, inr, arith, Bool-cases, All,
}
use healpipe.Prelude.Table.{select, All-map}
use healpipe.Prelude.Dict.{keys, has_key}
use healpipe.Database.Schema.{Uuid, Time, EventStatus, DeliveryJob, LifecycleState, ValidationError}
use healpipe.Database.State.{Db, Result, ok}
use healpipe.Database.Events.{persist_healing_event}
use healpipe.Database.Jobs.{create_delivery_job, new_job, add_job}
use healpipe.Database.Ledger.{append_event_lifecycle}
use healpipe.Matching.Keys.{default_match_threshold, key_confidence}
use healpipe.Python.{score_ltb, score_leb}
use healpipe.Worker.Pool.{enqueue_delivery}
use healpipe.Api.State.{Api, Setting, send_pipeline_alert, add_task}
use healpipe.Api.Receive.{
  record_event, missing_required, reject, uncertain_keys, queue_event, accept_as, accepted_status,
  park, queued_job, accept,
}
use healpipe.Api.Webhook.{Receipt, event_of, Healed, event_execution_log, fresh_id}

select-none :
    {A : Type 0} (p : A → Bool) (xs : List A) → select p xs ≡ [] → All (λ x. p x ≡ false) xs
unfolding select
select-none p [] h = tt
select-none p (x ∷ xs) h = elim (Bool-cases (p x)) [
  | inl e ↦ absurd (ground arith)
  | inr e ↦ (e, select-none p xs (ground arith))
]

-- Both required fields are there, and every key is expected or resembles an expected one enough.
abbrev pub IsTrusted : Setting → Healed → Type 0
IsTrusted s h =
    (has_key "customer_id" h.healed ≡ true)
    × (has_key "email_address" h.healed ≡ true)
    × All
        (λ key.
          (contains key h.expected ≡ true)
          ⊎ (score_leb default_match_threshold (key_confidence s.text key h.expected) ≡ true))
        (keys h.healed)

none-select :
    {A : Type 0} (p : A → Bool) (xs : List A) → All (λ x. p x ≡ false) xs → select p xs ≡ []
unfolding select
none-select p [] h = refl
none-select p (x ∷ xs) h = rw h.0 (none-select p xs h.1)

module _ (s : Setting) (h : Healed) where
  abbrev IsSure : String → Type 0
  IsSure key =
      (contains key h.expected ≡ true)
      ⊎ (score_leb default_match_threshold (key_confidence s.text key h.expected) ≡ true)

  abbrev is_doubtful : String → Bool
  is_doubtful key =
      not (contains key h.expected)
      && score_ltb (key_confidence s.text key h.expected) default_match_threshold

  clear-IsSure : (key : String) → is_doubtful key ≡ false → IsSure key
  clear-IsSure key e = elim (Bool-cases (contains key h.expected)) [
    | inl f ↦ inl f
    | inr f ↦ inr (ground arith)
  ]

  IsSure-clear : (key : String) → IsSure key → is_doubtful key ≡ false
  IsSure-clear key (inl e) = rw e refl
  IsSure-clear key (inr e) = ground arith

  pub no_gap-IsTrusted :
      missing_required h.healed ≡ [] → uncertain_keys s h.expected h.healed ≡ [] → IsTrusted s h
  unfolding uncertain_keys
  no_gap-IsTrusted m u =
      let there = select-none (λ field. not (has_key field h.healed)) _ m in
      (
        ground arith,
        ground arith,
        All-map (keys h.healed) clear-IsSure (select-none is_doubtful (keys h.healed) u),
      )

  pub IsTrusted-no_gap :
      IsTrusted s h → (missing_required h.healed ≡ []) × (uncertain_keys s h.expected h.healed ≡ [])
  unfolding uncertain_keys
  IsTrusted-no_gap t = (
    none-select (λ field. not (has_key field h.healed)) _ (ground arith, (ground arith, tt)),
    none-select is_doubtful (keys h.healed) (All-map (keys h.healed) IsSure-clear t.2),
  )

-- One event is stored, of the status and the payload that the receipt names, and for it one job to
-- the target and for the account of its bridge; the queue is given that job without its key.
abbrev pub Accepts : Setting → Healed → Api → Result Receipt × Api → Type 0
Accepts s h api out =
    (receipt : Receipt) × (job : DeliveryJob) × (out.0 ≡ ok receipt)
    × (receipt.code ≡ 200)
    × (receipt.body ≡ h.healed)
    × (out.1.db.healing_events
        ≡ api.db.healing_events ++ event_of s h receipt.event_id receipt.status none [] ∷ [])
    × (out.1.db.delivery_jobs ≡ api.db.delivery_jobs ++ job ∷ [])
    × (out.1.pool ≡ enqueue_delivery s.api_role (queued_job job) api.pool)
    × (job.event_id ≡ receipt.event_id)
    × (job.body ≡ h.healed)
    × (job.target_url ≡ h.bridge.target_endpoint_url)
    × (job.account_id ≡ h.bridge.account_id)
    × (job.idempotency_key ≡ h.key)

-- One event is stored, rejected or uncertain, and nothing is made ready for delivery.
abbrev pub Withholds : Setting → Healed → Api → Result Receipt × Api → Type 0
Withholds s h api out =
    (receipt : Receipt) × (errors : List ValidationError) × (out.0 ≡ ok receipt)
    × (((receipt.code ≡ 422) × (receipt.status ≡ EventStatus.rejected))
        ⊎ ((receipt.code ≡ 202) × (receipt.status ≡ EventStatus.uncertain)))
    × (out.1.db.healing_events
        ≡ api.db.healing_events
          ++ event_of s h receipt.event_id receipt.status receipt.reason errors ∷ [])
    × (out.1.db.delivery_jobs ≡ api.db.delivery_jobs)
    × (out.1.pool ≡ api.pool)

module _ (s : Setting) (h : Healed) where
  record_event_lem :
      (event : Uuid) (status : EventStatus) (state : LifecycleState) (reason : Option String)
      (errors : List ValidationError) (db : Db)
      → db.configured ≡ true
      → let after = record_event s h event status state reason errors db in
        (after.configured ≡ true)
        × (after.healing_events ≡ db.healing_events ++ event_of s h event status reason errors ∷ [])
        × (after.delivery_jobs ≡ db.delivery_jobs)
  unfolding record_event persist_healing_event append_event_lifecycle
  record_event_lem event status state reason errors db c = ground arith

  append_event_lifecycle_lem :
      (event b account : Uuid) (state : LifecycleState) (job : Option Uuid) (reason : Option String)
      (now : Time) (db : Db)
      → let after = append_event_lifecycle event b account state job reason now db in
        (after.healing_events ≡ db.healing_events) × (after.delivery_jobs ≡ db.delivery_jobs)
  unfolding append_event_lifecycle
  append_event_lifecycle_lem event b account state job reason now db = ground arith

  abbrev accepted_job : Uuid → Db → DeliveryJob
  accepted_job event db =
      new_job db.next_id event h.bridge.bridge_id h.healed h.bridge.target_endpoint_url h.key s.now
        h.bridge.account_id

  queue_event_lem :
      (event : Uuid) (status : EventStatus) (api : Api)
      → api.db.configured ≡ true
      → queue_event s h event status api ≡ (
        ok (record {
          code = 200;
          event_id = event;
          status = status;
          body = h.healed;
          key_mappings = h.mappings;
          reason = none;
        }),
        record api {
          db =
              append_event_lifecycle event h.bridge.bridge_id h.bridge.account_id
                LifecycleState.queued
                (some api.db.next_id)
                none
                s.now
                (add_job (accepted_job event api.db) api.db);
          pool = enqueue_delivery s.api_role (queued_job (accepted_job event api.db)) api.pool;
        },
      )
  unfolding queue_event create_delivery_job
  queue_event_lem event status api c = rw c refl

  accept_as-Accepts :
      (status : EventStatus) (state : LifecycleState) (detail : String) (api : Api)
      → api.db.configured ≡ true
      → Accepts s h api (accept_as s h status state detail api)
  unfolding accept_as
  accept_as-Accepts status state detail api c =
      let stored = record_event_lem api.db.next_id status state none [] (fresh_id api.db).1 c in
      let before = record_event s h api.db.next_id status state none [] (fresh_id api.db).1 in
      let job = accepted_job api.db.next_id before in
      let logged =
        append_event_lifecycle_lem api.db.next_id h.bridge.bridge_id h.bridge.account_id
          LifecycleState.queued (some before.next_id) none s.now (add_job job before) in
      let alert = send_pipeline_alert api.db.next_id status (event_execution_log s status detail) in
      let ready = add_task alert (record api { db = before }) in
      rw (queue_event_lem api.db.next_id status ready stored.0) (
        _,
        job,
        refl,
        refl,
        refl,
        logged.0 ∙ stored.1,
        logged.1 ∙ ap (λ jobs. jobs ++ job ∷ []) stored.2,
        refl,
        refl,
        refl,
        refl,
        refl,
        refl,
      )

  pub accept-Accepts : (api : Api) → api.db.configured ≡ true → Accepts s h api (accept s h api)
  unfolding accept
  accept-Accepts api c =
      let kind = accepted_status h.mappings in accept_as-Accepts kind.0 kind.1 kind.2 api c

  pub reject-Withholds :
      (missing : List String) (api : Api)
      → api.db.configured ≡ true
      → Withholds s h api (reject s h missing api)
  unfolding reject
  reject-Withholds missing api c =
      let stored =
        record_event_lem api.db.next_id EventStatus.rejected LifecycleState.rejected _ _
          (fresh_id api.db).1 c in
      (_, _, refl, inl (refl, refl), stored.1, stored.2, refl)

  pub park-Withholds :
      (first : String) (more : List String) (api : Api)
      → api.db.configured ≡ true
      → Withholds s h api (park s h first more api)
  unfolding park
  park-Withholds first more api c =
      let stored =
        record_event_lem api.db.next_id EventStatus.uncertain LifecycleState.uncertain _ _
          (fresh_id api.db).1 c in
      (_, _, refl, inr (refl, refl), stored.1, stored.2, refl)
