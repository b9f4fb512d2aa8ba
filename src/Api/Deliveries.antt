-- ===== src/Api/Deliveries.antt =====
-- main.py: the routes that replay delivery jobs.
use healpipe.Prelude.{ℕ, String, ◌<>◌, Bool, true, false, Option, none, some, List, [], ◌∷◌, length}
use healpipe.Prelude.Table.{count_where}
use healpipe.Database.Schema.{Uuid, Time, Role, DeliveryJob, LifecycleState}
use healpipe.Database.Schema.Json.{Payload}
use healpipe.Database.State.{ok, err, http_exception}
use healpipe.Database.Jobs.{
  get_delivery_job, replay_delivery_job, list_replayable_jobs, ReplayStatus,
}
use healpipe.Database.Ledger.{append_job_lifecycle}
use healpipe.Worker.Delivery.{Job}
use healpipe.Worker.Pool.{enqueue_delivery}
use healpipe.Api.State.{Api, Route, Request, Setting, check}
use healpipe.Api.Access.{request_account, require_role, require_bridge_account}

abbrev pub operators : List Role
operators = Role.owner ∷ Role.admin ∷ Role.operator ∷ []

-- A replay is queued with the key of its job, and marked.
abbrev pub replay_entry : DeliveryJob → Job
replay_entry job = record {
  job_id = job.job_id;
  event_id = job.event_id;
  body = job.body;
  target_url = job.target_url;
  bridge_id = job.bridge_id;
  idempotency_key = job.idempotency_key;
  is_replay = true;
}

-- The entry "replayed" of a new job, and its place in the queue.
unfoldable pub queue_replay : Setting → (reason : String) → DeliveryJob → Api → Api
queue_replay s reason job api = record api {
  db = append_job_lifecycle job.job_id LifecycleState.replayed none (some reason) none s.now api.db;
  pool = enqueue_delivery s.api_role (replay_entry job) api.pool;
}

abbrev pub replay_original : Setting → Uuid → Route Uuid
replay_original s job_id api =
    let (replayed, db) = replay_delivery_job s.show job_id s.now api.db in
    elim replayed [
      | none ↦ (
        err (http_exception 404 "Delivery job was not found or is not replayable"),
        record api { db = db },
      )
      | some job ↦ (
        ok job.job_id,
        queue_replay s ("Replay requested for delivery job " <> s.show job_id) job
            (record api { db = db }),
      )
    ]

unfoldable pub replay_delivery : Setting → Request → Uuid → Route Uuid
replay_delivery s request job_id api =
    check (require_role s request operators api.db)
      (λ _ api. elim (get_delivery_job job_id api.db) [
        | none ↦ (err (http_exception 404 "Delivery job was not found"), api)
        | some original ↦
            check
              (require_bridge_account s request original.bridge_id (some "deliveries:replay")
                api.db)
              (λ _ api. replay_original s job_id api) api
      ])
      api

pub record ReplayBatchRequest : Type 0 where
  pub bridge_id : Uuid
  pub from_timestamp : Option Time
  pub to_timestamp : Option Time
  pub status : ReplayStatus
  pub payload_override : Option Payload
  pub target_url_override : Option String

-- What the answer says of one job.
pub data ReplayResult : Type 0 where
  skipped : Uuid → ReplayResult
  queued : Uuid → (replay_job_id : Uuid) → ReplayResult

-- The assignments to `replay`. The job belongs to the session of `replay_delivery_job`, which is
-- closed, so the commit of the other session stores neither.
abbrev pub override : ReplayBatchRequest → DeliveryJob → DeliveryJob
override r job = record job {
  body = elim r.payload_override [ none ↦ job.body | some p ↦ p ];
  target_url = elim r.target_url_override [ none ↦ job.target_url | some u ↦ u ];
}

-- One round of the loop.
unfoldable pub replay_one :
    Setting → (actor : String) → ReplayBatchRequest → DeliveryJob → Api → ReplayResult × Api
replay_one s actor r original api =
    let (replayed, db) = replay_delivery_job s.show original.job_id s.now api.db in
    elim replayed [
      | none ↦ (skipped original.job_id, record api { db = db })
      | some job ↦ (
        queued original.job_id job.job_id,
        queue_replay s ("Batch replay requested by " <> actor) (override r job)
            (record api { db = db }),
      )
    ]

unfoldable pub replay_all :
    Setting
    → (actor : String) → ReplayBatchRequest
    → List DeliveryJob
    → Api
    → List ReplayResult × Api
replay_all s actor r [] api = ([], api)
replay_all s actor r (job ∷ jobs) api =
    let (result, api) = replay_one s actor r job api in
    let (results, api) = replay_all s actor r jobs api in (result ∷ results, api)

abbrev pub is_queued : ReplayResult → Bool
is_queued (skipped _) = false
is_queued (queued _ _) = true

pub record ReplayAnswer : Type 0 where
  pub requested : ℕ
  pub queued_count : ℕ
  pub results : List ReplayResult

-- The default of `limit` in `list_replayable_jobs`.
abbrev pub replay_limit : ℕ
replay_limit = 500

abbrev pub replay_listed :
    Setting → (account : Uuid) → (actor : String) → ReplayBatchRequest → Route ReplayAnswer
replay_listed s account actor r api =
    let jobs =
      list_replayable_jobs account r.bridge_id r.status r.from_timestamp r.to_timestamp replay_limit
        api.db in
    let (results, api) = replay_all s actor r jobs api in
    (
      ok (record {
        requested = length jobs;
        queued_count = count_where is_queued results;
        results = results;
      }),
      api,
    )

unfoldable pub replay_delivery_batch : Setting → Request → ReplayBatchRequest → Route ReplayAnswer
replay_delivery_batch s request r api =
    check (require_role s request operators api.db)
      (λ who api.
        check (request_account s request (some "deliveries:replay") api.db)
          (λ _ api.
            check (require_bridge_account s request r.bridge_id (some "deliveries:replay") api.db)
              (λ _ api. replay_listed s who.0 who.1 r api) api)
          api)
      api
