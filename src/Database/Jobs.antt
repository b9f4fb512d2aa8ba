-- ===== src/Database/Jobs.antt =====
-- database/repository.py: the delivery jobs and their attempts.
pub mod Recovery
pub mod Replay
pub mod Lineage
mod Tests
use healpipe.Prelude.{
  ℕ, suc, ◌+◌, ◌-◌, ◌≡◌, String, ◌<>◌, Bool, true, false, ◌&&◌, ◌||◌, Option, none, some, List, [],
  ◌∷◌, ◌++◌, map, ◌==◌, nat_eq, leb, if◌then◌else◌,
}
use healpipe.Prelude.Table.{select, find, update_where, take, order_by}
use healpipe.Database.Schema.{
  Uuid, Time, DeliveryJob, JobStatus, DeliveryAttempt, AttemptStatus, LifecycleState,
  default_account_id,
}
use healpipe.Database.Schema.Json.{Payload}
use healpipe.Database.State.{Db}

abbrev pub has_job_id : Uuid → DeliveryJob → Bool
has_job_id i j = j.job_id == i

-- The columns that the schema fills in: queued, no attempt, due at once.
abbrev pub new_job :
    Uuid → Uuid → Uuid → Payload → String → Option String → Time → Uuid → DeliveryJob
new_job job_id event b body target_url key now account = record {
  job_id = job_id;
  account_id = account;
  original_job_id = none;
  replay_count = 0;
  event_id = event;
  bridge_id = b;
  body = body;
  target_url = target_url;
  idempotency_key = key;
  status = JobStatus.queued;
  attempt_count = 0;
  next_attempt_at = now;
  last_error = none;
  created_at = now;
  completed_at = none;
}

abbrev pub add_job : DeliveryJob → Db → Db
add_job j db = record db { next_id = suc db.next_id; delivery_jobs = db.delivery_jobs ++ j ∷ [] }

unfoldable pub create_delivery_job :
    Uuid → Uuid → Payload → String → Option String → Uuid → Time → Db → Option DeliveryJob × Db
create_delivery_job event b body target_url key account now db =
    let job = new_job db.next_id event b body target_url key now account in
    if db.configured then (some job, add_job job db) else (none, db)

-- `status in {"delivered", "dead_lettered", "idempotency_blocked"}`
abbrev pub is_final : JobStatus → Bool
is_final JobStatus.delivered = true
is_final JobStatus.dead_lettered = true
is_final JobStatus.idempotency_blocked = true
is_final _ = false

-- The values of the UPDATE: `next_attempt_at` only where one is given, `completed_at` only with a
-- final status; `last_error` always, none included.
unfoldable pub set_job :
    JobStatus → ℕ → Option String → Option Time → Time → DeliveryJob → DeliveryJob
set_job status attempt_count last_error next_attempt_at now j = record j {
  status = status;
  attempt_count = attempt_count;
  last_error = last_error;
  next_attempt_at = elim next_attempt_at [ none ↦ j.next_attempt_at | some t ↦ t ];
  completed_at = if is_final status then some now else j.completed_at;
}

unfoldable pub update_delivery_job :
    Uuid → JobStatus → ℕ → Option String → Option Time → Time → Db → Db
update_delivery_job job_id status attempt_count last_error next_attempt_at now db =
    if db.configured
    then record db {
      delivery_jobs =
          update_where (has_job_id job_id)
            (set_job status attempt_count last_error next_attempt_at now) db.delivery_jobs;
    }
    else db

unfoldable pub record_delivery_attempt :
    Uuid → ℕ → AttemptStatus → Option String → Option ℕ → Option String → Time → Db → Db
record_delivery_attempt job_id attempt_number status error_message http_status response_body now
      db =
    if db.configured
    then record db {
      next_id = suc db.next_id;
      delivery_attempts =
          db.delivery_attempts
          ++ record {
            attempt_id = db.next_id;
            job_id = job_id;
            attempt_number = attempt_number;
            status = status;
            http_status = http_status;
            response_body = response_body;
            error_message = error_message;
            started_at = now;
            completed_at = some now;
          }
            ∷ [];
    }
    else db

unfoldable pub get_delivery_job : Uuid → Db → Option DeliveryJob
get_delivery_job job_id db =
    if db.configured then find (has_job_id job_id) db.delivery_jobs else none

-- The statuses that the code tests for, as far as the schema allows them on a job; a job never has
-- the status "delivery_failed", which the code also names.
abbrev pub is_replayable : JobStatus → Bool
is_replayable JobStatus.dead_lettered = true
is_replayable JobStatus.retrying = true
is_replayable _ = false

-- `original_job_id or job_id`
abbrev pub root_id : DeliveryJob → Uuid
root_id j = elim j.original_job_id [ none ↦ j.job_id | some i ↦ i ]

abbrev pub replay_of : (show : Uuid → String) → DeliveryJob → Uuid → Time → DeliveryJob
replay_of show job job_id now = record {
  job_id = job_id;
  account_id = job.account_id;
  original_job_id = some (root_id job);
  replay_count = job.replay_count + 1;
  event_id = job.event_id;
  bridge_id = job.bridge_id;
  body = job.body;
  target_url = job.target_url;
  idempotency_key = job.idempotency_key;
  status = JobStatus.queued;
  attempt_count = 0;
  next_attempt_at = now;
  last_error = some ("Replay of delivery job " <> show job.job_id);
  created_at = now;
  completed_at = none;
}

-- `show` is `str` of a UUID.
unfoldable pub replay_delivery_job :
    (show : Uuid → String) → Uuid → Time → Db → Option DeliveryJob × Db
replay_delivery_job show job_id now db = elim (get_delivery_job job_id db) [
  | none ↦ (none, db)
  | some job ↦
      if is_replayable job.status
      then (
        some (replay_of show job db.next_id now),
        add_job (replay_of show job db.next_id now) db,
      )
      else (none, db)
]

-- The `status` of a batch request; "delivery_failed" is no status of a job.
pub data ReplayStatus : Type 0 where
  dead_lettered delivery_failed retrying : ReplayStatus

abbrev pub has_status : ReplayStatus → JobStatus → Bool
has_status ReplayStatus.dead_lettered JobStatus.dead_lettered = true
has_status ReplayStatus.retrying JobStatus.retrying = true
has_status _ _ = false

abbrev pub from_time : Option Time → Time → Bool
from_time none t = true
from_time (some a) t = leb a t

abbrev pub to_time : Option Time → Time → Bool
to_time none t = true
to_time (some a) t = leb t a

unfoldable pub list_replayable_jobs :
    Uuid → Uuid → ReplayStatus → Option Time → Option Time → ℕ → Db → List DeliveryJob
list_replayable_jobs account b status from to limit db =
    if db.configured
    then take limit (
        order_by (λ j. j.created_at)
          (select
            (λ j.
              j.account_id == account
              && (j.bridge_id == b
                  && (has_status status j.status
                      && (from_time from j.created_at && to_time to j.created_at))))
            db.delivery_jobs))
    else []

abbrev pub is_waiting : JobStatus → Bool
is_waiting JobStatus.queued = true
is_waiting JobStatus.retrying = true
is_waiting _ = false

abbrev pub is_delivering : JobStatus → Bool
is_delivering JobStatus.delivering = true
is_delivering _ = false

-- Due, or in delivery and created before the cutoff.
abbrev pub is_due : Time → DeliveryJob → Bool
is_due now j = is_waiting j.status && leb j.next_attempt_at now

abbrev pub is_stale : Time → DeliveryJob → Bool
is_stale cutoff j = is_delivering j.status && leb j.created_at cutoff

abbrev pub is_recoverable : ℕ → Time → DeliveryJob → Bool
is_recoverable stale_seconds now j = is_due now j || is_stale (now - stale_seconds) j

abbrev pub start_delivery : DeliveryJob → DeliveryJob
start_delivery j = record j { status = JobStatus.delivering }

-- The default of `stale_seconds`.
abbrev pub stale_after : ℕ
stale_after = 300

-- The rows are returned as the session holds them after the commit.
unfoldable pub fetch_recoverable_delivery_jobs : ℕ → Time → Db → List DeliveryJob × Db
fetch_recoverable_delivery_jobs stale_seconds now db =
    if db.configured
    then (
      order_by (λ j. j.created_at)
          (map start_delivery (select (is_recoverable stale_seconds now) db.delivery_jobs)),
      record db {
        delivery_jobs =
            update_where (is_recoverable stale_seconds now) start_delivery db.delivery_jobs;
      },
    )
    else ([], db)
