-- ===== src/Worker/Delivery.antt =====
-- core/queue_worker.py: `_run_job_on_loop`, with its state: the database, the claims of this process
-- and the alerts that were sent.
use healpipe.Prelude.{
  ℕ, ◌+◌, ◌-◌, String, Bool, true, false, ◌&&◌, Option, none, some, List, [], ◌∷◌, ◌++◌, ◌==◌,
  nat_eq, ltb, if◌then◌else◌, length, get_elem?,
}
use healpipe.Prelude.Dict.{Dict}
use healpipe.Database.Schema.{Uuid, Time, JobStatus, AttemptStatus, LifecycleState}
use healpipe.Database.Schema.Json.{ℤ, Payload}
use healpipe.Database.State.{Db, Result, ok, err, attribute_error, index_error}
use healpipe.Database.Idempotency.{claim_idempotency_key, claim_ttl}
use healpipe.Database.Jobs.{update_delivery_job, record_delivery_attempt}
use healpipe.Database.Ledger.{append_job_lifecycle}
use healpipe.Database.Events.{mark_delivery_failed, mark_idempotency_blocked}
use healpipe.Python.{Text}
use healpipe.Services.Outbound.{
  Outcome, Httpx, OnAttempt, forward_payload, is_retryable_response, retry_backoff_seconds,
}
use healpipe.Worker.Claims.{claim, real_key}

-- The dataclass `DeliveryJob` of the queue, which is not the table of that name.
pub record Job : Type 0 where
  pub job_id : Uuid
  pub event_id : Uuid
  pub body : Payload
  pub target_url : String
  pub bridge_id : Uuid
  pub idempotency_key : Option String
  pub is_replay : Bool

pub record World : Type 0 where
  pub db : Db
  pub claims : Dict Time
  pub alerts : List Uuid

-- What surrounds a run: the environment's DELIVERY_RETRY_BACKOFF_SECONDS, the two clocks, read once
-- for a run, and the libraries.
pub record Setting : Type 0 where
  pub text : Text
  pub httpx : Httpx
  pub configured_backoff : Option String
  pub now : Time
  pub tick : Time

abbrev pub backoff_of : Setting → List ℤ
backoff_of s = retry_backoff_seconds s.text s.configured_backoff

abbrev pub on_db : (Db → Db) → World → World
on_db f w = record w { db = f w.db }

-- `job.attempt_count`: the dataclass has no such field.
unfoldable pub attempt_count : Job → Result ℕ
attempt_count job = err (attribute_error "'DeliveryJob' object has no attribute 'attempt_count'")

-- What `record_attempt` keeps between its call and the end of the run.
pub record Attempts : Type 0 where
  pub count : ℕ
  pub retryable : Option Bool

abbrev pub failed_entry : Setting → Job → ℕ → AttemptStatus → Option String → Option ℕ → Db → Db
failed_entry s job attempt_number AttemptStatus.delivered error_message http_status db =
    append_job_lifecycle job.job_id LifecycleState.delivered (some attempt_number) none http_status
      s.now db
failed_entry s job attempt_number AttemptStatus.failed error_message http_status db =
    append_job_lifecycle job.job_id LifecycleState.retrying (some attempt_number) error_message none
      s.now db

unfoldable pub record_attempt : Setting → Job → OnAttempt (Attempts × World)
record_attempt s job attempt_number status http_status error_message response_body (a, w) = (
  record { count = attempt_number; retryable = some (is_retryable_response http_status) },
  on_db
      (λ db.
        update_delivery_job job.job_id JobStatus.delivering attempt_number error_message none s.now
          (failed_entry s job attempt_number status error_message http_status (
            append_job_lifecycle job.job_id LifecycleState.delivery_attempted (some attempt_number)
              error_message http_status s.now
              (record_delivery_attempt job.job_id attempt_number status error_message http_status
                response_body s.now db))))
      w,
)

-- The two ways in which a key stops a delivery have the same effect.
unfoldable pub block : Setting → Job → String → World → World
block s job key = on_db (λ db.
    update_delivery_job job.job_id JobStatus.idempotency_blocked 1
      (some "Duplicate idempotency key") none s.now (mark_idempotency_blocked job.event_id key db))

-- `datetime.now + timedelta(seconds=seconds)`
abbrev pub after_seconds : Time → ℤ → Time
after_seconds now (ℤ.pos n) = now + n
after_seconds now (ℤ.negsuc n) = now - (n + 1)

-- The final status of a run that did not deliver, and the time of the next attempt.
unfoldable pub retry_status : List ℤ → Time → Bool → ℕ → Result (JobStatus × Option Time)
retry_status backoff now retryable final_attempt =
    if retryable && ltb final_attempt (length backoff)
    then elim (get_elem? backoff final_attempt) [
      | none ↦ err index_error
      | some seconds ↦ ok (JobStatus.retrying, some (after_seconds now seconds))
    ]
    else ok (JobStatus.dead_lettered, none)

abbrev pub state_of : JobStatus → LifecycleState
state_of JobStatus.queued = LifecycleState.queued
state_of JobStatus.delivering = LifecycleState.delivering
state_of JobStatus.retrying = LifecycleState.retrying
state_of JobStatus.delivered = LifecycleState.delivered
state_of JobStatus.dead_lettered = LifecycleState.dead_lettered
state_of JobStatus.idempotency_blocked = LifecycleState.idempotency_blocked

-- `mark_delivery_failed` for a dead letter.
abbrev pub mark_dead : Job → JobStatus → Db → Db
mark_dead job JobStatus.dead_lettered db =
    mark_delivery_failed job.event_id "Delivery moved to dead letter after retry policy" db
mark_dead job _ db = db

abbrev pub alert_dead : Job → JobStatus → World → World
alert_dead job JobStatus.dead_lettered w = record w { alerts = w.alerts ++ job.event_id ∷ [] }
alert_dead job _ w = w

-- The end of a run, from the final status on.
unfoldable pub settle : Setting → Job → JobStatus → ℕ → Option String → Option Time → World → World
settle s job final_status final_attempt last_error next_attempt_at w =
    on_db
      (λ db. append_job_lifecycle job.job_id (state_of final_status) none last_error none s.now (
        mark_dead job final_status (
          update_delivery_job job.job_id final_status final_attempt last_error next_attempt_at s.now
            db)))
      (alert_dead job final_status w)

-- `attempts["count"] or attempt_number`
abbrev pub final_attempt_of : Attempts → ℕ → ℕ
final_attempt_of a attempt_number = if a.count == 0 then attempt_number else a.count

abbrev pub retryable_of : Attempts → Bool
retryable_of a = elim a.retryable [ none ↦ true | some r ↦ r ]

unfoldable pub finish :
    Setting → Job → ℕ → Result Bool × (Attempts × World) → Result (Unit {0}) × World
finish s job attempt_number (err e, (a, w)) = (err e, w)
finish s job attempt_number (ok true, (a, w)) =
    (ok tt, settle s job JobStatus.delivered (final_attempt_of a attempt_number) none none w)
finish s job attempt_number (ok false, (a, w)) =
    elim (retry_status (backoff_of s) s.now (retryable_of a) (final_attempt_of a attempt_number)) [
      | err e ↦ (err e, w)
      | ok verdict ↦ (
        ok tt,
        settle s job verdict.0 (final_attempt_of a attempt_number)
            (some "Delivery failed after retry policy") verdict.1 w,
      )
    ]

-- The delivery proper, once no key stands in its way.
unfoldable pub send : Setting → Job → Outcome → ℕ → World → Result (Unit {0}) × World
send s job outcome attempt_number w = finish s job attempt_number (
    forward_payload s.httpx outcome attempt_number (record_attempt s job)
      (record { count = 0; retryable = none }, w))

-- The claim in the database, which a replay makes as well.
unfoldable pub send_claimed : Setting → Job → Outcome → ℕ → World → Result (Unit {0}) × World
send_claimed s job outcome attempt_number w = elim (real_key job.idempotency_key) [
  | none ↦ send s job outcome attempt_number w
  | some key ↦
      let (claimed, db) =
        claim_idempotency_key job.bridge_id job.event_id key claim_ttl s.now w.db in
      let w = record w { db = db } in
      if claimed then send s job outcome attempt_number w else (ok tt, block s job key w)
]

-- The claim in the process, which a replay does not make.
unfoldable pub send_unclaimed : Setting → Job → Outcome → ℕ → World → Result (Unit {0}) × World
send_unclaimed s job outcome attempt_number w = elim (real_key job.idempotency_key) [
  | none ↦ send_claimed s job outcome attempt_number w
  | some key ↦
      let (mine, claims) = claim (some key) s.tick w.claims in
      let claimed_w = record w { claims = claims } in
      if job.is_replay
      then send_claimed s job outcome attempt_number w
      else if mine
      then send_claimed s job outcome attempt_number claimed_w
      else (ok tt, block s job key claimed_w)
]

-- The body after its first line, which gives it the number of the attempt.
unfoldable pub deliver : Setting → Job → Outcome → ℕ → World → Result (Unit {0}) × World
deliver s job outcome attempt_number w = send_unclaimed s job outcome attempt_number (
    on_db
      (λ db.
        append_job_lifecycle job.job_id LifecycleState.delivering none none none s.now
          (update_delivery_job job.job_id JobStatus.delivering attempt_number none none s.now db))
      w)

unfoldable pub run_job : Setting → Job → Outcome → World → Result (Unit {0}) × World
run_job s job outcome w = elim (attempt_count job) [
  | err e ↦ (err e, w)
  | ok n ↦ deliver s job outcome (n + 1) w
]
