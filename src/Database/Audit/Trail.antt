-- ===== src/Database/Audit/Trail.antt =====
-- database/repository.py: `fetch_event_audit`, an event with its delivery jobs and their attempts.
use healpipe.Prelude.{
  ◌&&◌, Option, none, some, List, [], ◌∷◌, ◌++◌, map, contains, ◌==◌, nat_eq, if◌then◌else◌,
}
use healpipe.Prelude.Table.{select, find, order_by}
use healpipe.Database.Schema.{Uuid, HealingEventRecord, DeliveryJob, DeliveryAttempt}
use healpipe.Database.State.{Db, Result, ok, err, unhandled}
use healpipe.Database.Events.{has_event_id}
use healpipe.Database.Audit.Events.{
  AuditedAttempt, AuditedJob, EventAudit, is_of_bridge, audited_attempt, audited_job, event_audit,
}

-- `attempts_by_job`
abbrev pub Groups : Type 0
Groups = List (Uuid × List AuditedAttempt)

-- attempts_by_job[i], which raises for a job that is not there.
unfoldable pub group_of : Uuid → Groups → Option (List AuditedAttempt)
group_of i [] = none
group_of i ((j, attempts) ∷ groups) = if i == j then some attempts else group_of i groups

-- attempts_by_job[i].append(a), which raises for a job that is not there.
unfoldable pub append_attempt : Uuid → AuditedAttempt → Groups → Option Groups
append_attempt i a [] = none
append_attempt i a ((j, attempts) ∷ groups) =
    let rest = append_attempt i a groups in
    if i == j
    then some ((j, attempts ++ a ∷ []) ∷ groups)
    else elim rest [ none ↦ none | some r ↦ some ((j, attempts) ∷ r) ]

-- The loop over the attempts.
unfoldable pub group_attempts : List DeliveryAttempt → Groups → Option Groups
group_attempts [] groups = some groups
group_attempts (a ∷ more) groups = elim (append_attempt a.job_id (audited_attempt a) groups) [
  | none ↦ none
  | some g ↦ group_attempts more g
]

abbrev pub no_attempts : List Uuid → Groups
no_attempts job_ids = map (λ i. (i, [])) job_ids

-- The attempts of the jobs, by their start; no query where there is no job.
abbrev pub attempts_of_jobs : List Uuid → Db → List DeliveryAttempt
attempts_of_jobs [] db = []
attempts_of_jobs (i ∷ more) db =
    order_by (λ a. a.started_at) (select (λ a. contains a.job_id (i ∷ more)) db.delivery_attempts)

unfoldable pub job_payloads : Groups → List DeliveryJob → Option (List AuditedJob)
job_payloads groups [] = some []
job_payloads groups (j ∷ jobs) = elim (group_of j.job_id groups) [
  | none ↦ none
  | some attempts ↦ elim (job_payloads groups jobs) [
    | none ↦ none
    | some rest ↦ some (audited_job j attempts ∷ rest)
  ]
]

abbrev pub jobs_of_event : Uuid → Uuid → Db → List DeliveryJob
jobs_of_event event_id bridge_id db =
    order_by (λ j. j.created_at)
      (select (λ j. j.event_id == event_id && j.bridge_id == bridge_id) db.delivery_jobs)

-- The event by its primary key, on the bridge.
abbrev pub event_on_bridge : Uuid → Uuid → Db → Option HealingEventRecord
event_on_bridge event_id bridge_id db =
    find (λ e. has_event_id event_id e && is_of_bridge bridge_id e) db.healing_events

abbrev pub grouped : List Uuid → Db → Option Groups
grouped job_ids db = group_attempts (attempts_of_jobs job_ids db) (no_attempts job_ids)

abbrev pub with_jobs : HealingEventRecord → List DeliveryJob → Db → Option EventAudit
with_jobs e jobs db = elim (grouped (map (λ j. j.job_id) jobs) db) [
  | none ↦ none
  | some groups ↦ elim (job_payloads groups jobs) [
    | none ↦ none
    | some payloads ↦ some (event_audit e payloads)
  ]
]

-- The error is that of an attempt or a job without a group.
unfoldable pub fetch_event_audit : Uuid → Uuid → Db → Result (Option EventAudit)
fetch_event_audit event_id bridge_id db =
    if db.configured
    then elim (event_on_bridge event_id bridge_id db) [
      | none ↦ ok none
      | some e ↦ elim (with_jobs e (jobs_of_event event_id bridge_id db) db) [
        | none ↦ err (unhandled "KeyError")
        | some audit ↦ ok (some audit)
      ]
    ]
    else ok none
