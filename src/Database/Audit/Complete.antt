-- ===== src/Database/Audit/Complete.antt =====
-- The audit of an event shows each of its jobs with all its attempts.
use mathlib.Core.List.{append_assoc, append-nil}
use healpipe.Prelude.{
  Bool, true, none, some, List, [], ◌∷◌, ◌++◌, ◌≡◌, refl, sym, ap, subst, ◌∙◌, inl, inr, map,
  contains, ◌==◌, nat_eq, if◌then◌else◌, arith, All, Bool-cases, Option-cases,
}
use healpipe.Prelude.Table.{
  select, order_by, select-order_by, select-select, All-order_by, All-select,
}
use healpipe.Database.Schema.{Uuid, HealingEventRecord, DeliveryJob, DeliveryAttempt}
use healpipe.Database.State.{Db, ok}
use healpipe.Database.Audit.Events.{
  AuditedAttempt, AuditedJob, audited_attempt, audited_job, event_audit,
}
use healpipe.Database.Audit.Trail.{
  Groups, group_of, append_attempt, group_attempts, no_attempts, attempts_of_jobs, job_payloads,
  jobs_of_event, event_on_bridge, with_jobs, fetch_event_audit,
}

abbrev is_attempt_of : Uuid → DeliveryAttempt → Bool
is_attempt_of i a = i == a.job_id

-- The attempts of one job, asked for on their own.
abbrev pub attempts_of : Uuid → Db → List AuditedAttempt
attempts_of i db =
    map audited_attempt
      (order_by (λ a. a.started_at) (select (is_attempt_of i) db.delivery_attempts))

append_attempt_lem :
    (j : Uuid) (a : AuditedAttempt) (groups : Groups) (ys : List AuditedAttempt)
    → group_of j groups ≡ some ys
    → (g : Groups) × (append_attempt j a groups ≡ some g)
      × ((i : Uuid) → group_of i g ≡ (if i == j then some (ys ++ a ∷ []) else group_of i groups))
unfolding append_attempt group_of
append_attempt_lem j a [] ys h = absurd (ground arith)
append_attempt_lem j a ((k, xs) ∷ groups) ys h = elim (Bool-cases (j == k)) [
  | inl e ↦ ((k, xs ++ a ∷ []) ∷ groups, rw e refl, λ i. ground arith)
  | inr e ↦
      let (g, made, rest) = append_attempt_lem j a groups ys (ground arith) in
      ((k, xs) ∷ g, rw e (rw made refl), λ i. ground (arith, rest i))
]

-- Every job of the list has the group that the function gives.
abbrev Covers : List Uuid → (Uuid → List AuditedAttempt) → Groups → Type 0
Covers job_ids f groups = (i : Uuid) → contains i job_ids ≡ true → group_of i groups ≡ some (f i)

no_attempts-Covers : (job_ids : List Uuid) → Covers job_ids (λ i. []) (no_attempts job_ids)
unfolding group_of
no_attempts-Covers [] i h = absurd (ground arith)
no_attempts-Covers (k ∷ job_ids) i h = ground (arith, no_attempts-Covers job_ids i)

group_attempts_lem :
    (job_ids : List Uuid) (f : Uuid → List AuditedAttempt) (rows : List DeliveryAttempt)
    (groups : Groups)
    → All (λ a. contains a.job_id job_ids ≡ true) rows
    → Covers job_ids f groups
    → (g : Groups) × (group_attempts rows groups ≡ some g)
      × Covers job_ids (λ i. f i ++ map audited_attempt (select (is_attempt_of i) rows)) g
unfolding group_attempts select
group_attempts_lem job_ids f [] groups t c =
    (groups, refl, λ i h. c i h ∙ ap some (sym (append-nil (f i))))
group_attempts_lem job_ids f (a ∷ rows) groups (h, t) c =
    let (g, made, there) =
      append_attempt_lem a.job_id (audited_attempt a) groups (f a.job_id) (c a.job_id h) in
    let one : Uuid → List AuditedAttempt =
      λ i. if is_attempt_of i a then audited_attempt a ∷ [] else [] in
    let (out, grouped, all) =
      group_attempts_lem job_ids (λ i. f i ++ one i) rows g t
        (λ i k. there i ∙ ground (arith, c i k, append-nil (f i))) in
    (
      out,
      rw (group_attempts, made) grouped,
      λ i k.
          all i k
          ∙ ground (
            arith,
            append_assoc (f i) (one i) (map audited_attempt (select (is_attempt_of i) rows)),
          ),
    )

job_payloads_lem :
    (f : Uuid → List AuditedAttempt) (groups : Groups) (jobs : List DeliveryJob)
    → Covers (map (λ j. j.job_id) jobs) f groups
    → job_payloads groups jobs ≡ some (map (λ j. audited_job j (f j.job_id)) jobs)
unfolding job_payloads
job_payloads_lem f groups [] c = refl
job_payloads_lem f groups (j ∷ jobs) c =
    rw (job_payloads, c j.job_id (ground arith))
      (rw (job_payloads_lem f groups jobs (λ i h. c i (ground (arith, h)))) refl)

attempts_of_jobs_lem :
    (job_ids : List Uuid) (i : Uuid) (db : Db)
    → contains i job_ids ≡ true
    → map audited_attempt (select (is_attempt_of i) (attempts_of_jobs job_ids db))
      ≡ attempts_of i db
attempts_of_jobs_lem [] i db h = absurd (ground arith)
attempts_of_jobs_lem (j ∷ more) i db h = ap (map audited_attempt) (
    select-order_by (λ a. a.started_at) (is_attempt_of i) _
    ∙ ap (order_by (λ a. a.started_at)) (
        select-select (is_attempt_of i) (λ a. contains a.job_id (j ∷ more)) db.delivery_attempts
          (λ x e.
            let same : i ≡ x.job_id = ground arith in
            subst (λ k. contains k (j ∷ more) ≡ true) same h)))

attempts_of_jobs-All :
    (job_ids : List Uuid) (db : Db)
    → All (λ a. contains a.job_id job_ids ≡ true) (attempts_of_jobs job_ids db)
attempts_of_jobs-All [] db = tt
attempts_of_jobs-All (j ∷ more) db =
    All-order_by (λ a. a.started_at) (λ a. contains a.job_id (j ∷ more) ≡ true) _
      (All-select (λ a. contains a.job_id (j ∷ more)) db.delivery_attempts)

abbrev pub audited_jobs : List DeliveryJob → Db → List AuditedJob
audited_jobs jobs db = map (λ j. audited_job j (attempts_of j.job_id db)) jobs

with_jobs_lem :
    (e : HealingEventRecord) (jobs : List DeliveryJob) (db : Db)
    → with_jobs e jobs db ≡ some (event_audit e (audited_jobs jobs db))
with_jobs_lem e jobs db =
    let ids = map (λ j. j.job_id) jobs in
    let (g, made, there) =
      group_attempts_lem ids (λ i. []) (attempts_of_jobs ids db) (no_attempts ids)
        (attempts_of_jobs-All ids db) (no_attempts-Covers ids) in
    let all =
      job_payloads_lem (λ i. attempts_of i db) g jobs
        (λ i h. there i h ∙ ap some (attempts_of_jobs_lem ids i db h)) in
    rw (with_jobs, made) (rw all refl)

-- The audit of an event never raises, although it looks each attempt and each job up in a
-- dictionary. It has no answer exactly where no event with this identifier is on this bridge, or
-- no database is configured; else it shows the event with all its delivery jobs on the bridge, by
-- their creation, and each job with all of its own attempts and no other, by their start.
pub fetch_event_audit_complete :
    (event_id bridge_id : Uuid) (db : Db)
    → fetch_event_audit event_id bridge_id db
      ≡ ok (
          if db.configured
          then elim (event_on_bridge event_id bridge_id db) [
            | none ↦ none
            | some e ↦ some (event_audit e (audited_jobs (jobs_of_event event_id bridge_id db) db))
          ]
          else none)
unfolding fetch_event_audit
fetch_event_audit_complete event_id bridge_id db = elim (Bool-cases db.configured) [
  | inr e ↦ rw e refl
  | inl e ↦ rw e (elim (Option-cases (event_on_bridge event_id bridge_id db)) [
    | inl f ↦ rw f refl
    | inr (x, f) ↦ rw f (rw (with_jobs_lem x (jobs_of_event event_id bridge_id db) db) refl)
  ])
]
