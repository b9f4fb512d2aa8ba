-- ===== src/Worker/Verdict.antt =====
-- The status that a run leaves on its job.
use healpipe.Prelude.{
  ℕ, zero, suc, ◌<◌, String, Bool, true, false, ◌&&◌, Option, none, some, List, [], ◌∷◌, ◌==◌,
  nat_eq, ltb, if◌then◌else◌, length, get_elem?, ◌≡◌, refl, ap, ◌∙◌, arith, inl, inr, Bool-cases,
}
use healpipe.Prelude.Table.{find, find_sound, find-update_where}
use healpipe.Database.Schema.{Uuid, Time, DeliveryJob, JobStatus, AttemptStatus, LifecycleState}
use healpipe.Database.State.{Db, ok}
use healpipe.Database.Jobs.{has_job_id, set_job, update_delivery_job, record_delivery_attempt}
use healpipe.Database.Ledger.{append_job_lifecycle}
use healpipe.Database.Events.{mark_delivery_failed}
use healpipe.Services.Outbound.{
  Outcome, response, request_error, other_error, is_retryable_response, forward_payload,
}
use healpipe.Python.{prefix}
use healpipe.Worker.Claims.{real_key}
use healpipe.Worker.Delivery.{
  Job, World, Setting, Attempts, final_attempt_of, retryable_of, mark_dead, state_of, alert_dead,
  failed_entry, backoff_of, after_seconds, retry_status, record_attempt, settle, finish, send,
  deliver, send_unclaimed, send_claimed,
}

get_elem?-some :
    {A : Type 0} (xs : List A) (n : ℕ) → n < length xs → (x : A) × (get_elem? xs n ≡ some x)
get_elem?-some [] n h = absurd (omega (arith, h))
get_elem?-some (x ∷ xs) zero h = (x, refl)
get_elem?-some (x ∷ xs) (suc n) h = get_elem?-some xs n (omega (arith, h))

-- The row of a job in a database that is configured.
abbrev pub IsRow : Uuid → DeliveryJob → Db → Type 0
IsRow i j db = (db.configured ≡ true) × (find (has_job_id i) db.delivery_jobs ≡ some j)

pub update_delivery_job-IsRow :
    (i : Uuid) (st : JobStatus) (n : ℕ) (e : Option String) (t : Option Time) (now : Time)
    (j : DeliveryJob) (db : Db)
    → IsRow i j db
    → IsRow i (set_job st n e t now j) (update_delivery_job i st n e t now db)
unfolding update_delivery_job set_job
update_delivery_job-IsRow i st n e t now j db h =
    let f =
      find-update_where (has_job_id i) (has_job_id i) (set_job st n e t now) db.delivery_jobs
        (λ x k. refl) in
    let s = find_sound (has_job_id i) db.delivery_jobs h.1 in ground arith

pub append_job_lifecycle-IsRow :
    (i : Uuid) (x : Uuid) (st : LifecycleState) (n : Option ℕ) (r : Option String) (c : Option ℕ)
    (now : Time) (j : DeliveryJob) (db : Db)
    → IsRow i j db
    → IsRow i j (append_job_lifecycle x st n r c now db)
unfolding append_job_lifecycle
append_job_lifecycle-IsRow i x st n r c now j db h = ground arith

record_delivery_attempt-IsRow :
    (i x : Uuid) (n : ℕ) (st : AttemptStatus) (r : Option String) (c : Option ℕ) (b : Option String)
    (now : Time) (j : DeliveryJob) (db : Db)
    → IsRow i j db
    → IsRow i j (record_delivery_attempt x n st r c b now db)
unfolding record_delivery_attempt
record_delivery_attempt-IsRow i x n st r c b now j db h = ground arith

mark_dead-IsRow :
    (i : Uuid) (job : Job) (st : JobStatus) (j : DeliveryJob) (db : Db)
    → IsRow i j db
    → IsRow i j (mark_dead job st db)
unfolding mark_delivery_failed
mark_dead-IsRow i job st j db h = ground arith

failed_entry-IsRow :
    (s : Setting) (job : Job) (n : ℕ) (st : AttemptStatus) (r : Option String) (c : Option ℕ)
    (i : Uuid) (j : DeliveryJob) (db : Db)
    → IsRow i j db
    → IsRow i j (failed_entry s job n st r c db)
failed_entry-IsRow s job n AttemptStatus.delivered r c i j db h =
    append_job_lifecycle-IsRow i job.job_id LifecycleState.delivered (some n) none c s.now j db h
failed_entry-IsRow s job n AttemptStatus.failed r c i j db h =
    append_job_lifecycle-IsRow i job.job_id LifecycleState.retrying (some n) r none s.now j db h

-- The row of the job has this status and this number of attempts.
abbrev pub Ends : Uuid → JobStatus → ℕ → Db → Type 0
Ends i st n db = (j : DeliveryJob) × IsRow i j db × (j.status ≡ st) × (j.attempt_count ≡ n)

abbrev pub HasRow : Uuid → Db → Type 0
HasRow i db = (j : DeliveryJob) × IsRow i j db

module _ (s : Setting) (job : Job) where
  record_attempt-HasRow :
      (n : ℕ) (st : AttemptStatus) (c : Option ℕ) (r b : Option String) (a : Attempts) (w : World)
      → HasRow job.job_id w.db
      → HasRow job.job_id (record_attempt s job n st c r b (a, w)).1.db
  unfolding record_attempt
  record_attempt-HasRow n st c r b a w (j, h) =
      let one = record_delivery_attempt-IsRow job.job_id job.job_id n st r c b s.now j w.db h in
      let two =
        append_job_lifecycle-IsRow job.job_id job.job_id LifecycleState.delivery_attempted (some n)
          r c s.now j _ one in
      let three = failed_entry-IsRow s job n st r c job.job_id j _ two in
      (_, update_delivery_job-IsRow job.job_id JobStatus.delivering n r none s.now j _ three)

  alert_dead-db : (st : JobStatus) (w : World) → (alert_dead job st w).db ≡ w.db
  alert_dead-db st w = ground arith

  settle-Ends :
      (st : JobStatus) {m n : ℕ} (e : Option String) (t : Option Time) (w : World)
      → m ≡ n
      → HasRow job.job_id w.db
      → Ends job.job_id st n (settle s job st m e t w).db
  unfolding settle set_job
  settle-Ends st {m} {n} e t w same (j, h) =
      let before : IsRow job.job_id j (alert_dead job st w).db = rw (alert_dead-db st w) h in
      let set = update_delivery_job-IsRow job.job_id st m e t s.now j _ before in
      let marked = mark_dead-IsRow job.job_id job st _ _ set in
      (
        _,
        append_job_lifecycle-IsRow job.job_id job.job_id (state_of st) none e none s.now _ _ marked,
        refl,
        same,
      )

  -- The status that a run is to leave: delivered after a success; after a failure that may pass,
  -- retrying as long as the policy has a delay for the next attempt; a dead letter otherwise.
  abbrev pub retry_or_dead : Bool → ℕ → JobStatus
  retry_or_dead passing n =
      if passing && ltb n (length (backoff_of s))
      then JobStatus.retrying
      else JobStatus.dead_lettered

  abbrev pub verdict_of : Outcome → ℕ → JobStatus
  verdict_of (response c body) n =
      if s.httpx.is_success c
      then JobStatus.delivered
      else retry_or_dead (is_retryable_response (some c)) n
  verdict_of (request_error m) n = retry_or_dead true n
  verdict_of (other_error m) n = JobStatus.delivering

  -- The exceptions that `forward_payload` catches.
  abbrev pub IsCaught : Outcome → Type 0
  IsCaught (other_error m) = ⊥
  IsCaught _ = Unit

  retry_status-verdict :
      (now : Time) (passing : Bool) (n : ℕ)
      → (t : Option Time) × (retry_status (backoff_of s) now passing n
          ≡ ok (retry_or_dead passing n, t))
  unfolding retry_status
  retry_status-verdict now passing n =
      elim (Bool-cases (passing && ltb n (length (backoff_of s)))) [
        | inl more ↦
            let delay = get_elem?-some (backoff_of s) n (ground arith) in
            (some (after_seconds now delay.0), rw more (rw (delay.1, retry_status) refl))
        | inr last ↦ (none, rw last refl)
      ]

  same_count : (n : ℕ) → (if n == 0 then n else n) ≡ n
  same_count n = ground arith

  finish-Ends :
      (n : ℕ) (r : Bool) (a : Attempts) (w : World)
      → final_attempt_of a n ≡ n
      → HasRow job.job_id w.db
      → let after = finish s job n (ok r, (a, w)) in
        (after.0 ≡ ok tt)
        × Ends job.job_id
            (if r then JobStatus.delivered else retry_or_dead (retryable_of a) n)
            n
            after.1.db
  unfolding finish
  finish-Ends n true a w same row = (refl, settle-Ends JobStatus.delivered none none w same row)
  finish-Ends n false a w same row =
      let v = retry_status-verdict s.now (retryable_of a) n in
      let e = ap (retry_status (backoff_of s) s.now (retryable_of a)) same ∙ v.1 in
      rw (e, finish) (refl, settle-Ends (retry_or_dead (retryable_of a) n) _ v.0 w same row)

  abbrev no_attempts : Attempts
  no_attempts = record { count = 0; retryable = none }

  send-Ends :
      (outcome : Outcome) (n : ℕ) (w : World)
      → IsCaught outcome
      → HasRow job.job_id w.db
      → ((send s job outcome n w).0 ≡ ok tt)
        × Ends job.job_id (verdict_of outcome n) n (send s job outcome n w).1.db
  unfolding send forward_payload record_attempt is_retryable_response
  send-Ends (other_error m) n w caught row = absurd caught
  send-Ends (request_error m) n w caught row =
      let r = record_attempt s job n AttemptStatus.failed none (some m) none (no_attempts, w) in
      finish-Ends n false r.0 r.1 (same_count n)
        (record_attempt-HasRow n AttemptStatus.failed none (some m) none no_attempts w row)
  send-Ends (response c body) n w caught row = elim (Bool-cases (s.httpx.is_success c)) [
    | inl success ↦
        let r =
          record_attempt s job n AttemptStatus.delivered (some c) none (some (prefix 4000 body))
            (no_attempts, w) in
        rw (success, forward_payload)
          (finish-Ends n true r.0 r.1 (same_count n) (
            record_attempt-HasRow n AttemptStatus.delivered (some c) none (some (prefix 4000 body))
              no_attempts w row))
    | inr failure ↦
        let r =
          record_attempt s job n AttemptStatus.failed (some c) (some (s.httpx.status_error c))
            (some (prefix 4000 body)) (no_attempts, w) in
        rw (failure, forward_payload)
          (finish-Ends n false r.0 r.1 (same_count n) (
            record_attempt-HasRow n AttemptStatus.failed (some c) (some (s.httpx.status_error c))
              (some (prefix 4000 body)) no_attempts w row))
  ]

  -- Of the part of a run that comes after the number of its attempt is known, which it is given. For
  -- a job that carries no key and has a row in a configured database, where the POST comes to a
  -- response or a request error (any other exception of the POST leaves the run): it ends without an
  -- exception, and leaves on the row the status of the retry policy and the number of the attempt.
  pub deliver-Ends :
      (outcome : Outcome) (n : ℕ) (w : World) (j : DeliveryJob)
      → IsCaught outcome
      → real_key job.idempotency_key ≡ none
      → w.db.configured ≡ true
      → find (has_job_id job.job_id) w.db.delivery_jobs ≡ some j
      → ((deliver s job outcome n w).0 ≡ ok tt)
        × Ends job.job_id (verdict_of outcome n) n (deliver s job outcome n w).1.db
  unfolding deliver send_unclaimed send_claimed
  deliver-Ends outcome n w j caught keyless on found =
      let started =
        update_delivery_job-IsRow job.job_id JobStatus.delivering n none none s.now j w.db
          (on, found) in
      let entered =
        append_job_lifecycle-IsRow job.job_id job.job_id LifecycleState.delivering none none none
          s.now _ _ started in
      rw (keyless, send_unclaimed)
        (rw (keyless, send_claimed) (send-Ends outcome n _ caught (_, entered)))
