-- ===== src/Worker/Retry.antt =====
-- A job with a key that is delivered a second time by the same process.
use healpipe.Prelude.{
  ℕ, ◌+◌, ◌<◌, String, Bool, true, false, none, some, nat_eq, string_eq, ◌≡◌, ◌≢◌, refl, ap, ◌∙◌,
  arith, inl, inr, Bool-cases, Option-cases, ==_false, if_true, if_false,
}
use healpipe.Database.Schema.{JobStatus, LifecycleState}
use healpipe.Database.State.{Db, Result, ok, err}
use healpipe.Database.Idempotency.{claim_idempotency_key, claim_ttl}
use healpipe.Database.Jobs.{set_job, update_delivery_job}
use healpipe.Database.Ledger.{append_job_lifecycle}
use healpipe.Database.Events.{mark_idempotency_blocked}
use healpipe.Services.Outbound.{Outcome, response, request_error, other_error, forward_payload}
use healpipe.Worker.Claims.{claim, real_key, claim_expires, claim_ttl_seconds}
use healpipe.Worker.Delivery.{
  Job, World, Setting, Attempts, on_db, alert_dead, record_attempt, block, settle, finish, send,
  send_claimed, send_unclaimed, deliver,
}
use healpipe.Worker.Verdict.{HasRow, Ends, update_delivery_job-IsRow, append_job_lifecycle-IsRow}

module _ (s : Setting) (job : Job) where
  alert_dead-claims : (st : JobStatus) (w : World) → (alert_dead job st w).claims ≡ w.claims
  alert_dead-claims st w = ground arith

  finish-claims :
      (n : ℕ) (r : Result Bool) (a : Attempts) (w : World)
      → (finish s job n (r, (a, w))).1.claims ≡ w.claims
  unfolding finish settle
  finish-claims n (err e) a w = refl
  finish-claims n (ok true) a w = refl
  finish-claims n (ok false) a w = ground arith

  send-claims :
      (outcome : Outcome) (n : ℕ) (w : World) → (send s job outcome n w).1.claims ≡ w.claims
  unfolding send forward_payload record_attempt
  send-claims (other_error m) n w = finish-claims n (err _) _ w
  send-claims (request_error m) n w = finish-claims n (ok false) _ _
  send-claims (response c body) n w = elim (Bool-cases (s.httpx.is_success c)) [
    | inl success ↦ rw (success, forward_payload) (finish-claims n (ok true) _ _)
    | inr failure ↦ rw (failure, forward_payload) (finish-claims n (ok false) _ _)
  ]

  send_claimed-claims :
      (outcome : Outcome) (n : ℕ) (w : World) → (send_claimed s job outcome n w).1.claims ≡ w.claims
  unfolding send_claimed block
  send_claimed-claims outcome n w = elim (Option-cases (real_key job.idempotency_key)) [
    | inl e ↦ rw (e, send_claimed) (send-claims outcome n w)
    | inr (k, e) ↦
        let c = claim_idempotency_key job.bridge_id job.event_id k claim_ttl s.now w.db in
        rw (e, send_claimed)
          (elim (Bool-cases c.0) [
            | inl mine ↦ rw mine (send-claims outcome n (record w { db = c.1 }))
            | inr other ↦ rw other refl
          ])
  ]

  keyed_real :
      (k : String) → job.idempotency_key ≡ some k → k ≢ "" → real_key job.idempotency_key ≡ some k
  keyed_real k keyed real = let e = ==_false k "" real in ground arith

  send_unclaimed-mine :
      (outcome : Outcome) (n : ℕ) (k : String) (w : World)
      → job.is_replay ≡ false
      → real_key job.idempotency_key ≡ some k
      → (claim (some k) s.tick w.claims).0 ≡ true
      → send_unclaimed s job outcome n w
        ≡ send_claimed s job outcome n (record w { claims = (claim (some k) s.tick w.claims).1 })
  unfolding send_unclaimed
  send_unclaimed-mine outcome n k w fresh keyed mine =
      rw (keyed, send_unclaimed) (if_false _ fresh ∙ if_true _ mine)

  send_unclaimed-held :
      (outcome : Outcome) (n : ℕ) (k : String) (w : World)
      → job.is_replay ≡ false
      → real_key job.idempotency_key ≡ some k
      → (claim (some k) s.tick w.claims).0 ≡ false
      → send_unclaimed s job outcome n w
        ≡ (ok tt, block s job k (record w { claims = (claim (some k) s.tick w.claims).1 }))
  unfolding send_unclaimed
  send_unclaimed-held outcome n k w fresh keyed held =
      rw (keyed, send_unclaimed) (if_false _ fresh ∙ if_false _ held)

  -- The claims after a run that is no replay, of a job with a key that the process could claim.
  deliver-claims :
      (outcome : Outcome) (n : ℕ) (w : World) (k : String)
      → job.is_replay ≡ false
      → real_key job.idempotency_key ≡ some k
      → (claim (some k) s.tick w.claims).0 ≡ true
      → (deliver s job outcome n w).1.claims ≡ (claim (some k) s.tick w.claims).1
  unfolding deliver
  deliver-claims outcome n w k fresh keyed mine =
      ap (λ r. r.1.claims) (send_unclaimed-mine outcome n k _ fresh keyed mine)
      ∙ send_claimed-claims outcome n _

  block-Ends :
      (k : String) (w : World)
      → HasRow job.job_id w.db
      → Ends job.job_id JobStatus.idempotency_blocked 1 (block s job k w).db
  unfolding block mark_idempotency_blocked set_job
  block-Ends k w (j, h) = (
    _,
    update_delivery_job-IsRow job.job_id JobStatus.idempotency_blocked 1
        (some "Duplicate idempotency key") none s.now j _ (ground (arith, h)),
    refl,
    refl,
  )

-- Of the part of a run that comes after the number of its attempt is known, which it is given: a job
-- with a key, which is no replay, goes through it, and the process can claim its key. If the same
-- job goes through it again before the time to live of the claim is over, as the retry policy asks
-- for after a failure, and its row is still there, nothing is sent: whatever the POST would come to,
-- the job ends as a blocked duplicate of itself. (A job of the queue as it is written does not come
-- so far: its run raises where it reads the number.)
pub retry_is_blocked :
    (s t : Setting) (job : Job) (first second : Outcome) (n m : ℕ) (k : String) (w : World) (u : Db)
    → job.is_replay ≡ false
    → job.idempotency_key ≡ some k
    → k ≢ ""
    → (claim (some k) s.tick w.claims).0 ≡ true
    → t.tick < s.tick + claim_ttl_seconds
    → HasRow job.job_id u
    → let later = record (deliver s job first n w).1 { db = u } in
      ((deliver t job second m later).0 ≡ ok tt)
      × Ends job.job_id JobStatus.idempotency_blocked 1 (deliver t job second m later).1.db
unfolding deliver
retry_is_blocked s t job first second n m k w u fresh keyed real mine soon (j, h) =
    let key = keyed_real s job k keyed real in
    let held = deliver-claims s job first n w k fresh key mine in
    let no : (claim (some k) t.tick (deliver s job first n w).1.claims).0 ≡ false =
      rw held (claim_expires k s.tick t.tick w.claims real mine ∙ ground arith) in
    let start =
      append_job_lifecycle-IsRow job.job_id job.job_id LifecycleState.delivering none none none
        t.now _ _
        (update_delivery_job-IsRow job.job_id JobStatus.delivering m none none t.now j u h) in
    let entered =
      on_db
        (λ db.
          append_job_lifecycle job.job_id LifecycleState.delivering none none none t.now
            (update_delivery_job job.job_id JobStatus.delivering m none none t.now db))
        (record (deliver s job first n w).1 { db = u }) in
    rw (send_unclaimed-held t job second m k entered fresh key no) (
      refl,
      block-Ends t job k (record entered { claims = (claim (some k) t.tick entered.claims).1 })
          (_, start),
    )
