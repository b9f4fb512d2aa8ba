-- ===== src/Database/Jobs/Recovery.antt =====
-- What a poll for recoverable jobs hands out and leaves behind.
use healpipe.Prelude.{
  ℕ, ◌-◌, ◌≤◌, Bool, true, some, List, [], ◌∷◌, map, ◌≡◌, refl, sym, ap, ◌∙◌, nat_eq, arith,
}
use healpipe.Prelude.Table.{
  select, find, any, any-order_by, count_where, update_where, find-update_where,
}
use healpipe.Database.Schema.{Uuid, Time, DeliveryJob, JobStatus}
use healpipe.Database.State.{Db}
use healpipe.Database.Jobs.{
  has_job_id, is_due, is_recoverable, start_delivery, fetch_recoverable_delivery_jobs,
}

none_due :
    (stale : ℕ) (now : Time) (jobs : List DeliveryJob)
    → count_where (is_due now) (update_where (is_recoverable stale now) start_delivery jobs) ≡ 0
unfolding count_where update_where
none_due stale now [] = refl
none_due stale now (j ∷ jobs) = ground (arith, none_due stale now jobs)

handed_out :
    (i : Uuid) (q : DeliveryJob → Bool) (jobs : List DeliveryJob) {j : DeliveryJob}
    → find (has_job_id i) jobs ≡ some j
    → q j ≡ true
    → any (has_job_id i) (map start_delivery (select q jobs)) ≡ true
unfolding find any select map
handed_out i q [] h k = cc
handed_out i q (x ∷ xs) {j} h k = ground (arith, handed_out i q xs {j = j})

module _ (stale : ℕ) (now : Time) (db : Db) (on : db.configured ≡ true) where
  -- In a configured database, a poll hands out every job that is due, and after it none is left
  -- that is due at that time: each waits for a worker in the status delivering, and the next poll
  -- does not hand it out as due again.
  pub poll_claims_due :
      (i : Uuid) (j : DeliveryJob)
      → find (has_job_id i) db.delivery_jobs ≡ some j
      → is_due now j ≡ true
      → (any (has_job_id i) (fetch_recoverable_delivery_jobs stale now db).0 ≡ true)
        × (find (has_job_id i) (fetch_recoverable_delivery_jobs stale now db).1.delivery_jobs
            ≡ some (start_delivery j))
        × (count_where (is_due now) (fetch_recoverable_delivery_jobs stale now db).1.delivery_jobs
            ≡ 0)
  unfolding fetch_recoverable_delivery_jobs
  poll_claims_due i j found due = rw on (
    any-order_by (has_job_id i) _ _
        ∙ handed_out i (is_recoverable stale now) db.delivery_jobs {j = j} found (rw due),
    find-update_where (has_job_id i) (is_recoverable stale now) start_delivery db.delivery_jobs
          (λ x h. refl)
        ∙ rw (found, due) refl,
    none_due stale now db.delivery_jobs,
  )

  -- In a configured database, every poll hands out every job in delivery that was created before
  -- the stale window, and leaves its row as it was: the next poll hands it out again, whether or
  -- not a worker is at work on it.
  pub poll_repeats_old_delivery :
      (i : Uuid) (j : DeliveryJob)
      → find (has_job_id i) db.delivery_jobs ≡ some j
      → j.status ≡ JobStatus.delivering
      → j.created_at ≤ now - stale
      → (any (has_job_id i) (fetch_recoverable_delivery_jobs stale now db).0 ≡ true)
        × (find (has_job_id i) (fetch_recoverable_delivery_jobs stale now db).1.delivery_jobs
            ≡ some j)
  unfolding fetch_recoverable_delivery_jobs
  poll_repeats_old_delivery i j found busy old = rw on (
    any-order_by (has_job_id i) _ _
        ∙ handed_out i (is_recoverable stale now) db.delivery_jobs {j = j} found recoverable,
    find-update_where (has_job_id i) (is_recoverable stale now) start_delivery db.delivery_jobs
          (λ x h. refl)
        ∙ rw (found, recoverable) (ap some (ap (λ s. record j { status = s }) (sym busy))),
  )
    where
      recoverable : is_recoverable stale now j ≡ true
      recoverable = rw busy (ground arith)
