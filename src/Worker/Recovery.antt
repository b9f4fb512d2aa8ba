-- ===== src/Worker/Recovery.antt =====
-- main.py: `delivery_recovery_loop`; worker.py: `recovery_loop`. One round, up to its sleep.
use healpipe.Prelude.{
  ℕ, ◌+◌, Bool, true, false, ◌&&◌, Option, none, some, List, [], ◌∷◌, ◌≡◌, refl, ◌∙◌, ap, map, ◌==◌,
  nat_eq, inl, inr, arith, Bool-cases,
}
use healpipe.Prelude.Table.{select, count_where, insert_by, order_by, count_where-append}
use healpipe.Database.Schema.{Uuid, Time, DeliveryJob}
use healpipe.Database.State.{Db}
use healpipe.Database.Jobs.{
  has_job_id, is_recoverable, start_delivery, stale_after, fetch_recoverable_delivery_jobs,
}
use healpipe.Worker.Delivery.{Job}
use healpipe.Worker.Pool.{Pool, enqueue_delivery, start_queue_workers}

abbrev pub recovered_entry : DeliveryJob → Job
recovered_entry job = record {
  job_id = job.job_id;
  event_id = job.event_id;
  body = job.body;
  target_url = job.target_url;
  bridge_id = job.bridge_id;
  idempotency_key = job.idempotency_key;
  is_replay = false;
}

-- The loop over the jobs of a poll.
unfoldable pub enqueue_all : (api_role : Bool) → List DeliveryJob → Pool → Pool
enqueue_all api_role [] pool = pool
enqueue_all api_role (job ∷ jobs) pool =
    enqueue_all api_role jobs (enqueue_delivery api_role (recovered_entry job) pool)

unfoldable pub delivery_recovery_round : (api_role : Bool) → Time → Db × Pool → Db × Pool
delivery_recovery_round api_role now (db, pool) =
    let (jobs, after) = fetch_recoverable_delivery_jobs stale_after now db in
    (after, enqueue_all api_role jobs pool)

-- The worker process sets its role to "worker" before its loop.
abbrev pub recovery_round : Time → Db × Pool → Db × Pool
recovery_round now state = delivery_recovery_round false now state

abbrev pub is_entry_of : Uuid → Option Job → Bool
is_entry_of i none = false
is_entry_of i (some job) = job.job_id == i

enqueue_delivery_lem :
    (i : Uuid) (job : DeliveryJob) (pool : Pool)
    → count_where (is_entry_of i) (enqueue_delivery false (recovered_entry job) pool).jobs
      ≡ count_where (is_entry_of i) pool.jobs + count_where (has_job_id i) (job ∷ [])
unfolding count_where enqueue_delivery start_queue_workers
enqueue_delivery_lem i job pool =
    let added = count_where-append (is_entry_of i) pool.jobs (some (recovered_entry job) ∷ []) in
    elim (Bool-cases pool.running) [ inl e ↦ rw e added | inr e ↦ rw e added ]

enqueue_all_lem :
    (i : Uuid) (jobs : List DeliveryJob) (pool : Pool)
    → count_where (is_entry_of i) (enqueue_all false jobs pool).jobs
      ≡ count_where (is_entry_of i) pool.jobs + count_where (has_job_id i) jobs
unfolding enqueue_all count_where
enqueue_all_lem i [] pool = omega arith
enqueue_all_lem i (job ∷ jobs) pool =
    let one = enqueue_delivery_lem i job pool in
    let rest = enqueue_all_lem i jobs (enqueue_delivery false (recovered_entry job) pool) in
    rest ∙ rw one (ground arith)

count_where-insert_by :
    {A : Type 0} (p : A → Bool) (key : A → ℕ) (a : A) (xs : List A)
    → count_where p (insert_by key a xs) ≡ count_where p (a ∷ xs)
unfolding insert_by count_where
count_where-insert_by p key a [] = refl
count_where-insert_by p key a (x ∷ xs) = ground (arith, count_where-insert_by p key a xs)

count_where-order_by :
    {A : Type 0} (p : A → Bool) (key : A → ℕ) (xs : List A)
    → count_where p (order_by key xs) ≡ count_where p xs
unfolding order_by count_where
count_where-order_by p key [] = refl
count_where-order_by p key (x ∷ xs) =
    ground (arith, count_where-insert_by p key x (order_by key xs), count_where-order_by p key xs)

count_where-started :
    (i : Uuid) (q : DeliveryJob → Bool) (xs : List DeliveryJob)
    → count_where (has_job_id i) (map start_delivery (select q xs))
      ≡ count_where (λ j. q j && has_job_id i j) xs
unfolding count_where select
count_where-started i q [] = refl
count_where-started i q (x ∷ xs) = ground (arith, count_where-started i q xs)

-- A round of the recovery loop, in a process that delivers and has a database, adds to the queue
-- one more entry of a job for each row that is due, or is in delivery and was created 300 seconds
-- ago or more: no job is forgotten, and no entry that already waits in the queue is regarded.
pub recovery_enqueues :
    (now : Time) (db : Db) (pool : Pool) (i : Uuid)
    → db.configured ≡ true
    → count_where (is_entry_of i) (recovery_round now (db, pool)).1.jobs
      ≡ count_where (is_entry_of i) pool.jobs
        + count_where (λ j. is_recoverable stale_after now j && has_job_id i j) db.delivery_jobs
unfolding delivery_recovery_round fetch_recoverable_delivery_jobs
recovery_enqueues now db pool i h = rw h (
    enqueue_all_lem i _ pool
    ∙ ap (λ n. count_where (is_entry_of i) pool.jobs + n)
        (count_where-order_by (has_job_id i) (λ j. j.created_at) _
          ∙ count_where-started i (is_recoverable stale_after now) db.delivery_jobs))
