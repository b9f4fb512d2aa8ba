-- ===== src/Worker/Tests.antt =====
-- The theorems on the delivery worker at a concrete job.
use healpipe.Prelude.{
  ◌+◌, ◌&&◌, String, true, false, Option, none, some, [], ◌∷◌, ◌≡◌, ◌≢◌, refl, ◌∙◌, nat_eq, leb,
  arith, string_eq, ==_ne,
}
use healpipe.Prelude.Table.{find, count_where}
use healpipe.Database.Schema.{Time, JobStatus}
use healpipe.Database.State.{Db, ok}
use healpipe.Database.Jobs.{has_job_id, is_recoverable, stale_after}
use healpipe.Services.Outbound.{Httpx, response, request_error}
use healpipe.Worker.Claims.{claim, drop_expired}
use healpipe.Worker.Delivery.{Job, World, Setting, deliver}
use healpipe.Worker.Verdict.{Ends, verdict_of, deliver-Ends}
use healpipe.Worker.Drain.{no_job_is_delivered}
use healpipe.Worker.Pool.{Pool, worker_loop}
use healpipe.Worker.Recovery.{recovered_entry, is_entry_of, recovery_round, recovery_enqueues}
use healpipe.Worker.Retry.{retry_is_blocked}
use healpipe.Samples.{plain_text, empty_db, sample_job}

abbrev httpx : Httpx
httpx = record { is_success = λ c. leb 200 c; status_error = λ c. "an error" }

abbrev setting_at : Time → Setting
setting_at t = record {
  text = plain_text;
  httpx = httpx;
  configured_backoff = none;
  now = t;
  tick = t;
}

abbrev queued_job : Option String → Job
queued_job key = record {
  job_id = 1;
  event_id = 3;
  body = [];
  target_url = "https://example.org";
  bridge_id = 9;
  idempotency_key = key;
  is_replay = false;
}

abbrev jobs_db : Db
jobs_db = record empty_db { delivery_jobs = sample_job 1 JobStatus.queued ∷ [] }

abbrev world : World
world = record { db = jobs_db; claims = []; alerts = [] }

no_job_is_delivered_example :
    worker_loop ((setting_at 20, response 200 "ok") ∷ []) (some (queued_job none) ∷ []) world
    ≡ ([], world)
no_job_is_delivered_example =
    no_job_is_delivered ((setting_at 20, response 200 "ok") ∷ []) (some (queued_job none) ∷ [])
      world

has_row : find (has_job_id 1) jobs_db.delivery_jobs ≡ some (sample_job 1 JobStatus.queued)
unfolding find
has_row = refl

deliver-Ends_example :
    ((deliver (setting_at 20) (queued_job none) (request_error "timeout") 1 world).0 ≡ ok tt)
    × Ends 1
        (verdict_of (setting_at 20) (queued_job none) (request_error "timeout") 1)
        1
        (deliver (setting_at 20) (queued_job none) (request_error "timeout") 1 world).1.db
deliver-Ends_example =
    deliver-Ends (setting_at 20) (queued_job none) (request_error "timeout") 1 world
      (sample_job 1 JobStatus.queued) tt refl refl has_row

real : ◌≢◌ {A = String} "order-1" ""
real = ==_ne "order-1" "" refl

claimed : (claim (some "order-1") 20 []).0 ≡ true
unfolding claim drop_expired
claimed = refl

abbrev after_failure : World
after_failure =
    record (deliver (setting_at 20) (queued_job (some "order-1")) (request_error "timeout") 1
      world).1 { db = jobs_db }

retry_is_blocked_example :
    ((deliver (setting_at 80) (queued_job (some "order-1")) (response 200 "ok") 2 after_failure).0
      ≡ ok tt)
    × Ends 1 JobStatus.idempotency_blocked 1
        (deliver
          (setting_at 80)
          (queued_job (some "order-1"))
          (response 200 "ok")
          2
          after_failure).1.db
retry_is_blocked_example =
    retry_is_blocked (setting_at 20) (setting_at 80) (queued_job (some "order-1"))
      (request_error "timeout") (response 200 "ok") 1 2 "order-1" world jobs_db refl refl real
      claimed (omega arith) (sample_job 1 JobStatus.queued, (refl, has_row))

abbrev waiting_db : Db
waiting_db = record empty_db {
  delivery_jobs =
      sample_job 1 JobStatus.queued
      ∷ sample_job 2 JobStatus.delivered
      ∷ sample_job 4 JobStatus.delivering
      ∷ [];
}

-- The job already waits in the queue.
abbrev waiting_pool : Pool
waiting_pool = record {
  jobs = some (recovered_entry (sample_job 1 JobStatus.queued)) ∷ [];
  running = true;
  workers = 2;
}

recovery_enqueues_example :
    count_where (is_entry_of 1) (recovery_round 400 (waiting_db, waiting_pool)).1.jobs
    ≡ count_where (is_entry_of 1) waiting_pool.jobs
      + count_where
          (λ j. is_recoverable stale_after 400 j && has_job_id 1 j)
          waiting_db.delivery_jobs
recovery_enqueues_example = recovery_enqueues 400 waiting_db waiting_pool 1 refl

-- So it stands there twice.
queued_twice :
    count_where (is_entry_of 1) (recovery_round 400 (waiting_db, waiting_pool)).1.jobs ≡ 2
unfolding count_where
queued_twice = recovery_enqueues_example ∙ refl
