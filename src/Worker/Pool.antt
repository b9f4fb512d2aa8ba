-- ===== src/Worker/Pool.antt =====
-- core/queue_worker.py: the queue, the workers that drain it, and its start and stop.
use healpipe.Prelude.{
  ℕ, zero, suc, ◌+◌, Bool, true, false, Option, none, some, List, [], ◌∷◌, ◌++◌, if◌then◌else◌,
}
use healpipe.Services.Outbound.{Outcome}
use healpipe.Worker.Delivery.{Job, Setting, World, run_job}

-- The queue, in the order of arrival, `_running`, and the number of worker threads.
pub record Pool : Type 0 where
  pub jobs : List (Option Job)
  pub running : Bool
  pub workers : ℕ

abbrev pub put_job : Option Job → Pool → Pool
put_job job p = record p { jobs = p.jobs ++ job ∷ [] }

unfoldable pub start_queue_workers : ℕ → Pool → Pool
start_queue_workers worker_count p =
    if p.running then p else record p { running = true; workers = p.workers + worker_count }

-- The default of `worker_count`.
abbrev pub default_workers : ℕ
default_workers = 2

-- `api_role`: HEALPIPE_PROCESS_ROLE is "api", in some case.
unfoldable pub enqueue_delivery : (api_role : Bool) → Job → Pool → Pool
enqueue_delivery api_role job p =
    let ready = if p.running then p else start_queue_workers default_workers p in
    if api_role then p else put_job (some job) ready

abbrev pub put_stops : ℕ → Pool → Pool
put_stops zero p = p
put_stops (suc n) p = put_stops n (put_job none p)

-- Up to the joins, which wait for the threads.
unfoldable pub stop_queue_workers : Pool → Pool
stop_queue_workers p =
    if p.running
    then record (put_stops p.workers (record p { running = false })) { workers = 0 }
    else p

-- One worker, while `_running` is set: it stops at a None, and goes on after an exception. A round
-- has its setting and the outcome of its POST; the queue is the one that the workers share.
unfoldable pub worker_loop :
    List (Setting × Outcome) → List (Option Job) → World → List (Option Job) × World
worker_loop [] jobs w = (jobs, w)
worker_loop (round ∷ rounds) [] w = ([], w)
worker_loop (round ∷ rounds) (none ∷ jobs) w = (jobs, w)
worker_loop (round ∷ rounds) (some job ∷ jobs) w =
    worker_loop rounds jobs (run_job round.0 job round.1 w).1
