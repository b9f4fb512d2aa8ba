-- ===== src/Worker/Drain.antt =====
-- What the worker loop does with the jobs of its queue.
use healpipe.Prelude.{ℕ, zero, suc, length, Option, none, some, List, [], ◌∷◌, ◌≡◌, refl}
use healpipe.Services.Outbound.{Outcome}
use healpipe.Worker.Delivery.{Setting, Job, World, attempt_count, run_job}
use healpipe.Worker.Pool.{worker_loop}

run_job_drops :
    (s : Setting) (job : Job) (outcome : Outcome) (w : World) → (run_job s job outcome w).1 ≡ w
unfolding run_job attempt_count
run_job_drops s job outcome w = refl

-- What a queue still holds after some rounds of one worker: each round takes the first entry, and
-- the worker stops at an entry without a job.
abbrev pub unserved : ℕ → List (Option Job) → List (Option Job)
unserved zero jobs = jobs
unserved (suc n) [] = []
unserved (suc n) (none ∷ jobs) = jobs
unserved (suc n) (some job ∷ jobs) = unserved n jobs

-- Whatever jobs are in the queue, whatever their POSTs would come to, and however many rounds a
-- worker makes, it takes one entry a round up to its stop, and the database, the claims and the
-- alerts stay as they were: each job that it takes is gone from the queue, and is not delivered,
-- retried or dead-lettered, and nothing of it is recorded.
pub no_job_is_delivered :
    (rounds : List (Setting × Outcome)) (jobs : List (Option Job)) (w : World)
    → worker_loop rounds jobs w ≡ (unserved (length rounds) jobs, w)
unfolding worker_loop
no_job_is_delivered [] jobs w = refl
no_job_is_delivered (round ∷ rounds) [] w = refl
no_job_is_delivered (round ∷ rounds) (none ∷ jobs) w = refl
no_job_is_delivered (round ∷ rounds) (some job ∷ jobs) w =
    rw (run_job_drops round.0 job round.1 w, worker_loop) (no_job_is_delivered rounds jobs w)
