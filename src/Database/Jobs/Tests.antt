-- ===== src/Database/Jobs/Tests.antt =====
-- The theorems on delivery jobs at a concrete table.
use healpipe.Prelude.{String, true, none, some, List, [], ◌∷◌, ◌≡◌, refl, arith}
use healpipe.Prelude.Table.{count_where, find, any}
use healpipe.Database.Schema.{Uuid, DeliveryJob, JobStatus}
use healpipe.Database.State.{Db}
use healpipe.Database.Jobs.{
  has_job_id, is_due, is_replayable, replay_of, start_delivery, get_delivery_job,
  replay_delivery_job, fetch_recoverable_delivery_jobs,
}
use healpipe.Database.Jobs.Recovery.{poll_claims_due}
use healpipe.Database.Jobs.Replay.{IsLinked, IsRoot}
use healpipe.Database.Jobs.Lineage.{JobCall, IsReplayOf, run, run-IsLinked, replay_lineage}
use healpipe.Samples.{empty_db, sample_job}

abbrev show_id : Uuid → String
show_id i = "an id"

abbrev jobs_db : Db
jobs_db = record empty_db {
  delivery_jobs =
      sample_job 1 JobStatus.queued
      ∷ sample_job 2 JobStatus.dead_lettered
      ∷ sample_job 4 JobStatus.delivering
      ∷ [];
}

jobs_db-IsLinked : IsLinked jobs_db
unfolding count_where
jobs_db-IsLinked = record {
  ids = λ i. ground arith;
  fresh = λ i h. ground arith;
  roots = (
    λ i e. absurd (ground arith),
    (λ i e. absurd (ground arith), (λ i e. absurd (ground arith), tt)),
  );
}

abbrev some_calls : List JobCall
some_calls =
    JobCall.create 3 9 [] "https://example.org" none 7 11
    ∷ JobCall.replay 2 12
    ∷ JobCall.recover 300 13
    ∷ JobCall.set_status 1 JobStatus.delivered 1 none none 14
    ∷ []

run-IsLinked_example : IsLinked (run show_id some_calls jobs_db)
run-IsLinked_example = run-IsLinked show_id some_calls jobs_db jobs_db-IsLinked

abbrev replayed : DeliveryJob
replayed = replay_of show_id (sample_job 2 JobStatus.dead_lettered) 100 12

is_replayed : (replay_delivery_job show_id 2 12 jobs_db).0 ≡ some replayed
unfolding replay_delivery_job get_delivery_job find
is_replayed = refl

abbrev ReplayOf : Type 0
ReplayOf =
    (j : DeliveryJob) × (find (has_job_id 2) jobs_db.delivery_jobs ≡ some j)
    × (is_replayable j.status ≡ true)
    × IsReplayOf j 100 12 replayed
    × (replayed.original_job_id ≡ some (elim j.original_job_id [ none ↦ 2 | some o ↦ o ]))
    × IsRoot (replay_delivery_job show_id 2 12 jobs_db).1.delivery_jobs
        (elim j.original_job_id [ none ↦ 2 | some o ↦ o ])
    × (find (has_job_id 100) (replay_delivery_job show_id 2 12 jobs_db).1.delivery_jobs
        ≡ some replayed)
    × ((k : Uuid) (old : DeliveryJob)
        → find (has_job_id k) jobs_db.delivery_jobs ≡ some old
        → find (has_job_id k) (replay_delivery_job show_id 2 12 jobs_db).1.delivery_jobs ≡ some old)

replay_lineage_example : ReplayOf
replay_lineage_example = replay_lineage show_id 2 12 jobs_db replayed jobs_db-IsLinked is_replayed

found_queued : find (has_job_id 1) jobs_db.delivery_jobs ≡ some (sample_job 1 JobStatus.queued)
unfolding find
found_queued = refl

poll_claims_due_example :
    (any (has_job_id 1) (fetch_recoverable_delivery_jobs 300 20 jobs_db).0 ≡ true)
    × (find (has_job_id 1) (fetch_recoverable_delivery_jobs 300 20 jobs_db).1.delivery_jobs
        ≡ some (start_delivery (sample_job 1 JobStatus.queued)))
    × (count_where (is_due 20) (fetch_recoverable_delivery_jobs 300 20 jobs_db).1.delivery_jobs ≡ 0)
poll_claims_due_example =
    poll_claims_due 300 20 jobs_db refl 1 (sample_job 1 JobStatus.queued) found_queued refl
