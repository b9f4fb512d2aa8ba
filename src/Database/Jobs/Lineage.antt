-- ===== src/Database/Jobs/Lineage.antt =====
-- Sequences of calls on delivery jobs, and what a replay is.
use healpipe.Prelude.{
  ℕ, ◌+◌, String, true, Option, none, some, List, [], ◌∷◌, ◌≡◌, refl, sym, ap, subst, ◌∙◌, nat_eq,
  arith,
}
use healpipe.Prelude.Table.{find, find_sound, find-append_found, find-append_new, find-none}
use healpipe.Database.Schema.{Uuid, Time, DeliveryJob, JobStatus}
use healpipe.Database.Schema.Json.{Payload}
use healpipe.Database.State.{Db}
use healpipe.Database.Jobs.{
  has_job_id, create_delivery_job, is_replayable, root_id, replay_delivery_job, update_delivery_job,
  fetch_recoverable_delivery_jobs,
}
use healpipe.Database.Jobs.Replay.{
  IsRoot, IsLinked, create_delivery_job-IsLinked, update_delivery_job-IsLinked,
  fetch_recoverable-IsLinked, root_id-IsRoot, replay-result, replay-IsLinked,
}

pub data JobCall : Type 0 where
  create : Uuid → Uuid → Payload → String → Option String → Uuid → Time → JobCall
  set_status : Uuid → JobStatus → ℕ → Option String → Option Time → Time → JobCall
  recover : ℕ → Time → JobCall
  replay : Uuid → Time → JobCall

-- What a replay takes over from its job, and what it starts with.
pub record IsReplayOf (j : DeliveryJob) (fresh : Uuid) (now : Time) (r : DeliveryJob) : Type 0 where
  pub job_id : r.job_id ≡ fresh
  pub account_id : r.account_id ≡ j.account_id
  pub event_id : r.event_id ≡ j.event_id
  pub bridge_id : r.bridge_id ≡ j.bridge_id
  pub body : r.body ≡ j.body
  pub target_url : r.target_url ≡ j.target_url
  pub idempotency_key : r.idempotency_key ≡ j.idempotency_key
  pub status : r.status ≡ JobStatus.queued
  pub attempt_count : r.attempt_count ≡ 0
  pub replay_count : r.replay_count ≡ j.replay_count + 1
  pub next_attempt_at : r.next_attempt_at ≡ now
  pub completed_at : r.completed_at ≡ none

module _ (show : Uuid → String) where
  unfoldable pub call : JobCall → Db → Db
  call (create event b body url key account now) db =
      (create_delivery_job event b body url key account now db).1
  call (set_status i status n error next now) db = update_delivery_job i status n error next now db
  call (recover stale now) db = (fetch_recoverable_delivery_jobs stale now db).1
  call (replay i now) db = (replay_delivery_job show i now db).1

  unfoldable pub run : List JobCall → Db → Db
  run [] db = db
  run (c ∷ cs) db = run cs (call c db)

  call-IsLinked : (c : JobCall) (db : Db) → IsLinked db → IsLinked (call c db)
  unfolding call
  call-IsLinked (create event b body url key account now) db w =
      create_delivery_job-IsLinked event b body url key account now db w
  call-IsLinked (set_status i status n error next now) db w =
      update_delivery_job-IsLinked i status n error next now db w
  call-IsLinked (recover stale now) db w = fetch_recoverable-IsLinked stale now db w
  call-IsLinked (replay i now) db w = replay-IsLinked show i now db w

  -- Creating, updating, recovering and replaying jobs, in any order, keeps the identifiers distinct
  -- and every replay pointing at a job that is in the table and is no replay itself.
  pub run-IsLinked : (cs : List JobCall) (db : Db) → IsLinked db → IsLinked (run cs db)
  unfolding run
  run-IsLinked [] db w = w
  run-IsLinked (c ∷ cs) db w = run-IsLinked cs (call c db) (call-IsLinked c db w)

  -- A replay that is made comes from a job of the table that was dead-lettered or retrying. It is a
  -- new queued job with no attempts, due at once, with the account, event, bridge, body, target and
  -- idempotency key of that job and one more replay. It points at the job that this one points at,
  -- or else at this one itself; that is a job of the table which is no replay. Every job that was in
  -- the table stays as it was. (Where replays point at jobs that are none.)
  pub replay_lineage :
      (i : Uuid) (now : Time) (db : Db) (r : DeliveryJob)
      → IsLinked db
      → (replay_delivery_job show i now db).0 ≡ some r
      → (j : DeliveryJob) × (find (has_job_id i) db.delivery_jobs ≡ some j)
        × (is_replayable j.status ≡ true)
        × IsReplayOf j db.next_id now r
        × (r.original_job_id ≡ some (elim j.original_job_id [ none ↦ i | some o ↦ o ]))
        × IsRoot
            (replay_delivery_job show i now db).1.delivery_jobs
            (elim j.original_job_id [ none ↦ i | some o ↦ o ])
        × (find (has_job_id r.job_id) (replay_delivery_job show i now db).1.delivery_jobs ≡ some r)
        × ((k : Uuid) (old : DeliveryJob)
            → find (has_job_id k) db.delivery_jobs ≡ some old
            → find (has_job_id k) (replay_delivery_job show i now db).1.delivery_jobs ≡ some old)
  replay_lineage i now db r w h =
      let (j, found, fit, same, after) = replay-result show i now db {r = r} h in
      let (o, at, first) = root_id-IsRoot i db {j = j} w found in
      let named : j.job_id ≡ i =
        let k = find_sound (has_job_id i) db.delivery_jobs found in ground arith in
      let place : root_id j ≡ elim j.original_job_id [ none ↦ i | some o ↦ o ] =
        ground (arith, named) in
      (
        j,
        found,
        fit,
        subst (IsReplayOf j db.next_id now) (sym same) (record {
          job_id = refl;
          account_id = refl;
          event_id = refl;
          bridge_id = refl;
          body = refl;
          target_url = refl;
          idempotency_key = refl;
          status = refl;
          attempt_count = refl;
          replay_count = refl;
          next_attempt_at = refl;
          completed_at = refl;
        }),
        ap (λ x. x.original_job_id) same ∙ ap some place,
        subst (IsRoot (replay_delivery_job show i now db).1.delivery_jobs) place (
            rw after (
              o,
              find-append_found (has_job_id (root_id j)) db.delivery_jobs (r ∷ []) {a = o} at,
              first,
            )),
        rw after (
            find-append_new (has_job_id r.job_id) db.delivery_jobs r
              (find-none (has_job_id r.job_id) db.delivery_jobs
                (w.fresh r.job_id (rw same (ground arith))))
              (ground arith)),
        λ k old e.
            rw after (find-append_found (has_job_id k) db.delivery_jobs (r ∷ []) {a = old} e),
      )
