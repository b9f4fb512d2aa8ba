-- ===== src/Database/Jobs/Replay.antt =====
-- The lineage of replays: every replay points at the first job of its chain.
use healpipe.Prelude.{
  ℕ, ◌≤◌, String, Bool, true, Option, none, some, List, [], ◌∷◌, ◌++◌, ◌≡◌, refl, sym, ap, subst,
  ◌∙◌, nat_eq, if◌then◌else◌, arith, inl, inr, Bool-cases, Option-cases, All, some-injective,
  if_keeps,
}
use healpipe.Prelude.Table.{
  find, find_sound, count_where, count_where-append, find-append_found, All-map, All-append_one,
  All-find, update_where, find-update_where, All-update_where, count_where-update_where_same,
}
use healpipe.Database.Schema.{Uuid, Time, DeliveryJob, JobStatus}
use healpipe.Database.Schema.Json.{Payload}
use healpipe.Database.State.{Db}
use healpipe.Database.Jobs.{
  has_job_id, new_job, add_job, create_delivery_job, get_delivery_job, is_replayable, root_id,
  replay_of, replay_delivery_job, set_job, update_delivery_job, fetch_recoverable_delivery_jobs,
  is_recoverable, start_delivery,
}

-- `i` is the identifier of a job that is no replay.
abbrev pub IsRoot : List DeliveryJob → Uuid → Type 0
IsRoot jobs i = (o : DeliveryJob) × (find (has_job_id i) jobs ≡ some o) × (o.original_job_id ≡ none)

abbrev pub HasRoot : List DeliveryJob → DeliveryJob → Type 0
HasRoot jobs j = (i : Uuid) → j.original_job_id ≡ some i → IsRoot jobs i

-- Job identifiers are distinct and below the next fresh one, and every replay points at a job
-- that is no replay itself.
pub record IsLinked (db : Db) : Type 0 where
  pub ids : (i : Uuid) → count_where (has_job_id i) db.delivery_jobs ≤ 1
  pub fresh : (i : Uuid) → db.next_id ≤ i → count_where (has_job_id i) db.delivery_jobs ≡ 0
  pub roots : All (HasRoot db.delivery_jobs) db.delivery_jobs

IsRoot-append :
    (jobs : List DeliveryJob) (j : DeliveryJob) (i : Uuid)
    → IsRoot jobs i
    → IsRoot (jobs ++ j ∷ []) i
IsRoot-append jobs j i (o, found, first) =
    (o, find-append_found (has_job_id i) jobs (j ∷ []) {a = o} found, first)

add_job-IsLinked :
    (j : DeliveryJob) (db : Db)
    → IsLinked db
    → j.job_id ≡ db.next_id
    → HasRoot db.delivery_jobs j
    → IsLinked (add_job j db)
add_job-IsLinked j db w id root = record {
  ids = λ i. rw count_where-append (unfold count_where in ground (arith, w.ids i, w.fresh i));
  fresh = λ i h. rw count_where-append (unfold count_where in ground (arith, w.fresh i));
  roots =
      All-append_one (HasRoot (db.delivery_jobs ++ j ∷ [])) db.delivery_jobs j
        (All-map db.delivery_jobs (λ x h i e. IsRoot-append db.delivery_jobs j i (h i e)) w.roots)
        (λ i e. IsRoot-append db.delivery_jobs j i (root i e));
}

-- An update of rows that keeps their identifiers and their origins.
update-IsLinked :
    (p : DeliveryJob → Bool) (f : DeliveryJob → DeliveryJob) (db : Db)
    → ((j : DeliveryJob) → (f j).job_id ≡ j.job_id)
    → ((j : DeliveryJob) → (f j).original_job_id ≡ j.original_job_id)
    → IsLinked db
    → IsLinked (record db { delivery_jobs = update_where p f db.delivery_jobs })
update-IsLinked p f db id origin w = record {
  ids = λ i.
      rw (count_where-update_where_same (has_job_id i) p f db.delivery_jobs (same_id i)) (w.ids i);
  fresh = λ i h.
      rw (count_where-update_where_same (has_job_id i) p f db.delivery_jobs (same_id i))
        (w.fresh i h);
  roots =
      All-map (update_where p f db.delivery_jobs) (λ x h i e. moved i (h i e))
        (All-update_where (HasRoot db.delivery_jobs) p f db.delivery_jobs
          (λ x h i e. h i (sym (origin x) ∙ e)) w.roots);
}
  where
    same_id : (i : Uuid) (x : DeliveryJob) → p x ≡ true → has_job_id i (f x) ≡ has_job_id i x
    same_id i x _ = rw (id x)

    chosen : (o : DeliveryJob) → (if p o then f o else o).original_job_id ≡ o.original_job_id
    chosen o = elim (Bool-cases (p o)) [ inl t ↦ rw t (origin o) | inr t ↦ rw t ]

    moved : (i : Uuid) → IsRoot db.delivery_jobs i → IsRoot (update_where p f db.delivery_jobs) i
    moved i (o, found, first) = (
      if p o then f o else o,
      find-update_where (has_job_id i) p f db.delivery_jobs (same_id i) ∙ (rw found),
      chosen o ∙ first,
    )

pub create_delivery_job-IsLinked :
    (event b : Uuid) (body : Payload) (url : String) (key : Option String) (account : Uuid)
    (now : Time) (db : Db)
    → IsLinked db
    → IsLinked (create_delivery_job event b body url key account now db).1
unfolding create_delivery_job
create_delivery_job-IsLinked event b body url key account now db w =
    if_keeps (λ (r : Option DeliveryJob × Db). IsLinked r.1) db.configured
      (add_job-IsLinked (new_job db.next_id event b body url key now account) db w refl
        (λ i h. absurd (ground arith)))
      w

pub update_delivery_job-IsLinked :
    (i : Uuid) (status : JobStatus) (n : ℕ) (error : Option String) (next : Option Time)
    (now : Time) (db : Db)
    → IsLinked db
    → IsLinked (update_delivery_job i status n error next now db)
unfolding update_delivery_job set_job
update_delivery_job-IsLinked i status n error next now db w =
    if_keeps IsLinked db.configured
      (update-IsLinked (has_job_id i) (set_job status n error next now) db (λ j. refl) (λ j. refl)
        w)
      w

pub fetch_recoverable-IsLinked :
    (stale : ℕ) (now : Time) (db : Db)
    → IsLinked db
    → IsLinked (fetch_recoverable_delivery_jobs stale now db).1
unfolding fetch_recoverable_delivery_jobs
fetch_recoverable-IsLinked stale now db w =
    if_keeps (λ (r : List DeliveryJob × Db). IsLinked r.1) db.configured
      (update-IsLinked (is_recoverable stale now) start_delivery db (λ j. refl) (λ j. refl) w) w

pub root_id-IsRoot :
    (i : Uuid) (db : Db) {j : DeliveryJob}
    → IsLinked db
    → find (has_job_id i) db.delivery_jobs ≡ some j
    → IsRoot db.delivery_jobs (root_id j)
root_id-IsRoot i db {j} w found = elim (Option-cases j.original_job_id) [
  | inl first ↦
      rw first
        (j, subst (λ k. find (has_job_id k) db.delivery_jobs ≡ some j) (sym itself) found, first)
  | inr (r, e) ↦ rw e (
      All-find (HasRoot db.delivery_jobs) (has_job_id i) db.delivery_jobs {a = j} w.roots found r e)
]
  where
    itself : j.job_id ≡ i
    itself = let k = find_sound (has_job_id i) db.delivery_jobs found in ground arith

pub replay-result :
    (show : Uuid → String) (i : Uuid) (now : Time) (db : Db) {r : DeliveryJob}
    → (replay_delivery_job show i now db).0 ≡ some r
    → (j : DeliveryJob) × (find (has_job_id i) db.delivery_jobs ≡ some j)
      × (is_replayable j.status ≡ true)
      × (r ≡ replay_of show j db.next_id now)
      × ((replay_delivery_job show i now db).1 ≡ add_job r db)
unfolding replay_delivery_job
replay-result show i now db {r} h = elim (Option-cases (get_delivery_job i db)) [
  | inl missing ↦ absurd (let no = rw (missing, replay_delivery_job) at h in ground arith)
  | inr (j, got) ↦ elim (Bool-cases (is_replayable j.status)) [
    | inr k ↦ absurd (let no = rw (got, replay_delivery_job, k) at h in ground arith)
    | inl k ↦
        let same : replay_of show j db.next_id now ≡ r =
          ground (arith, rw (got, replay_delivery_job, k) at h) in
        (
          j,
          unfold get_delivery_job in ground arith,
          k,
          sym same,
          rw (got, replay_delivery_job, k) (ap (λ x. add_job x db) same),
        )
  ]
]

pub replay-IsLinked :
    (show : Uuid → String) (i : Uuid) (now : Time) (db : Db)
    → IsLinked db
    → IsLinked (replay_delivery_job show i now db).1
unfolding replay_delivery_job
replay-IsLinked show i now db w = elim (Option-cases (get_delivery_job i db)) [
  | inl missing ↦ rw (missing, replay_delivery_job) w
  | inr (j, got) ↦ elim (Bool-cases (is_replayable j.status)) [
    | inr k ↦ rw (got, replay_delivery_job, k) w
    | inl k ↦
        rw (got, replay_delivery_job, k)
          (add_job-IsLinked (replay_of show j db.next_id now) db w refl (λ r e.
            rw (some-injective _ _ e) at
              (root_id-IsRoot i db {j = j} w (unfold get_delivery_job in ground arith))))
  ]
]
