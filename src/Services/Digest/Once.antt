-- ===== src/Services/Digest/Once.antt =====
-- services/scheduler.py: which bridges and which events get a digest.
use healpipe.Prelude.{
  ◌+◌, ◌-◌, ◌*◌, ◌≤◌, Bool, true, false, not, ◌==◌, List, [], ◌∷◌, ◌++◌, nat_eq, ◌≡◌, refl, sym,
  subst, ◌∙◌, inl, inr, arith, Bool-cases, ==_refl, All, Among,
}
use healpipe.Prelude.Table.{any, select, any-append_new}
use healpipe.Database.Schema.{Uuid, Time, DataBridge, HealingEventRecord}
use healpipe.Database.State.{Db}
use healpipe.Database.Idempotency.{claim_digest_run, is_run_of, new_run}
use healpipe.Services.Digest.{
  day_seconds, week_seconds, period_start, cutoff, is_in_digest, is_delivered_status, digest_events,
  is_running, digest_loop, run_validation_digest,
}
use healpipe.Services.Digest.Weeks.{period_start-next}

any-append :
    {A : Type 0} (p : A → Bool) (xs ys : List A) → any p xs ≡ true → any p (xs ++ ys) ≡ true
unfolding any
any-append p [] ys h = cc h
any-append p (x ∷ xs) ys h = ground (arith, any-append p xs ys)

abbrev HasRun : Uuid → Time → Db → Type 0
HasRun b start db = any (is_run_of b start) db.digest_runs ≡ true

-- What a claim and the loop keep: the bridges, and the runs that are recorded.
abbrev Grows : Db → Db → Type 0
Grows before after =
    (after.configured ≡ before.configured)
    × (after.data_bridges ≡ before.data_bridges)
    × ((b : Uuid) (start : Time) → HasRun b start before → HasRun b start after)

claim_digest_run-Grows :
    (b : Uuid) (start now : Time) (db : Db) → Grows db (claim_digest_run b start now db).1
unfolding claim_digest_run
claim_digest_run-Grows b start now db = elim (Bool-cases db.configured) [
  | inr e ↦ simp e (refl, refl, λ c from h. h)
  | inl e ↦ elim (Bool-cases (any (is_run_of b start) db.digest_runs)) [
    | inl f ↦ simp (e, f) (refl, refl, λ c from h. h)
    | inr f ↦ simp (e, f) (refl, refl, λ c from h. any-append (is_run_of c from) db.digest_runs _ h)
  ]
]

claim_digest_run-HasRun :
    (b : Uuid) (start now : Time) (db : Db)
    → db.configured ≡ true
    → HasRun b start (claim_digest_run b start now db).1
unfolding claim_digest_run
claim_digest_run-HasRun b start now db c =
    elim (Bool-cases (any (is_run_of b start) db.digest_runs)) [
      | inl f ↦ simp (c, f)
      | inr f ↦
          simp (c, f)
            (any-append_new (is_run_of b start) db.digest_runs (new_run b start now db)
              (rw (==_refl b) (rw (==_refl start) refl)))
    ]

claim_again :
    (b : Uuid) (start now : Time) (db : Db)
    → db.configured ≡ true
    → HasRun b start db
    → claim_digest_run b start now db ≡ (false, db)
unfolding claim_digest_run
claim_again b start now db c h = simp (c, h)

digest_loop_lem :
    (now : Time) (bridges : List DataBridge) (db : Db)
    → db.configured ≡ true
    → Grows db (digest_loop now bridges db).1
      × All (λ b. HasRun b.bridge_id (period_start now) (digest_loop now bridges db).1) bridges
unfolding digest_loop
digest_loop_lem now [] db c = ((refl, refl, λ b start h. h), tt)
digest_loop_lem now (b ∷ bridges) db c =
    let start = period_start now in
    let claimed = (claim_digest_run b.bridge_id start now db).1 in
    let step = claim_digest_run-Grows b.bridge_id start now db in
    let rest = digest_loop_lem now bridges claimed (step.0 ∙ c) in
    (
      (rest.0.0 ∙ step.0, rest.0.1 ∙ step.1, λ d from h. rest.0.2 d from (step.2 d from h)),
      (rest.0.2 b.bridge_id start (claim_digest_run-HasRun b.bridge_id start now db c), rest.1),
    )

-- A bridge that has had its digest is passed over.
digest_loop_skip :
    (now : Time) (served : DataBridge → Bool) (bridges : List DataBridge) (db : Db)
    → db.configured ≡ true
    → ((b : DataBridge) → served b ≡ true → HasRun b.bridge_id (period_start now) db)
    → digest_loop now bridges db ≡ digest_loop now (select (λ b. not (served b)) bridges) db
unfolding digest_loop select
digest_loop_skip now served [] db c h = refl
digest_loop_skip now served (b ∷ bridges) db c h = elim (Bool-cases (served b)) [
  | inl e ↦
      rw (e, claim_again b.bridge_id (period_start now) now db c (h b e))
        (digest_loop_skip now served bridges db c h)
  | inr e ↦
      let start = period_start now in
      let step = claim_digest_run-Grows b.bridge_id start now db in
      let rest =
        digest_loop_skip now served bridges (claim_digest_run b.bridge_id start now db).1
          (step.0 ∙ c) (λ d k. step.2 d.bridge_id start (h d k)) in
      rw (e, rest) refl
]

HasRun-among :
    (start : Time) (bridges : List DataBridge) (db : Db) (b : Uuid)
    → All (λ a. HasRun a.bridge_id start db) bridges
    → any (λ a. a.bridge_id == b) bridges ≡ true
    → HasRun b start db
unfolding any
HasRun-among start [] db b t h = absurd (ground arith)
HasRun-among start (a ∷ bridges) db b (l, t) h = elim (Bool-cases (a.bridge_id == b)) [
  | inl e ↦ subst (λ i. HasRun i start db) ((nat_eq.same_iff a.bridge_id b).0 e) l
  | inr e ↦ HasRun-among start bridges db b t (ground (arith, e))
]

run_lem :
    (now : Time) (db : Db)
    → db.configured ≡ true
    → run_validation_digest now db ≡ digest_loop now (select is_running db.data_bridges) db
unfolding run_validation_digest
run_lem now db c = simp c

-- The bridge was active at a run on this database.
abbrev pub was_running : Db → DataBridge → Bool
was_running db b = any (λ a. a.bridge_id == b.bridge_id) (select is_running db.data_bridges)

-- A run of the digest and a later one in the same week, both with a configured database. Whatever
-- has changed in between, the runs that are recorded being kept, the later one is a run over only
-- those active bridges that were not active at the first: no bridge gets a second digest.
pub digest_once :
    (now later : Time) (db next : Db)
    → db.configured ≡ true
    → next.configured ≡ true
    → period_start later ≡ period_start now
    → ((b : Uuid) (start : Time)
        → any (is_run_of b start) (run_validation_digest now db).1.digest_runs ≡ true
        → any (is_run_of b start) next.digest_runs ≡ true)
    → run_validation_digest later next
      ≡ digest_loop later
          (select (λ b. not (was_running db b)) (select is_running next.data_bridges))
          next
digest_once now later db next c d same kept =
    let bridges = select is_running db.data_bridges in
    let (grows, run) = digest_loop_lem now bridges db c in
    let recorded : (b : Uuid)
        → any (λ a. a.bridge_id == b) bridges ≡ true
        → HasRun b (period_start later) next =
      λ b h.
        subst (λ t. HasRun b t next) (sym same)
          (kept b (period_start now) (
            rw (run_lem now db c)
              (HasRun-among (period_start now) bridges (digest_loop now bridges db).1 b run h))) in
    run_lem later next d
    ∙ digest_loop_skip later (was_running db) (select is_running next.data_bridges) next d
        (λ b h. recorded b.bridge_id h)

Among-select :
    {A : Type 0} (p : A → Bool) (a : A) (xs : List A)
    → Among a xs
    → p a ≡ true
    → Among a (select p xs)
unfolding select
Among-select p a [] h k = h
Among-select p a (x ∷ xs) (inl e) k = rw (← e) (rw k (inl refl))
Among-select p a (x ∷ xs) (inr h) k = elim (Bool-cases (p x)) [
  | inl f ↦ rw f (inr (Among-select p a xs h k))
  | inr f ↦ rw f (Among-select p a xs h k)
]

enters :
    (b : Uuid) (from : Time) (e : HealingEventRecord)
    → e.bridge_id ≡ b
    → is_delivered_status e.status ≡ true
    → from ≤ e.created_at
    → is_in_digest b from e ≡ true
enters b from e mine delivered new = ground arith

cutoff_lem : (now : Time) → cutoff now ≡ period_start now - week_seconds
unfolding cutoff
cutoff_lem now = refl

-- A validated or healed event of a bridge that was created in the week of a digest, before it,
-- stands in this digest, and again in that of the week after.
pub digest_repeats :
    (b : Uuid) (now : Time) (e : HealingEventRecord) (db : Db)
    → 4 * day_seconds ≤ now
    → Among e db.healing_events
    → e.bridge_id ≡ b
    → is_delivered_status e.status ≡ true
    → period_start now ≤ e.created_at
    → Among e (digest_events b now db) × Among e (digest_events b (now + week_seconds) db)
unfolding digest_events
digest_repeats b now e db late there mine delivered new =
    let next = period_start-next now late in
    (
      Among-select (is_in_digest b (cutoff now)) e db.healing_events there
          (enters b (cutoff now) e mine delivered (omega (arith, cutoff_lem now))),
      Among-select (is_in_digest b (cutoff (now + week_seconds))) e db.healing_events there (
          enters b (cutoff (now + week_seconds)) e mine delivered
            (omega (arith, cutoff_lem (now + week_seconds)))),
    )
