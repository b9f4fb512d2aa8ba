-- ===== src/Database/Idempotency/Exclusive.antt =====
-- No two events ever win one idempotency key, and no bridge is sent two digests for one period.
use healpipe.Prelude.{
  ℕ, String, true, false, ◌&&◌, none, some, List, [], ◌∷◌, ◌++◌, ◌≡◌, refl, ◌∙◌, ◌==◌, nat_eq,
  string_eq, ltb, arith, inl, inr, Bool-cases, Option-cases, ◌⊎◌,
}
use healpipe.Prelude.Table.{
  find, find_sound, find-find_unique, any, any-append_new, find-count_where,
  count_where-zero_of_find,
}
use healpipe.Database.Schema.{Uuid, Time, IdempotencyClaim}
use healpipe.Database.State.{Db}
use healpipe.Database.Idempotency.{
  has_key, is_live, claim_idempotency_key, is_run_of, new_run, claim_digest_run,
}
use healpipe.Database.Idempotency.Claims.{
  IsUnique, any-find, owner, claim_idempotency_key-IsUnique, claim-owner, claim-keeps_owner,
}

pub record ClaimCall : Type 0 where
  pub bridge_id : Uuid
  pub event_id : Uuid
  pub key : String
  pub ttl : ℕ
  pub now : Time

unfoldable pub run_claims : List ClaimCall → Db → Db
run_claims [] db = db
run_claims (c ∷ cs) db =
    run_claims cs (claim_idempotency_key c.bridge_id c.event_id c.key c.ttl c.now db).1

configured-claim :
    (b event : Uuid) (key : String) (ttl : ℕ) (now : Time) (db : Db)
    → (claim_idempotency_key b event key ttl now db).1.configured ≡ db.configured
unfolding claim_idempotency_key
configured-claim b event key ttl now db = ground arith

run_claims-keeps :
    (cs : List ClaimCall) (b e : Uuid) (key : String) (db : Db)
    → IsUnique db.idempotency_claims
    → db.configured ≡ true
    → owner b key db ≡ some e
    → IsUnique (run_claims cs db).idempotency_claims
      × ((run_claims cs db).configured ≡ true)
      × (owner b key (run_claims cs db) ≡ some e)
unfolding run_claims
run_claims-keeps [] b e key db u on h = (u, on, h)
run_claims-keeps (c ∷ cs) b e key db u on h =
    run_claims-keeps cs b e key
      (claim_idempotency_key c.bridge_id c.event_id c.key c.ttl c.now db).1
      (claim_idempotency_key-IsUnique c.bridge_id c.event_id c.key c.ttl c.now db u)
      (configured-claim c.bridge_id c.event_id c.key c.ttl c.now db ∙ on)
      (claim-keeps_owner c.bridge_id c.event_id c.key c.ttl c.now db u on b e key h)

-- Once the claim of a key has succeeded for an event, then after any claims of any keys, at any
-- times, a claim of that key on the same bridge succeeds for no other event. (In a configured
-- database whose claims satisfy the unique constraint.)
pub claims_exclusive :
    (b e e' : Uuid) (key : String) (ttl ttl' : ℕ) (now now' : Time) (cs : List ClaimCall) (db : Db)
    → IsUnique db.idempotency_claims
    → db.configured ≡ true
    → (claim_idempotency_key b e key ttl now db).0 ≡ true
    → (claim_idempotency_key b e' key ttl' now'
        (run_claims cs (claim_idempotency_key b e key ttl now db).1)).0
      ≡ true
    → e ≡ e'
claims_exclusive b e e' key ttl ttl' now now' cs db u on first second = ground (
  arith,
  claim-owner b e' key ttl' now' later kept.0 kept.1 second,
  claim-keeps_owner b e' key ttl' now' later kept.0 kept.1 b e key kept.2,
)
  where
    start : Db
    start = (claim_idempotency_key b e key ttl now db).1

    later : Db
    later = run_claims cs start

    kept :
        IsUnique later.idempotency_claims × (later.configured ≡ true) × (owner b key later ≡ some e)
    kept =
        run_claims-keeps cs b e key start (claim_idempotency_key-IsUnique b e key ttl now db u)
          (configured-claim b e key ttl now db ∙ on) (claim-owner b e key ttl now db u on first)

-- A key that has a claim on the bridge is never claimed anew: until the claim expires a call
-- succeeds for its event alone, from then on it fails for every event, that one included, and the
-- database stays as it is. (In a configured database whose claims satisfy the unique constraint.)
pub claim_held :
    (b event : Uuid) (key : String) (ttl : ℕ) (now : Time) (db : Db) (c : IdempotencyClaim)
    → IsUnique db.idempotency_claims
    → db.configured ≡ true
    → find (has_key b key) db.idempotency_claims ≡ some c
    → claim_idempotency_key b event key ttl now db
      ≡ (ltb now c.expires_at && c.event_id == event, db)
unfolding claim_idempotency_key
claim_held b event key ttl now db c u on held =
    elim (Option-cases (find (is_live b key now) db.idempotency_claims)) [
      | inr (x, live) ↦
          let own : find (has_key b key) db.idempotency_claims ≡ some x =
            find-find_unique (is_live b key now) (has_key b key) db.idempotency_claims live
              (let held = find_sound (is_live b key now) db.idempotency_claims live in ground arith)
              (u.keys b key) in
          let alive = find_sound (is_live b key now) db.idempotency_claims live in
          let same : c ≡ x = ground arith in simp (on, live) (rw same (ground (arith, alive)))
      | inl dead ↦
          let expired : ltb now c.expires_at ≡ false =
            is_dead dead (Bool-cases (ltb now c.expires_at)) in
          simp (on, dead, taken (Bool-cases (any (has_key b key) db.idempotency_claims)), expired)
    ]
  where
    key_of : has_key b key c ≡ true
    key_of = find_sound (has_key b key) db.idempotency_claims held

    is_dead :
        find (is_live b key now) db.idempotency_claims ≡ none
        → (ltb now c.expires_at ≡ true) ⊎ (ltb now c.expires_at ≡ false)
        → ltb now c.expires_at ≡ false
    is_dead dead (inl t) = absurd (
        omega (
          arith,
          find-count_where (has_key b key) (is_live b key now) db.idempotency_claims held
              (rw (key_of, t)),
          count_where-zero_of_find (is_live b key now) db.idempotency_claims dead,
        ))
    is_dead dead (inr f) = f

    taken :
        (any (has_key b key) db.idempotency_claims ≡ true)
          ⊎ (any (has_key b key) db.idempotency_claims ≡ false)
        → any (has_key b key) db.idempotency_claims ≡ true
    taken (inl t) = t
    taken (inr f) =
        absurd (let gone = any-find (has_key b key) db.idempotency_claims f in ground arith)

-- The digest of a bridge and a period is claimed once: the first call succeeds where no run is
-- recorded, and every later call for them fails and changes nothing. (In a configured database.)
pub claim_digest_run_once :
    (b : Uuid) (start now now' : Time) (db : Db)
    → db.configured ≡ true
    → any (is_run_of b start) db.digest_runs ≡ false
    → ((claim_digest_run b start now db).0 ≡ true)
      × (claim_digest_run b start now' (claim_digest_run b start now db).1
          ≡ (false, (claim_digest_run b start now db).1))
unfolding claim_digest_run
claim_digest_run_once b start now now' db on free = simp (on, free) (refl, simp (on, again))
  where
    again : any (is_run_of b start) (db.digest_runs ++ new_run b start now db ∷ []) ≡ true
    again =
        any-append_new (is_run_of b start) db.digest_runs (new_run b start now db) (ground arith)
