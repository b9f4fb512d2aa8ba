-- ===== src/Database/Idempotency/Claims.antt =====
-- Who owns an idempotency key, and what becomes of a claim that has expired.
use healpipe.Prelude.{
  ℕ, ◌≤◌, String, Bool, true, false, Option, none, some, List, [], ◌∷◌, ◌≡◌, refl, nat_eq,
  string_eq, if◌then◌else◌, arith, inl, inr, Bool-cases, Option-cases, eq_iff,
}
use healpipe.Prelude.Table.{
  find, find_sound, find-find_unique, any, any-count_where, find-none, count_where, update_where,
  count_where-append, count_where-update_where_same, find-update_where, find-append_new,
  find-append_found,
}
use healpipe.Database.Schema.{Uuid, Time, IdempotencyClaim}
use healpipe.Database.State.{Db}
use healpipe.Database.Idempotency.{
  has_key, is_live, is_expired, expire, new_claim, claim_idempotency_key,
}

-- The unique constraint.
pub record IsUnique (claims : List IdempotencyClaim) : Type 0 where
  pub keys : (b : Uuid) (key : String) → count_where (has_key b key) claims ≤ 1

unfoldable pub owner : Uuid → String → Db → Option Uuid
owner b key db = elim (find (has_key b key) db.idempotency_claims) [
  | none ↦ none
  | some c ↦ some c.event_id
]

pub claim_idempotency_key-IsUnique :
    (b event : Uuid) (key : String) (ttl : ℕ) (now : Time) (db : Db)
    → IsUnique db.idempotency_claims
    → IsUnique (claim_idempotency_key b event key ttl now db).1.idempotency_claims
unfolding claim_idempotency_key
claim_idempotency_key-IsUnique b event key ttl now db u = elim (Bool-cases db.configured) [
  | inr e ↦ rw e u
  | inl e ↦ elim (Option-cases (find (is_live b key now) db.idempotency_claims)) [
    | inr (c, live) ↦ rw (e, live) u
    | inl dead ↦ elim (Bool-cases (any (has_key b key) db.idempotency_claims)) [
      | inl taken ↦ rw (e, dead, taken) u
      | inr free ↦
          rw (e, dead, free)
            (record {
              keys = λ j k.
                  rw
                    (
                      count_where-append,
                      count_where-update_where_same (has_key j k) (is_expired now) (expire now)
                          db.idempotency_claims (λ x h. refl),
                    )
                    (unfold count_where in
                      ground (
                        arith,
                        u.keys j k,
                        eq_iff key k,
                        any-count_where (has_key b key) db.idempotency_claims free,
                      ));
            })
    ]
  ]
]

pub any-find : {A : Type 0} (p : A → Bool) (xs : List A) → any p xs ≡ false → find p xs ≡ none
any-find p xs h = find-none p xs (any-count_where p xs h)

-- The rows that an update of the expired claims leaves for a key keep their owner.
owner_expired :
    (c : Uuid) (k : String) (now : Time) (claims : List IdempotencyClaim)
    → find (has_key c k) (update_where (is_expired now) (expire now) claims)
      ≡ elim (find (has_key c k) claims) [
        | none ↦ none
        | some x ↦ some (if is_expired now x then expire now x else x)
      ]
owner_expired c k now claims =
    find-update_where (has_key c k) (is_expired now) (expire now) claims (λ x h. refl)

module _ (b event : Uuid) (key : String) (ttl : ℕ) (now : Time) (db : Db)
    (u : IsUnique db.idempotency_claims) (e : db.configured ≡ true) where
  -- A claim that succeeds leaves the key with the event that made it.
  pub claim-owner :
      (claim_idempotency_key b event key ttl now db).0 ≡ true
      → owner b key (claim_idempotency_key b event key ttl now db).1 ≡ some event
  unfolding claim_idempotency_key owner
  claim-owner h = elim (Option-cases (find (is_live b key now) db.idempotency_claims)) [
    | inr (c, live) ↦
        let own : find (has_key b key) db.idempotency_claims ≡ some c =
          find-find_unique (is_live b key now) (has_key b key) db.idempotency_claims live
            (let held = find_sound (is_live b key now) db.idempotency_claims live in ground arith)
            (u.keys b key) in
        let same = simp (e, live) at h in rw (e, live, owner, own) (ground (arith, same))
    | inl dead ↦ elim (Bool-cases (any (has_key b key) db.idempotency_claims)) [
      | inl taken ↦ absurd (let no = simp (e, dead, taken) at h in ground arith)
      | inr free ↦
          rw (e, dead, free)
            (rw (
              owner,
              find-append_new (has_key b key)
                  (update_where (is_expired now) (expire now) db.idempotency_claims)
                  (new_claim b event key ttl now db)
                  (rw
                    (owner_expired b key now, any-find (has_key b key) db.idempotency_claims free))
                  (ground (arith, eq_iff key key)),
            ))
    ]
  ]

  -- No claim takes a key away from its owner.
  pub claim-keeps_owner :
      (c other : Uuid) (k : String)
      → owner c k db ≡ some other
      → owner c k (claim_idempotency_key b event key ttl now db).1 ≡ some other
  unfolding claim_idempotency_key owner
  claim-keeps_owner c other k h =
      elim (Option-cases (find (is_live b key now) db.idempotency_claims)) [
        | inr (x, live) ↦ rw (e, live) h
        | inl dead ↦ elim (Bool-cases (any (has_key b key) db.idempotency_claims)) [
          | inl taken ↦ rw (e, dead, taken) h
          | inr free ↦ elim (Option-cases (find (has_key c k) db.idempotency_claims)) [
            | inl missing ↦ absurd (let no = rw (owner, missing) at h in ground arith)
            | inr (x, held) ↦
                let owns : x.event_id ≡ other = ground (arith, rw (owner, held) at h) in
                rw (e, dead, free)
                  (rw
                    (
                      owner,
                      find-append_found (has_key c k)
                          (update_where (is_expired now) (expire now) db.idempotency_claims)
                          (new_claim b event key ttl now db ∷ [])
                          {a = if is_expired now x then expire now x else x}
                          (rw (owner_expired c k now, held)),
                    )
                    (ground (arith, owns)))
          ]
        ]
      ]
