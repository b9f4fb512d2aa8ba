-- ===== src/Worker/Claims.antt =====
-- core/queue_worker.py: the keys that this process has claimed, each until a time.
use healpipe.Prelude.{
  ℕ, ◌+◌, String, Bool, true, false, not, Option, none, some, [], ◌∷◌, ◌++◌, ◌==◌, string_eq, leb,
  if◌then◌else◌, ◌≡◌, ◌≢◌, arith, eq_iff, ==_false, inl, inr, Bool-cases,
}
use healpipe.Prelude.Dict.{Dict, put, has_key, put_new}
use healpipe.Database.Schema.{Time}

abbrev pub claim_ttl_seconds : ℕ
claim_ttl_seconds = 86400

-- `if not key`: none and the empty text are no key.
abbrev pub real_key : Option String → Option String
real_key none = none
real_key (some k) = if k == "" then none else some k

-- The claims whose time has come are deleted.
unfoldable pub drop_expired : Time → Dict Time → Dict Time
drop_expired now [] = []
drop_expired now ((k, expires_at) ∷ claims) =
    let rest = drop_expired now claims in
    if leb expires_at now then rest else (k, expires_at) ∷ rest

-- `now` is `time.monotonic()`.
unfoldable pub claim : Option String → Time → Dict Time → Bool × Dict Time
claim key now claims = elim (real_key key) [
  | none ↦ (true, claims)
  | some k ↦
      let left = drop_expired now claims in
      if has_key k left then (false, left) else (true, put k (now + claim_ttl_seconds) left)
]

has_key-drop_expired :
    (k : String) (e now : Time) (d : Dict Time)
    → has_key k d ≡ false
    → has_key k (drop_expired now (d ++ (k, e) ∷ [])) ≡ not (leb e now)
unfolding drop_expired
has_key-drop_expired k e now [] h = ground (arith, eq_iff k k)
has_key-drop_expired k e now ((j, f) ∷ d) h = ground (arith, has_key-drop_expired k e now d)

claim_key :
    (k : String) (now : Time) (claims : Dict Time)
    → k ≢ ""
    → let left = drop_expired now claims in
      claim (some k) now claims
      ≡ (if has_key k left then (false, left) else (true, put k (now + claim_ttl_seconds) left))
unfolding claim
claim_key k now claims real = let e = ==_false k "" real in ground arith

-- Once a process has claimed a key, a further claim of it succeeds exactly when the time to live
-- of the first one is over.
pub claim_expires :
    (k : String) (first later : Time) (claims : Dict Time)
    → k ≢ ""
    → (claim (some k) first claims).0 ≡ true
    → (claim (some k) later (claim (some k) first claims).1).0
      ≡ leb (first + claim_ttl_seconds) later
claim_expires k first later claims real h =
    let left = drop_expired first claims in
    let one = claim_key k first claims real in
    elim (Bool-cases (has_key k left)) [
      | inl held ↦ absurd (ground arith)
      | inr free ↦
          let e : claim (some k) first claims
              ≡ (true, left ++ (k, first + claim_ttl_seconds) ∷ []) =
            ground (arith, put_new k (first + claim_ttl_seconds) left) in
          let two = claim_key k later (left ++ (k, first + claim_ttl_seconds) ∷ []) real in
          let gone = has_key-drop_expired k (first + claim_ttl_seconds) later left free in
          ground arith
    ]
