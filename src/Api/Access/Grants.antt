-- ===== src/Api/Access/Grants.antt =====
-- core/auth.py and main.py: on what grounds a request is given an account, a role and a bridge.
use healpipe.Prelude.{
  String, Bool, true, false, ◌&&◌, Option, none, some, List, [], ◌∷◌, nat_eq, string_eq, ◌≡◌, refl,
  sym, ap, ◌∙◌, ◌⊎◌, inl, inr, arith, Bool-cases, Option-cases, &&_parts, Among,
}
use healpipe.Prelude.Table.{any, find, find_sound}
use healpipe.Database.Schema.{Uuid, Role, Account, ApiKey, DataBridge, default_account_id}
use healpipe.Database.State.{Db, Result, Error, ok, err, Result-cases}
use healpipe.Database.Accounts.{
  has_account_id, get_default_account, resolve_api_key, is_usable_key, is_unset, is_unexpired,
}
use healpipe.Database.Bridges.{get_active_data_bridge, has_bridge_id, of_account}
use healpipe.Intake.Security.{starts_with, drop}
use healpipe.Api.State.{Request, Session, Setting}
use healpipe.Api.Access.{
  present, read_session_token, bearer_session, has_scope, key_account, request_account, same_role,
  key_role, require_role, require_bridge_account,
}

find-Among : {A : Type 0} (p : A → Bool) (xs : List A) (a : A) → find p xs ≡ some a → Among a xs
unfolding find
find-Among p [] a h = cc
find-Among p (x ∷ xs) a h = elim (Bool-cases (p x)) [
  | inl e ↦ inl (ground arith)
  | inr e ↦ inr (find-Among p xs a (ground arith))
]

-- The request has a bearer token that the serializer accepts under the configured secret.
abbrev pub HasSession : Setting → Request → Session → Type 0
HasSession s request session =
    (header secret : String) × (request.authorization ≡ some header)
    × (starts_with "Bearer " header ≡ true)
    × (present s.session_secret ≡ some secret)
    × (s.loads secret s.session_ttl s.now (s.text.strip (drop 7 header)) ≡ some session)

-- The request has a key whose digest is that of a row which is neither revoked nor expired.
abbrev pub HasKey : Setting → Request → Db → ApiKey → Type 0
HasKey s request db key =
    (raw_key : String) × (present request.api_key ≡ some raw_key)
    × Among key db.api_keys
    × (key.key_hash ≡ s.sha256 raw_key)
    × (is_unset key.revoked_at ≡ true)
    × (is_unexpired s.now key.expires_at ≡ true)

bearer_cases :
    (found : Result (Option Session))
    → ((session : Session) × (found ≡ ok (some session)))
      ⊎ ((found ≡ ok none) ⊎ ((e : Error) × (found ≡ err e)))
bearer_cases (err e) = inr (inr (e, refl))
bearer_cases (ok none) = inr (inl refl)
bearer_cases (ok (some session)) = inl (session, refl)

module _ (s : Setting) (request : Request) where
  bearer_session_sound :
      (session : Session)
      → bearer_session s request ≡ ok (some session)
      → HasSession s request session
  unfolding bearer_session read_session_token
  bearer_session_sound session h = elim (Option-cases request.authorization) [
    | inl e ↦ absurd (ground arith)
    | inr (header, e) ↦ elim (Bool-cases (starts_with "Bearer " header)) [
      | inr f ↦ absurd (ground arith)
      | inl f ↦ elim (Option-cases (present s.session_secret)) [
        | inl g ↦ absurd (ground arith)
        | inr (secret, g) ↦
            elim (Option-cases
              (s.loads secret s.session_ttl s.now (s.text.strip (drop 7 header)))) [
                | inl l ↦ absurd (ground arith)
                | inr (found, l) ↦
                    let same : found ≡ session = ground arith in
                    (header, secret, e, f, g, l ∙ ap some same)
              ]
      ]
    ]
  ]

  resolve_api_key_sound :
      (db : Db) (raw_key : String) (key : ApiKey)
      → present request.api_key ≡ some raw_key
      → resolve_api_key s.sha256 raw_key s.now db ≡ some key
      → HasKey s request db key
  unfolding resolve_api_key
  resolve_api_key_sound db raw_key key p h =
      let found : find (is_usable_key (s.sha256 raw_key) s.now) db.api_keys ≡ some key =
        ground arith in
      let usable =
        &&_parts _ _ (find_sound (is_usable_key (s.sha256 raw_key) s.now) db.api_keys found) in
      let live = &&_parts _ _ usable.1 in
      (
        raw_key,
        p,
        find-Among _ db.api_keys key found,
        ((string_eq.same_iff key.key_hash (s.sha256 raw_key)).0 usable.0),
        live.0,
        live.1,
      )

  abbrev pub BySession : List Role → Uuid → String → Type 0
  BySession allowed account actor =
      (session : Session) × HasSession s request session
      × (any (same_role session.role) allowed ≡ true)
      × (account ≡ session.account_id)
      × (actor ≡ session.actor_id)

  abbrev pub ByKey : List Role → Option String → Db → Uuid → String → Type 0
  ByKey allowed scope db account actor =
      (key : ApiKey) × HasKey s request db key
      × (any (same_role key.role) allowed ≡ true)
      × (has_scope scope key ≡ true)
      × (account ≡ key.account_id)
      × (actor ≡ key.key_prefix)

  abbrev pub ByDefault : Uuid → String → Type 0
  ByDefault account actor =
      (s.account_auth_required ≡ false)
      × (present request.api_key ≡ none)
      × (account ≡ default_account_id)
      × (actor ≡ "local-operator")

  default_account_sound :
      (db : Db) (a : Account) → get_default_account db ≡ some a → a.account_id ≡ default_account_id
  unfolding get_default_account
  default_account_sound db a h =
      let found : find (has_account_id default_account_id) db.accounts ≡ some a = ground arith in
      (nat_eq.same_iff a.account_id default_account_id).0
        (find_sound (has_account_id default_account_id) db.accounts found)

  abbrev pub IsEntitled : List Role → Option String → Db → Uuid → String → Type 0
  IsEntitled allowed scope db account actor =
      BySession allowed account actor
      ⊎ (ByKey allowed scope db account actor ⊎ ByDefault account actor)

  key_granted :
      (allowed : List Role) (scope : Option String) (db : Db) (a b : Uuid) (x y : String)
      → key_role s request allowed db ≡ ok (a, x)
      → key_account s request scope db ≡ ok (b, y)
      → (a ≡ b) × (x ≡ y) × (ByKey allowed scope db b y ⊎ ByDefault b y)
  unfolding key_role key_account
  key_granted allowed scope db a b x y h k = elim (Option-cases (present request.api_key)) [
    | inl e ↦ elim (Option-cases (get_default_account db)) [
      | inl f ↦ absurd (ground arith)
      | inr (account, f) ↦ elim (Bool-cases s.account_auth_required) [
        | inl g ↦ absurd (ground arith)
        | inr g ↦
            let id = default_account_sound db account f in
            let left : (a ≡ account.account_id) × (x ≡ "local-operator") = ground arith in
            let right : (b ≡ account.account_id) × (y ≡ "local-operator") = ground arith in
            (left.0 ∙ sym right.0, left.1 ∙ sym right.1, inr (g, e, right.0 ∙ id, right.1))
      ]
    ]
    | inr (raw_key, e) ↦ elim (Option-cases (resolve_api_key s.sha256 raw_key s.now db)) [
      | inl f ↦ absurd (ground arith)
      | inr (key, f) ↦ elim (Bool-cases (any (same_role key.role) allowed)) [
        | inr g ↦ absurd (ground arith)
        | inl g ↦ elim (Bool-cases (has_scope scope key)) [
          | inr t ↦ absurd (ground arith)
          | inl t ↦
              let left : (a ≡ key.account_id) × (x ≡ key.key_prefix) = ground arith in
              let right : (b ≡ key.account_id) × (y ≡ key.key_prefix) = ground arith in
              (
                left.0 ∙ sym right.0,
                left.1 ∙ sym right.1,
                inl (key, resolve_api_key_sound db raw_key key e f, g, t, right.0, right.1),
              )
        ]
      ]
    ]
  ]

  pub access_granted :
      (allowed : List Role) (scope : Option String) (db : Db) (a b : Uuid) (x y : String)
      → require_role s request allowed db ≡ ok (a, x)
      → request_account s request scope db ≡ ok (b, y)
      → (a ≡ b) × (x ≡ y) × IsEntitled allowed scope db b y
  unfolding require_role request_account
  access_granted allowed scope db a b x y h k = elim (bearer_cases (bearer_session s request)) [
    | inr (inr (e, f)) ↦ absurd (ground arith)
    | inr (inl f) ↦
        let as_key : key_role s request allowed db ≡ ok (a, x) = ground arith in
        let as_account : key_account s request scope db ≡ ok (b, y) = ground arith in
        let granted = key_granted allowed scope db a b x y as_key as_account in
        (granted.0, granted.1, inr granted.2)
    | inl (session, f) ↦ elim (Bool-cases (any (same_role session.role) allowed)) [
      | inr g ↦ absurd (ground arith)
      | inl g ↦
          let left : (a ≡ session.account_id) × (x ≡ session.actor_id) = ground arith in
          let right : (b ≡ session.account_id) × (y ≡ session.actor_id) = ground arith in
          (
            left.0 ∙ sym right.0,
            left.1 ∙ sym right.1,
            inl (session, bearer_session_sound session f, g, right.0, right.1),
          )
    ]
  ]

  pub require_bridge_account_parts :
      (i b : Uuid) (scope : Option String) (db : Db) (y : String) (bridge : DataBridge)
      → require_bridge_account s request i scope db ≡ ok (b, y, bridge)
      → (request_account s request scope db ≡ ok (b, y))
        × (get_active_data_bridge i (some b) db ≡ some bridge)
  unfolding require_bridge_account
  require_bridge_account_parts i b scope db y bridge k =
      elim (Result-cases (request_account s request scope db)) [
        | inr (e, f) ↦ absurd (ground arith)
        | inl ((c, z), f) ↦ elim (Option-cases (get_active_data_bridge i (some c) db)) [
          | inl g ↦ absurd (ground arith)
          | inr (found, g) ↦
              let same : (c ≡ b) × (z ≡ y) × (found ≡ bridge) = ground arith in
              (rw same.0 at (rw same.1 at f), rw same.0 at (rw same.2 at g))
        ]
      ]

  get_active_data_bridge_sound :
      (i b : Uuid) (db : Db) (bridge : DataBridge)
      → get_active_data_bridge i (some b) db ≡ some bridge
      → Among bridge db.data_bridges
        × (bridge.bridge_id ≡ i)
        × (bridge.account_id ≡ b)
        × (bridge.is_active ≡ true)
  unfolding get_active_data_bridge
  get_active_data_bridge_sound i b db bridge h =
      let asked = λ (c : DataBridge). has_bridge_id i c && (c.is_active && of_account (some b) c) in
      let found : find asked db.data_bridges ≡ some bridge = ground arith in
      let fits = &&_parts _ _ (find_sound asked db.data_bridges found) in
      let rest = &&_parts _ _ fits.1 in
      (
        find-Among asked db.data_bridges bridge found,
        (nat_eq.same_iff bridge.bridge_id i).0 fits.0,
        (nat_eq.same_iff bridge.account_id b).0 rest.1,
        rest.0,
      )

  -- Where the checks of a role and of a bridge let a request pass, they name the same account and
  -- actor, and the bridge is the one asked for, active and of that account. The account is that of
  -- a session whose token the serializer accepts under the configured secret and whose role is
  -- allowed; or that of a stored key with the digest of the request's key, neither revoked nor
  -- expired, whose role is allowed and whose scopes hold the one asked for; or the default account,
  -- for a request without a key where account authentication is not required.
  pub bridge_access_granted :
      (allowed : List Role) (scope : Option String) (db : Db) (i a b : Uuid) (x y : String)
      (bridge : DataBridge)
      → require_role s request allowed db ≡ ok (a, x)
      → require_bridge_account s request i scope db ≡ ok (b, y, bridge)
      → (a ≡ b)
        × (x ≡ y)
        × IsEntitled allowed scope db b y
        × Among bridge db.data_bridges
        × (bridge.bridge_id ≡ i)
        × (bridge.account_id ≡ b)
        × (bridge.is_active ≡ true)
  bridge_access_granted allowed scope db i a b x y bridge h k =
      let parts = require_bridge_account_parts i b scope db y bridge k in
      let granted = access_granted allowed scope db a b x y h parts.0 in
      let there = get_active_data_bridge_sound i b db bridge parts.1 in
      (granted.0, granted.1, granted.2, there.0, there.1, there.2, there.3)
