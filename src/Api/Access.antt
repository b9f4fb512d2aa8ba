-- ===== src/Api/Access.antt =====
-- core/auth.py: the session of a browser; main.py: the account, the role and the bridge that a
-- request is given.
pub mod Grants
use healpipe.Prelude.{
  ℕ, String, Bool, true, false, not, ◌&&◌, ◌||◌, Option, none, some, List, [], ◌∷◌, ◌==◌, string_eq,
  if◌then◌else◌, contains,
}
use healpipe.Prelude.Table.{any}
use healpipe.Database.Schema.{Uuid, Role, Account, ApiKey, DataBridge}
use healpipe.Database.State.{Db, Result, ok, err, runtime_error, attribute_error, http_exception}
use healpipe.Database.Accounts.{get_default_account, resolve_api_key}
use healpipe.Database.Bridges.{get_active_data_bridge}
use healpipe.Intake.Security.{starts_with, drop}
use healpipe.Api.State.{Request, Session, Setting}

-- A header or a variable that is missing or empty counts as absent.
abbrev pub present : Option String → Option String
present none = none
present (some s) = if s == "" then none else some s

unfoldable pub create_session_token : Setting → Session → Result String
create_session_token s session = elim (present s.session_secret) [
  | none ↦ err (runtime_error "AUTH_SESSION_SECRET is required for Google login")
  | some secret ↦ ok (s.dumps secret s.now session)
]

unfoldable pub read_session_token : Setting → String → Result Session
read_session_token s token = elim (present s.session_secret) [
  | none ↦ err (runtime_error "AUTH_SESSION_SECRET is required for Google login")
  | some secret ↦ elim (s.loads secret s.session_ttl s.now token) [
    | none ↦ err (http_exception 401 "Browser session is invalid or expired")
    | some session ↦ ok session
  ]
]

abbrev pub some_session : Result Session → Result (Option Session)
some_session (ok session) = ok (some session)
some_session (err e) = err e

unfoldable pub bearer_session : Setting → Request → Result (Option Session)
bearer_session s request = elim request.authorization [
  | none ↦ ok none
  | some header ↦
      if starts_with "Bearer " header
      then some_session (read_session_token s (s.text.strip (drop 7 header)))
      else ok none
]

abbrev pub has_scope : Option String → ApiKey → Bool
has_scope none key = true
has_scope (some scope) key = contains scope key.scopes || contains "*" key.scopes

-- The part of `request_account` for a request without a session.
unfoldable pub key_account : Setting → Request → Option String → Db → Result (Uuid × String)
key_account s request scope db = elim (present request.api_key) [
  | some raw_key ↦ elim (resolve_api_key s.sha256 raw_key s.now db) [
    | none ↦ err (http_exception 401 "API key is invalid or revoked")
    | some key ↦
        if has_scope scope key
        then ok (key.account_id, key.key_prefix)
        else err (http_exception 403 "API key scope is insufficient")
  ]
  | none ↦
      if s.account_auth_required
      then err (http_exception 401 "Account API key is required")
      else elim (get_default_account db) [
        | none ↦ err (http_exception 503 "Default account is not initialized")
        | some account ↦ ok (account.account_id, "local-operator")
      ]
]

unfoldable pub request_account : Setting → Request → Option String → Db → Result (Uuid × String)
request_account s request scope db = elim (bearer_session s request) [
  | err e ↦ err e
  | ok found ↦ elim found [
    | some session ↦ ok (session.account_id, session.actor_id)
    | none ↦ key_account s request scope db
  ]
]

abbrev pub same_role : Role → Role → Bool
same_role Role.owner Role.owner = true
same_role Role.admin Role.admin = true
same_role Role.operator Role.operator = true
same_role Role.viewer Role.viewer = true
same_role _ _ = false

-- The part of `require_role` for a request without a session: without a default account,
-- `(await get_default_account()).account_id` raises.
unfoldable pub key_role : Setting → Request → List Role → Db → Result (Uuid × String)
key_role s request allowed db = elim (present request.api_key) [
  | none ↦
      if s.account_auth_required
      then err (http_exception 401 "Account API key is required")
      else elim (get_default_account db) [
        | none ↦ err (attribute_error "'NoneType' object has no attribute 'account_id'")
        | some account ↦ ok (account.account_id, "local-operator")
      ]
  | some raw_key ↦ elim (resolve_api_key s.sha256 raw_key s.now db) [
    | none ↦ err (http_exception 403 "Account role is insufficient")
    | some key ↦
        if any (same_role key.role) allowed
        then ok (key.account_id, key.key_prefix)
        else err (http_exception 403 "Account role is insufficient")
  ]
]

unfoldable pub require_role : Setting → Request → List Role → Db → Result (Uuid × String)
require_role s request allowed db = elim (bearer_session s request) [
  | err e ↦ err e
  | ok found ↦ elim found [
    | some session ↦
        if any (same_role session.role) allowed
        then ok (session.account_id, session.actor_id)
        else err (http_exception 403 "Account role is insufficient")
    | none ↦ key_role s request allowed db
  ]
]

unfoldable pub require_bridge_account :
    Setting → Request → Uuid → Option String → Db → Result (Uuid × String × DataBridge)
require_bridge_account s request bridge_id scope db = elim (request_account s request scope db) [
  | err e ↦ err e
  | ok granted ↦ elim (get_active_data_bridge bridge_id (some granted.0) db) [
    | none ↦ err (http_exception 404 "Active data bridge was not found")
    | some b ↦ ok (granted.0, granted.1, b)
  ]
]

abbrev pub operator_identity : Request → String
operator_identity request = elim request.operator_id [ none ↦ "local-operator" | some i ↦ i ]

-- The header equals the configured key; a header that is missing equals none.
abbrev pub is_header : Option String → String → Bool
is_header none key = false
is_header (some header) key = header == key

unfoldable pub require_operator : Setting → Request → Result String
require_operator s request = elim (present s.operator_api_key) [
  | none ↦ ok (operator_identity request)
  | some configured_key ↦
      if is_header request.operator_key configured_key
      then ok (operator_identity request)
      else err (http_exception 403 "Operator authorization is required")
]
