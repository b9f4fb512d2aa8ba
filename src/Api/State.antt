-- ===== src/Api/State.antt =====
-- main.py: the state that a route works on, the request it is given and the settings it reads.
use healpipe.Prelude.{ℕ, String, Bool, Option, List, [], ◌∷◌, ◌++◌}
use healpipe.Prelude.Dict.{Dict}
use healpipe.Database.Schema.{Uuid, Time, Role, EventStatus}
use healpipe.Database.Schema.Json.{Payload}
use healpipe.Database.State.{Db, Result, ok, err}
use healpipe.Python.{Text}
use healpipe.Intake.Security.{Hmac}
use healpipe.Worker.Pool.{Pool}

-- What a route adds to the tasks that run after its response.
pub data Task : Type 0 where
  send_pipeline_alert : Uuid → EventStatus → (details : String) → Task
  -- The arguments after the event: raw payload, healed payload, key mappings, uncertain key, target
  -- URL, bridge and account.
  resolve_and_forward :
      Uuid → Payload → Payload → Dict String → String → String → Uuid → Uuid → Task

pub record Api : Type 0 where
  pub db : Db
  pub pool : Pool
  pub tasks : List Task

-- A route returns or raises, and changes the state in both cases.
abbrev pub Route : Type 0 → Type 0
Route A = Api → Result A × Api

-- The headers that the code reads, and the body as it came; none for a header that is missing.
pub record Request : Type 0 where
  pub authorization : Option String
  pub api_key : Option String
  pub webhook_signature : Option String
  pub operator_key : Option String
  pub operator_id : Option String
  pub body : String

-- The content of a browser session; the date "iat" is written and never read.
pub record Session : Type 0 where
  pub account_id : Uuid
  pub actor_id : String
  pub role : Role

-- The environment variables, the clock, and what the routes take from the libraries.
pub record Setting : Type 0 where
  pub text : Text
  pub hmac : Hmac
  -- The hexadecimal SHA-256 digest.
  pub sha256 : String → String
  -- `str` of a UUID, and `isoformat` of a time.
  pub show : Uuid → String
  pub show_time : Time → String
  pub now : Time
  -- AUTH_SESSION_SECRET, and AUTH_SESSION_TTL_SECONDS as a number.
  pub session_secret : Option String
  pub session_ttl : ℕ
  -- The serializer of itsdangerous: the token of a session, and its content; none where it raises
  -- BadSignature or SignatureExpired.
  pub dumps : (secret : String) → (now : Time) → Session → String
  pub loads : (secret : String) → (max_age : ℕ) → (now : Time) → (token : String) → Option Session
  -- The environment variable is "true", in some case.
  pub account_auth_required : Bool
  pub require_idempotency_key : Bool
  -- HEALPIPE_PROCESS_ROLE is "api", in some case.
  pub api_role : Bool
  pub operator_api_key : Option String

abbrev pub on_db : (Db → Db) → Api → Api
on_db f a = record a { db = f a.db }

abbrev pub add_task : Task → Api → Api
add_task t a = record a { tasks = a.tasks ++ t ∷ [] }

-- A check that only reads comes before the rest of a route.
abbrev pub check {ℓ} : {A : Type ℓ} {B : Type 0} → Result A → (A → Route B) → Route B
check (ok a) route api = route a api
check (err e) route api = (err e, api)
