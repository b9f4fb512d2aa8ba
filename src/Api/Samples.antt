-- ===== src/Api/Samples.antt =====
-- A setting, a request and a state for the tests of the routes.
use healpipe.Prelude.{true, false, none, some, [], ◌∷◌}
use healpipe.Database.Schema.{Role, DataBridge}
use healpipe.Api.State.{Api, Request, Session, Setting}
use healpipe.Samples.{plain_text, empty_db}

abbrev pub session : Session
session = record { account_id = 7; actor_id = "ann"; role = Role.owner }

abbrev pub setting : Setting
setting = record {
  text = plain_text;
  hmac = record { hexdigest = λ secret body. "sig" };
  sha256 = λ s. "digest";
  show = λ i. "an id";
  show_time = λ t. "a time";
  now = 20;
  session_secret = some "secret";
  session_ttl = 100;
  dumps = λ secret now session. "token";
  loads = λ secret max_age now token. some session;
  account_auth_required = true;
  require_idempotency_key = false;
  api_role = false;
  operator_api_key = none;
}

abbrev pub request : Request
request = record {
  authorization = some "Bearer token";
  api_key = none;
  webhook_signature = some "sig";
  operator_key = none;
  operator_id = none;
  body = "{}";
}

abbrev pub sample_bridge : DataBridge
sample_bridge = record {
  bridge_id = 9;
  account_id = 7;
  bridge_name = "Shop";
  source_platform = "shop";
  target_endpoint_url = "https://example.org";
  signature_secret = "s";
  is_active = true;
  created_at = 1;
}

abbrev pub api : Api
api = record {
  db = record empty_db { data_bridges = sample_bridge ∷ [] };
  pool = record { jobs = []; running = false; workers = 0 };
  tasks = [];
}
