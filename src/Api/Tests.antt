-- ===== src/Api/Tests.antt =====
-- The theorems on the routes at concrete requests.
use healpipe.Prelude.{
  ℕ, String, true, none, some, List, [], ◌∷◌, nat_eq, string_eq, ◌≡◌, refl, ◌⊎◌, arith,
}
use healpipe.Prelude.{Among}
use healpipe.Prelude.Table.{any, find, count_where}
use healpipe.Database.Schema.{Uuid, Role, DataBridge, MappingStatus}
use healpipe.Database.Bridges.{get_active_data_bridge}
use healpipe.Database.Mapping.Invariant.{IsSound}
use healpipe.Api.Accounts.{Google, LoginMode, google_login}
use healpipe.Api.Accounts.Modes.{SignsUp, google_login_modes}
use healpipe.Api.Mappings.Tenancy.{MappingRequest, KeepsOthers, serve, serve_keeps_accounts_apart}
use healpipe.Database.State.{Error, ok, err}
use healpipe.Api.State.{Api}
use healpipe.Api.Access.{
  bearer_session, read_session_token, request_account, require_role, require_bridge_account,
}
use healpipe.Api.Access.Grants.{IsEntitled, bridge_access_granted}
use healpipe.Api.Receive.{heal, receive_webhook}
use healpipe.Api.Webhook.{WebhookReceiveRequest}
use healpipe.Api.Receive.Outcome.{Reaches, Handles, receive_webhook_outcome}
use healpipe.Samples.{client_rule}
use healpipe.Api.Samples.{setting, request, sample_bridge, api}

abbrev webhook : WebhookReceiveRequest
webhook = record {
  customer_id = some "c1";
  email_address = some "a@example.org";
  stock_count = none;
  phone_number = none;
  idempotency_key = some "order-1";
  body = none;
  expected_fields = "customer_id" ∷ "email_address" ∷ [];
  extra = [];
}

receive_webhook_outcome_example :
    ((b : DataBridge) × Reaches setting request webhook 9 api b
      × Handles setting
          (heal setting request webhook b api.db)
          api
          (receive_webhook setting request webhook 9 api))
    ⊎ ((e : Error) × (receive_webhook setting request webhook 9 api ≡ (err e, api))
        × ((b : DataBridge) → ¬ Reaches setting request webhook 9 api b))
receive_webhook_outcome_example = receive_webhook_outcome setting request webhook 9 api

abbrev owners : List Role
owners = Role.owner ∷ []

has_role : require_role setting request owners api.db ≡ ok (7, "ann")
unfolding require_role bearer_session read_session_token any
has_role = refl

has_bridge :
    require_bridge_account setting request 9 (some "mappings:write") api.db
    ≡ ok (7, "ann", sample_bridge)
unfolding require_bridge_account request_account bearer_session read_session_token
    get_active_data_bridge find
has_bridge = refl

bridge_access_granted_example :
    (◌≡◌ {A = ℕ} 7 7)
    × (◌≡◌ {A = String} "ann" "ann")
    × IsEntitled setting request owners (some "mappings:write") api.db 7 "ann"
    × Among sample_bridge api.db.data_bridges
    × (sample_bridge.bridge_id ≡ 9)
    × (sample_bridge.account_id ≡ 7)
    × (sample_bridge.is_active ≡ true)
bridge_access_granted_example =
    bridge_access_granted setting request owners (some "mappings:write") api.db 9 7 7 "ann" "ann"
      sample_bridge has_role has_bridge

-- The owner of the bridges, in this database.
abbrev owner : Uuid → Uuid
owner b = 7

abbrev rules_api : Api
rules_api = record api {
  db = record api.db {
    mapping_rules =
        client_rule 1 1 MappingStatus.active ∷ client_rule 2 2 MappingStatus.proposed ∷ [];
  };
}

rules-IsSound : IsSound rules_api.db
unfolding count_where
rules-IsSound = record {
  ids = λ i. ground arith;
  fresh = λ i h. ground arith;
  one_active = λ b s. ground arith;
  revisions = λ b s n. ground arith;
}

serve_keeps_accounts_apart_example :
    KeepsOthers owner setting request "mappings:approve" rules_api.db
      (serve setting request (MappingRequest.approve 2) rules_api).db
serve_keeps_accounts_apart_example =
    serve_keeps_accounts_apart owner setting request (MappingRequest.approve 2) rules_api
      (rules-IsSound, (refl, (refl, tt)), (refl, tt))

abbrev google : Google
google = record {
  client_id = some "client";
  verify = λ client credential. some (record {
    sub = some "s1";
    email = some "a@example.org";
    email_verified = true;
    name = none;
    picture = none;
  });
}

google_login_modes_example :
    ((google_login setting google "credential" LoginMode.login api).1.db.accounts ≡ [])
    × SignsUp setting google "credential" api
        (google_login setting google "credential" LoginMode.signup api)
google_login_modes_example = google_login_modes setting google "credential" api
