-- ===== src/Api/Accounts.antt =====
-- main.py: the routes of accounts, their keys and the sign-in; core/auth.py: the check of Google's
-- credential.
pub mod Modes
use healpipe.Prelude.{
  ℕ, String, ◌<>◌, Bool, true, false, not, ◌&&◌, Option, none, some, List, [], ◌∷◌, if◌then◌else◌,
}
use healpipe.Database.Schema.{Uuid, Role, Account, ApiKey, Onboarding}
use healpipe.Database.Schema.Json.{Value, Items, Payload}
use healpipe.Database.State.{Db, Result, ok, err, http_exception}
use healpipe.Database.Accounts.{
  create_account, create_account_api_key, get_or_create_google_account, google_identity_exists,
  save_onboarding_profile, SignIn, shown_name,
}
use healpipe.Database.Audit.{write_audit_log}
use healpipe.Api.State.{Api, Route, Request, Session, Setting, check}
use healpipe.Api.Access.{present, bearer_session, create_session_token, require_operator}

-- The claims of a credential that the code reads.
pub record Claims : Type 0 where
  pub sub : Option String
  pub email : Option String
  pub email_verified : Bool
  pub name : Option String
  pub picture : Option String

-- GOOGLE_CLIENT_ID, and the verification of a credential for it; none where it raises a ValueError.
pub record Google : Type 0 where
  pub client_id : Option String
  pub verify : (client_id credential : String) → Option Claims

pub record Identity : Type 0 where
  pub subject : String
  pub email : String
  pub name : Option String
  pub picture : Option String

-- "sub" and "email", neither of which is empty, for an address that is verified.
abbrev pub verified : Claims → Result Identity
verified c = elim (present c.sub) [
  | none ↦ err (http_exception 403 "A verified Google email is required")
  | some subject ↦ elim (present c.email) [
    | none ↦ err (http_exception 403 "A verified Google email is required")
    | some email ↦
        if c.email_verified
        then ok (record { subject = subject; email = email; name = c.name; picture = c.picture })
        else err (http_exception 403 "A verified Google email is required")
  ]
]

unfoldable pub verify_google_credential : Google → String → Result Identity
verify_google_credential google credential = elim (present google.client_id) [
  | none ↦ err (http_exception 503 "Google login is not configured")
  | some client_id ↦ elim (google.verify client_id credential) [
    | none ↦ err (http_exception 401 "Google credential is invalid")
    | some claims ↦ verified claims
  ]
]

pub data LoginMode : Type 0 where
  login signup : LoginMode

-- The mode against what is known of the subject.
abbrev pub fits_mode : LoginMode → Bool → Result (Unit {0})
fits_mode LoginMode.signup true =
    err
      (http_exception 409 "An account already exists for this Google account. Please choose Login.")
fits_mode LoginMode.login false = err (
    http_exception 404
      "No HealPipe account exists for this Google account. Please choose Sign up first.")
fits_mode _ _ = ok tt

pub record LoginAnswer : Type 0 where
  pub session_token : String
  pub onboarding_required : Bool
  pub user_email : String
  pub user_name : String
  pub picture : Option String
  pub account_name : String

abbrev pub google_session : Identity → SignIn → Session
google_session i signed = record {
  account_id = signed.account.account_id;
  actor_id = "google:" <> i.subject;
  role = signed.role;
}

-- The audit entry and the answer, once there is an account.
abbrev pub signed_in : Setting → Identity → Result SignIn × Db → Route LoginAnswer
signed_in s i (err e, db) api = (err e, record api { db = db })
signed_in s i (ok signed, db) api =
    let account = signed.account.account_id in
    let db =
      write_audit_log account ("google:" <> i.subject) "auth.google_login" "account"
        (s.show account) (some (("email", Value.str i.email) ∷ [])) s.now db in
    check (create_session_token s (google_session i signed))
      (λ token api. (
        ok (record {
          session_token = token;
          onboarding_required = signed.onboarding_required;
          user_email = i.email;
          user_name = shown_name i.name i.email;
          picture = i.picture;
          account_name = signed.account.name;
        }),
        api,
      ))
      (record api { db = db })

abbrev pub secret_is_set : Setting → Result (Unit {0})
secret_is_set s = elim (present s.session_secret) [
  | none ↦ err (http_exception 503 "Browser session signing is not configured")
  | some secret ↦ ok tt
]

unfoldable pub google_login :
    Setting → Google → (credential : String) → LoginMode → Route LoginAnswer
google_login s google credential mode api =
    check (secret_is_set s)
      (λ _ api.
        check (verify_google_credential google credential)
          (λ i api.
            check (google_identity_exists i.subject api.db)
              (λ exists api.
                check (fits_mode mode exists)
                  (λ _ api.
                    signed_in s i
                      (get_or_create_google_account i.subject i.email i.name s.now api.db) api)
                  api)
              api)
          api)
      api

abbrev pub onboarding_dict : Onboarding → Payload
onboarding_dict a =
    ("user_type", Value.str a.user_type)
    ∷ ("integration_type", Value.str a.integration_type)
    ∷ ("primary_problem", Value.str a.primary_problem)
    ∷ ("monthly_volume", Value.str a.monthly_volume)
    ∷ ("user_role", Value.str a.user_role)
    ∷ []

abbrev pub save_answers : Setting → Onboarding → Session → Route Bool
save_answers s answers session api =
    let (saved, db) = save_onboarding_profile session.account_id answers s.now api.db in
    elim saved [
      | err e ↦ (err e, record api { db = db })
      | ok profile ↦ (
        ok true,
        record api {
          db =
              write_audit_log session.account_id session.actor_id "account.onboarding_completed"
                "onboarding_profile" (s.show profile.profile_id) (some (onboarding_dict answers))
                s.now db;
        },
      )
    ]

unfoldable pub complete_onboarding : Setting → Onboarding → Request → Route Bool
complete_onboarding s answers request api =
    check (bearer_session s request)
      (λ found api. elim found [
        | none ↦ (err (http_exception 401 "A Google session is required"), api)
        | some session ↦ save_answers s answers session api
      ])
      api

unfoldable pub create_account_route : Setting → Request → (name : String) → Route Account
create_account_route s request name api =
    check (require_operator s request)
      (λ actor api.
        let (created, db) = create_account name actor s.now api.db in
        elim created [
          | err e ↦ (err e, record api { db = db })
          | ok account ↦ (
            ok account,
            record api {
              db =
                  write_audit_log account.account_id actor "account.created" "account"
                    (s.show account.account_id) (some (("name", Value.str account.name) ∷ [])) s.now
                    db;
            },
          )
        ])
      api

abbrev pub text_items : List String → Items
text_items [] = Items.nil
text_items (t ∷ ts) = Items.cons (Value.str t) (text_items ts)

-- `token` is what `secrets.token_urlsafe` gives.
unfoldable pub create_api_key_route :
    Setting
    → Request
    → (token : String) → (account_id : Uuid) → (scopes : List String) → Role
    → Route (String × ApiKey)
create_api_key_route s request token account_id scopes role api =
    check (require_operator s request)
      (λ actor api.
        let (created, db) =
          create_account_api_key s.sha256 token account_id scopes role s.now api.db in
        elim created [
          | err e ↦ (err e, record api { db = db })
          | ok issued ↦ (
            ok issued,
            record api {
              db =
                  write_audit_log account_id actor "api_key.created" "api_key"
                    (s.show issued.1.key_id)
                    (some (("scopes", Value.arr (text_items issued.1.scopes)) ∷ [])) s.now db;
            },
          )
        ])
      api
