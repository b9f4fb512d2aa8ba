-- ===== src/Database/Accounts.antt =====
-- database/repository.py: accounts, their Google identities, profiles and API keys.
pub mod SignUp
pub mod Keys
mod Tests
use healpipe.Prelude.{
  ℕ, zero, suc, String, ◌<>◌, Bool, true, false, ◌&&◌, Option, none, some, List, [], ◌∷◌, ◌++◌,
  ◌==◌, nat_eq, string_eq, ltb, if◌then◌else◌,
}
use healpipe.Prelude.Table.{find, update_where}
use healpipe.Database.Schema.{
  Uuid, Time, Account, AccountMember, GoogleIdentity, Onboarding, OnboardingProfile, ApiKey, Role,
  default_account_id,
}
use healpipe.Database.State.{Db, Result, ok, err, runtime_error}
use healpipe.Python.{prefix}

abbrev pub has_account_id : Uuid → Account → Bool
has_account_id i a = a.account_id == i

unfoldable pub get_default_account : Db → Option Account
get_default_account db =
    if db.configured then find (has_account_id default_account_id) db.accounts else none

abbrev pub not_configured {ℓ} : {A : Type ℓ} → Result A
not_configured = err (runtime_error "DATABASE_URL is not configured")

abbrev pub new_account : String → Time → Db → Account
new_account name now db = record { account_id = db.next_id; name = name; created_at = now }

-- The account with its owner.
abbrev pub add_account : String → String → Time → Db → Db
add_account name actor now db = record db {
  next_id = suc (suc db.next_id);
  accounts = db.accounts ++ new_account name now db ∷ [];
  account_members =
      db.account_members
      ++ record {
        membership_id = suc db.next_id;
        account_id = db.next_id;
        actor_id = actor;
        role = Role.owner;
        created_at = now;
      }
        ∷ [];
}

unfoldable pub create_account : String → String → Time → Db → Result Account × Db
create_account name actor now db =
    if db.configured
    then (ok (new_account name now db), add_account name actor now db)
    else (not_configured, db)

abbrev pub has_subject : String → GoogleIdentity → Bool
has_subject subject g = g.google_subject == subject

abbrev pub log_in : String → Option String → Time → GoogleIdentity → GoogleIdentity
log_in email display_name now g = record g {
  email = email;
  display_name = display_name;
  last_login_at = now;
}

abbrev pub is_profile_of : Uuid → OnboardingProfile → Bool
is_profile_of account p = p.account_id == account

-- `display_name or email`
abbrev pub shown_name : Option String → String → String
shown_name none email = email
shown_name (some n) email = if n == "" then email else n

abbrev pub add_identity : String → String → Option String → Uuid → Time → Db → Db
add_identity subject email display_name account now db = record db {
  next_id = suc db.next_id;
  google_identities =
      db.google_identities
      ++ record {
        identity_id = db.next_id;
        account_id = account;
        google_subject = subject;
        email = email;
        display_name = display_name;
        created_at = now;
        last_login_at = now;
      }
        ∷ [];
}

-- What a sign-in returns: the account, its role, and whether the profile is still missing.
pub record SignIn : Type 0 where
  pub account : Account
  pub role : Role
  pub onboarding_required : Bool

abbrev pub lacks_profile : Uuid → Db → Bool
lacks_profile account db = elim (find (is_profile_of account) db.onboarding_profiles) [
  | none ↦ true
  | some p ↦ false
]

-- The identity is updated before its account is looked for.
abbrev pub sign_in : GoogleIdentity → Db → Result SignIn × Db
sign_in g db = elim (find (has_account_id g.account_id) db.accounts) [
  | none ↦ (err (runtime_error "Google identity points to a missing account"), db)
  | some a ↦ (
    ok (record {
      account = a;
      role = Role.owner;
      onboarding_required = lacks_profile a.account_id db;
    }),
    db,
  )
]

abbrev pub sign_up : String → String → Option String → Time → Db → Result SignIn × Db
sign_up subject email display_name now db =
    let name = shown_name display_name email <> "'s workspace" in
    (
      ok (record {
        account = new_account name now db;
        role = Role.owner;
        onboarding_required = true;
      }),
      add_identity subject email display_name db.next_id now
          (add_account name ("google:" <> subject) now db),
    )

unfoldable pub get_or_create_google_account :
    String → String → Option String → Time → Db → Result SignIn × Db
get_or_create_google_account subject email display_name now db =
    if db.configured
    then elim (find (has_subject subject) db.google_identities) [
      | some g ↦ sign_in g (record db {
        google_identities =
            update_where (has_subject subject) (log_in email display_name now) db.google_identities;
      })
      | none ↦ sign_up subject email display_name now db
    ]
    else (not_configured, db)

unfoldable pub google_identity_exists : String → Db → Result Bool
google_identity_exists subject db =
    if db.configured
    then elim (find (has_subject subject) db.google_identities) [
      | none ↦ ok false
      | some g ↦ ok true
    ]
    else not_configured

unfoldable pub save_onboarding_profile :
    Uuid → Onboarding → Time → Db → Result OnboardingProfile × Db
save_onboarding_profile account answers now db =
    let fresh : OnboardingProfile = record {
      profile_id = db.next_id;
      account_id = account;
      answers = answers;
      completed_at = now;
    } in
    if db.configured
    then elim (find (is_profile_of account) db.onboarding_profiles) [
      | none ↦ (
        ok fresh,
        record db {
          next_id = suc db.next_id;
          onboarding_profiles = db.onboarding_profiles ++ fresh ∷ [];
        },
      )
      | some p ↦ (
        ok (record p { answers = answers }),
        record db {
          onboarding_profiles =
              update_where (is_profile_of account) (λ q. record q { answers = answers })
                db.onboarding_profiles;
        },
      )
    ]
    else (not_configured, db)

-- `sha256` is the hexadecimal digest of `hash_api_key`, `token` what `secrets.token_urlsafe(32)`
-- gives. The raw key is returned, and its digest stored.
unfoldable pub create_account_api_key :
    (sha256 : String → String)
    → (token : String) → Uuid
    → List String
    → Role
    → Time
    → Db
    → Result (String × ApiKey) × Db
create_account_api_key sha256 token account scopes role now db =
    let raw_key = "hp_" <> token in
    let key : ApiKey = record {
      key_id = db.next_id;
      account_id = account;
      key_prefix = prefix 10 raw_key;
      key_hash = sha256 raw_key;
      scopes = scopes;
      role = role;
      expires_at = none;
      revoked_at = none;
      created_at = now;
    } in
    if db.configured
    then (
      ok (raw_key, key),
      record db { next_id = suc db.next_id; api_keys = db.api_keys ++ key ∷ [] },
    )
    else (not_configured, db)

abbrev pub is_unset : Option Time → Bool
is_unset none = true
is_unset (some t) = false

abbrev pub is_unexpired : Time → Option Time → Bool
is_unexpired now none = true
is_unexpired now (some t) = ltb now t

-- The key of this digest, neither revoked nor expired.
abbrev pub is_usable_key : String → Time → ApiKey → Bool
is_usable_key hash now k =
    k.key_hash == hash && (is_unset k.revoked_at && is_unexpired now k.expires_at)

unfoldable pub resolve_api_key : (sha256 : String → String) → String → Time → Db → Option ApiKey
resolve_api_key sha256 raw_key now db =
    if db.configured then find (is_usable_key (sha256 raw_key) now) db.api_keys else none
