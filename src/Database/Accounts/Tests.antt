-- ===== src/Database/Accounts/Tests.antt =====
-- The theorems on accounts at concrete ones.
use healpipe.Prelude.{
  String, ◌<>◌, Bool, true, false, none, some, List, [], ◌∷◌, ◌++◌, ◌==◌, string_eq, ◌≡◌, refl,
}
use healpipe.Database.Schema.{Account, ApiKey, Role}
use healpipe.Database.State.{Result, Db, ok}
use healpipe.Database.Accounts.{
  create_account_api_key, resolve_api_key, get_or_create_google_account, SignIn, has_subject,
  shown_name, has_account_id,
}
use healpipe.Database.Accounts.Keys.{created_key_resolves}
use healpipe.Database.Accounts.SignUp.{linked_accounts, second_sign_in}
use healpipe.Prelude.Table.{find}
use healpipe.Samples.{empty_db}

abbrev scopes : List String
scopes = "events:read" ∷ []

-- A digest that keeps the text.
abbrev digest : String → String
digest s = s

abbrev created : Result (String × ApiKey) × Db
created = create_account_api_key digest "abc" 7 scopes Role.operator 20 empty_db

no_key : find (λ (k : ApiKey). k.key_hash == ("hp_" <> "abc")) empty_db.api_keys ≡ none
unfolding find
no_key = refl

created_key_resolves_example :
    (key : ApiKey) × (created.0 ≡ ok ("hp_" <> "abc", key))
    × (resolve_api_key digest ("hp_" <> "abc") 30 created.1 ≡ some key)
    × (key.account_id ≡ 7)
    × (key.role ≡ Role.operator)
    × (key.scopes ≡ scopes)
    × ((other : String)
        → (digest ("hp_" <> "abc") == digest other) ≡ false
        → resolve_api_key digest other 30 created.1 ≡ resolve_api_key digest other 30 empty_db)
created_key_resolves_example =
    created_key_resolves digest "abc" 7 scopes Role.operator 20 30 empty_db refl no_key

abbrev first : Result SignIn × Db
first = get_or_create_google_account "s1" "a@example.org" none 20 empty_db

abbrev second : Result SignIn × Db
second = get_or_create_google_account "s1" "b@example.org" (some "Ann") 30 first.1

no_identity : find (has_subject "s1") empty_db.google_identities ≡ none
unfolding find
no_identity = refl

no_account : find (has_account_id 100) empty_db.accounts ≡ none
unfolding find
no_account = refl

second_sign_in_example :
    (a : Account) × (required : Bool) × (first.0
      ≡ ok (record { account = a; role = Role.owner; onboarding_required = true }))
    × (second.0 ≡ ok (record { account = a; role = Role.owner; onboarding_required = required }))
    × (first.1.accounts ≡ empty_db.accounts ++ a ∷ [])
    × (a.name ≡ shown_name none "a@example.org" <> "'s workspace")
    × (linked_accounts first.1 ≡ linked_accounts empty_db ++ ("s1", a.account_id) ∷ [])
    × (second.1.accounts ≡ first.1.accounts)
    × (linked_accounts second.1 ≡ linked_accounts first.1)
second_sign_in_example =
    second_sign_in "s1" "a@example.org" "b@example.org" none (some "Ann") 20 30 empty_db refl
      no_identity no_account
