-- ===== src/Database/Accounts/SignUp.antt =====
-- database/repository.py: the sign-in with Google after the sign-up.
use mathlib.Core.List.{map-append}
use healpipe.Prelude.{
  String, ◌<>◌, Bool, true, Option, none, some, List, [], ◌∷◌, ◌++◌, map, string_eq, nat_eq, ◌≡◌,
  refl, ◌∙◌, arith, ==_refl,
}
use healpipe.Prelude.Table.{find, update_where, find-append_new}
use healpipe.Database.Schema.{Uuid, Time, Account, GoogleIdentity, Role}
use healpipe.Database.State.{Db, ok}
use healpipe.Database.Accounts.{
  has_account_id, has_subject, log_in, new_account, shown_name, sign_in, sign_up, lacks_profile,
  get_or_create_google_account,
}

pub unknown_signs_up :
    (subject email : String) (name : Option String) (now : Time) (db : Db)
    → db.configured ≡ true
    → find (has_subject subject) db.google_identities ≡ none
    → get_or_create_google_account subject email name now db ≡ sign_up subject email name now db
unfolding get_or_create_google_account
unknown_signs_up subject email name now db c unknown = simp (c, unknown)

-- The person and the account of an identity.
abbrev pub linked_account : GoogleIdentity → String × Uuid
linked_account g = (g.google_subject, g.account_id)

abbrev pub linked_accounts : Db → List (String × Uuid)
linked_accounts db = map linked_account db.google_identities

log_in-linked :
    (subject email : String) (name : Option String) (now : Time) (rows : List GoogleIdentity)
    → map linked_account (update_where (has_subject subject) (log_in email name now) rows)
      ≡ map linked_account rows
unfolding update_where
log_in-linked subject email name now [] = refl
log_in-linked subject email name now (g ∷ rows) =
    let rest = log_in-linked subject email name now rows in ground (arith, rest)

sign_in_lem :
    (g : GoogleIdentity) (db : Db) (a : Account)
    → find (has_account_id g.account_id) db.accounts ≡ some a
    → (required : Bool) × ((sign_in g db).0
        ≡ ok (record { account = a; role = Role.owner; onboarding_required = required }))
      × ((sign_in g db).1.accounts ≡ db.accounts)
      × (linked_accounts (sign_in g db).1 ≡ linked_accounts db)
sign_in_lem g db a there = rw (sign_in, there) (lacks_profile a.account_id db, refl, refl, refl)

known_signs_in :
    (subject email : String) (name : Option String) (now : Time) (db : Db) (g : GoogleIdentity)
    (a : Account)
    → db.configured ≡ true
    → find (has_subject subject) db.google_identities ≡ some g
    → find (has_account_id g.account_id) db.accounts ≡ some a
    → let out = get_or_create_google_account subject email name now db in
      (required : Bool) × (out.0
        ≡ ok (record { account = a; role = Role.owner; onboarding_required = required }))
      × (out.1.accounts ≡ db.accounts)
      × (linked_accounts out.1 ≡ linked_accounts db)
unfolding get_or_create_google_account
known_signs_in subject email name now db g a c known there =
    let after : Db = record db {
      google_identities =
          update_where (has_subject subject) (log_in email name now) db.google_identities;
    } in
    let found : get_or_create_google_account subject email name now db ≡ sign_in g after =
      simp (c, known) in
    let (required, result, accounts, linked) = sign_in_lem g after a there in
    let kept = log_in-linked subject email name now db.google_identities in
    rw found (required, result, accounts, linked ∙ kept)

-- In a configured database, for a subject without an identity and where no account has the next
-- fresh identifier, a first sign-in makes one account, named after the person or the address, and
-- one identity, which links the subject to it. A second sign-in of this subject right after it,
-- under whatever address and name, returns the same account, adds neither an account nor an
-- identity, and links every identity as before.
pub second_sign_in :
    (subject email email' : String) (name name' : Option String) (now later : Time) (db : Db)
    → db.configured ≡ true
    → find (has_subject subject) db.google_identities ≡ none
    → find (has_account_id db.next_id) db.accounts ≡ none
    → let first = get_or_create_google_account subject email name now db in
      let second = get_or_create_google_account subject email' name' later first.1 in
      (a : Account) × (required : Bool) × (first.0
        ≡ ok (record { account = a; role = Role.owner; onboarding_required = true }))
      × (second.0 ≡ ok (record { account = a; role = Role.owner; onboarding_required = required }))
      × (first.1.accounts ≡ db.accounts ++ a ∷ [])
      × (a.name ≡ shown_name name email <> "'s workspace")
      × (linked_accounts first.1 ≡ linked_accounts db ++ (subject, a.account_id) ∷ [])
      × (second.1.accounts ≡ first.1.accounts)
      × (linked_accounts second.1 ≡ linked_accounts first.1)
second_sign_in subject email email' name name' now later db c unknown fresh =
    let a = new_account (shown_name name email <> "'s workspace") now db in
    let up = unknown_signs_up subject email name now db c unknown in
    let after = (sign_up subject email name now db).1 in
    let (required, result, accounts, linked) =
      known_signs_in subject email' name' later after _ a c
        (find-append_new (has_subject subject) db.google_identities _ unknown (==_refl subject))
        (find-append_new (has_account_id db.next_id) db.accounts a fresh (==_refl db.next_id)) in
    rw up (
      a,
      required,
      refl,
      result,
      refl,
      refl,
      map-append linked_account db.google_identities _,
      accounts,
      linked,
    )
