-- ===== src/Database/Accounts/Keys.antt =====
-- database/repository.py: an API key from its creation to its use.
use healpipe.Prelude.{
  String, Bool, true, false, none, some, List, [], ◌∷◌, ◌==◌, string_eq, ◌≡◌, refl, arith, inl, inr,
  Bool-cases, ==_refl, ◌<>◌,
}
use healpipe.Prelude.Table.{find, find-append_new, find-append_unmatched}
use healpipe.Database.Schema.{Uuid, Time, ApiKey, Role}
use healpipe.Database.State.{Db, ok}
use healpipe.Database.Accounts.{create_account_api_key, resolve_api_key, is_usable_key}

abbrev pub has_digest : String → ApiKey → Bool
has_digest hash k = k.key_hash == hash

unusable :
    (hash : String) (now : Time) (keys : List ApiKey)
    → find (has_digest hash) keys ≡ none
    → find (is_usable_key hash now) keys ≡ none
unfolding find
unusable hash now [] h = refl
unusable hash now (k ∷ keys) h = elim (Bool-cases (has_digest hash k)) [
  | inl e ↦ absurd (ground arith)
  | inr e ↦ rw e (unusable hash now keys (ground arith))
]

module _ (sha256 : String → String) where
  -- In a configured database a key is created, with the account, the role and the scopes given. The
  -- raw key that is returned resolves to it at any later time, where no stored key had its digest
  -- before; every raw key of another digest resolves as before.
  pub created_key_resolves :
      (token : String) (account : Uuid) (scopes : List String) (role : Role) (now later : Time)
      (db : Db)
      → db.configured ≡ true
      → find (has_digest (sha256 ("hp_" <> token))) db.api_keys ≡ none
      → let out = create_account_api_key sha256 token account scopes role now db in
        (key : ApiKey) × (out.0 ≡ ok ("hp_" <> token, key))
        × (resolve_api_key sha256 ("hp_" <> token) later out.1 ≡ some key)
        × (key.account_id ≡ account)
        × (key.role ≡ role)
        × (key.scopes ≡ scopes)
        × ((other : String)
            → (sha256 ("hp_" <> token) == sha256 other) ≡ false
            → resolve_api_key sha256 other later out.1 ≡ resolve_api_key sha256 other later db)
  unfolding create_account_api_key resolve_api_key
  created_key_resolves token account scopes role now later db c fresh =
      let raw_key = "hp_" <> token in
      rw c (
        _,
        refl,
        find-append_new (is_usable_key (sha256 raw_key) later) db.api_keys _
            (unusable (sha256 raw_key) later db.api_keys fresh)
            (rw (==_refl (sha256 raw_key)) refl),
        refl,
        refl,
        refl,
        λ other apart.
            find-append_unmatched (is_usable_key (sha256 other) later) db.api_keys _
              (rw apart refl),
      )
