-- ===== src/Api/Accounts/Modes.antt =====
-- main.py: `google_login` in its two modes.
use healpipe.Prelude.{
  String, ◌<>◌, true, false, Option, none, some, [], ◌∷◌, ◌++◌, ◌≡◌, refl, sym, ap, subst, ◌∙◌, ◌⊎◌,
  inl, inr, arith, Bool-cases, Option-cases,
}
use healpipe.Prelude.Table.{find}
use healpipe.Database.Schema.{Uuid, Time, Role, Account, GoogleIdentity}
use healpipe.Database.Schema.Json.{Payload}
use healpipe.Database.State.{
  Db, Result, Error, ok, err, runtime_error, http_exception, Result-cases,
}
use healpipe.Database.Accounts.{
  has_subject, get_or_create_google_account, google_identity_exists, SignIn, sign_up, new_account,
  shown_name,
}
use healpipe.Database.Accounts.SignUp.{unknown_signs_up}
use healpipe.Database.Audit.{write_audit_log}
use healpipe.Api.State.{Api, Session, Setting}
use healpipe.Api.Access.{present, create_session_token}
use healpipe.Api.Accounts.{
  Google, Identity, LoginMode, LoginAnswer, secret_is_set, verify_google_credential, google_session,
  signed_in, google_login,
}

write_audit_log-accounts :
    (account : Uuid) (actor action kind object : String) (after : Option Payload) (now : Time)
    (db : Db)
    → (write_audit_log account actor action kind object after now db).accounts ≡ db.accounts
unfolding write_audit_log
write_audit_log-accounts account actor action kind object after now db = ground arith

signed_in-accounts :
    (s : Setting) (i : Identity) (out : Result SignIn × Db) (api : Api)
    → (signed_in s i out api).1.db.accounts ≡ out.1.accounts
signed_in-accounts s i (err e, db) api = refl
signed_in-accounts s i (ok signed, db) api =
    elim (Result-cases (create_session_token s (google_session i signed))) [
      | inr (e, f) ↦ rw f (write_audit_log-accounts _ _ _ _ _ _ s.now db)
      | inl (t, f) ↦ rw f (write_audit_log-accounts _ _ _ _ _ _ s.now db)
    ]

exists-cases :
    (subject : String) (db : Db)
    → ((google_identity_exists subject db ≡ ok true)
        × ((g : GoogleIdentity) × (find (has_subject subject) db.google_identities ≡ some g)))
      ⊎ (((google_identity_exists subject db ≡ ok false)
            × (db.configured ≡ true)
            × (find (has_subject subject) db.google_identities ≡ none))
          ⊎ ((e : Error) × (google_identity_exists subject db ≡ err e)))
unfolding google_identity_exists
exists-cases subject db = elim (Bool-cases db.configured) [
  | inr c ↦ inr (inr (runtime_error "DATABASE_URL is not configured", simp c))
  | inl c ↦ elim (Option-cases (find (has_subject subject) db.google_identities)) [
    | inl f ↦ inr (inl (simp (c, f), c, f))
    | inr (g, f) ↦ inl (simp (c, f), (g, f))
  ]
]

known-accounts :
    (subject email : String) (name : Option String) (now : Time) (db : Db) (g : GoogleIdentity)
    → find (has_subject subject) db.google_identities ≡ some g
    → (get_or_create_google_account subject email name now db).1.accounts ≡ db.accounts
unfolding get_or_create_google_account
known-accounts subject email name now db g f = ground arith

token_given :
    (s : Setting) (session : Session)
    → secret_is_set s ≡ ok tt
    → (token : String) × (create_session_token s session ≡ ok token)
unfolding create_session_token
token_given s session h = elim (Option-cases (present s.session_secret)) [
  | inl e ↦ absurd (ground arith)
  | inr (secret, e) ↦ (s.dumps secret s.now session, rw (create_session_token, e) refl)
]

abbrev login_answer : Identity → SignIn → String → LoginAnswer
login_answer i signed token = record {
  session_token = token;
  onboarding_required = signed.onboarding_required;
  user_email = i.email;
  user_name = shown_name i.name i.email;
  picture = i.picture;
  account_name = signed.account.name;
}

signed_in_lem :
    (s : Setting) (i : Identity) (signed : SignIn) (db : Db) (api : Api) (token : String)
    → create_session_token s (google_session i signed) ≡ ok token
    → (signed_in s i (ok signed, db) api).0 ≡ ok (login_answer i signed token)
signed_in_lem s i signed db api token made = rw (signed_in, made) refl

module _ (s : Setting) (google : Google) (credential : String) (api : Api) where
  -- Nothing is changed, or one account is added: the one that the answer is about. Its token is that
  -- of a session of this account, for the person of the credential and as the owner.
  abbrev pub SignsUp : Result LoginAnswer × Api → Type 0
  SignsUp out =
      ((e : Error) × (out ≡ (err e, api)))
      ⊎ ((a : Account) × (t : LoginAnswer) × (i : Identity) × (out.0 ≡ ok t)
          × (verify_google_credential google credential ≡ ok i)
          × (create_session_token s (record {
            account_id = a.account_id;
            actor_id = "google:" <> i.subject;
            role = Role.owner;
          })
              ≡ ok t.session_token)
          × (t.user_email ≡ i.email)
          × (out.1.db.accounts ≡ api.db.accounts ++ a ∷ [])
          × (t.account_name ≡ a.name)
          × (t.onboarding_required ≡ true))

  -- A login never adds an account, whatever it answers. A sign-up never signs into an account that
  -- was there: it is refused and changes nothing, or it adds one account and answers with its name,
  -- the address of the credential, and the token of an owner's session of this account.
  pub google_login_modes :
      ((google_login s google credential LoginMode.login api).1.db.accounts ≡ api.db.accounts)
      × SignsUp (google_login s google credential LoginMode.signup api)
  unfolding google_login
  google_login_modes = elim (Result-cases (secret_is_set s)) [
    | inr (e, f) ↦ (rw (google_login, f) refl, inl (e, rw (google_login, f) refl))
    | inl (tt, f) ↦ elim (Result-cases (verify_google_credential google credential)) [
      | inr (e, g) ↦ (rw (google_login, f) (rw g refl), inl (e, rw (google_login, f) (rw g refl)))
      | inl (i, g) ↦ elim (exists-cases i.subject api.db) [
        | inr (inr (e, h)) ↦ (
          rw (google_login, f) (rw g (rw h refl)),
          inl (e, rw (google_login, f) (rw g (rw h refl))),
        )
        | inl (h, (known, there)) ↦ (
          rw (google_login, f)
              (rw g (
                rw h (
                  signed_in-accounts s i
                    (get_or_create_google_account i.subject i.email i.name s.now api.db) api
                  ∙ known-accounts i.subject i.email i.name s.now api.db known there))),
          inl (
            http_exception 409
                "An account already exists for this Google account. Please choose Login.",
            rw (google_login, f) (rw g (rw h refl)),
          ),
        )
        | inr (inl (h, c, fresh)) ↦ (
          rw (google_login, f) (rw g (rw h refl)),
          (let up = sign_up i.subject i.email i.name s.now api.db in
              let signed : SignIn = record {
                account = new_account (shown_name i.name i.email <> "'s workspace") s.now api.db;
                role = Role.owner;
                onboarding_required = true;
              } in
              let made = token_given s (google_session i signed) f in
              let q : google_login s google credential LoginMode.signup api ≡ signed_in s i up api =
                rw (google_login, f)
                  (rw g (
                    rw h (
                      ap (λ out. signed_in s i out api)
                        (unknown_signs_up i.subject i.email i.name s.now api.db c fresh)))) in
              subst SignsUp (sym q) (
                inr (
                  signed.account,
                  login_answer i signed made.0,
                  i,
                  signed_in_lem s i signed up.1 api made.0 made.1,
                  g,
                  made.1,
                  refl,
                  signed_in-accounts s i up api,
                  refl,
                  refl,
                ))),
        )
      ]
    ]
  ]
