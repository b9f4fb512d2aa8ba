-- ===== src/Api/Mappings/Tenancy.antt =====
-- main.py: a request on a mapping rule reaches the rules of its own account only.
use healpipe.Prelude.{
  ℕ, String, Option, some, List, [], ◌∷◌, ◌≡◌, ◌≢◌, refl, sym, ap, subst, ◌∙◌, inl, inr, All,
}
use healpipe.Prelude.Table.{select}
use healpipe.Database.Schema.{Uuid, Role, MappingRule}
use healpipe.Database.State.{Db, Result, ok, Result-cases}
use healpipe.Database.Mapping.{
  create_mapping_rule, approve_mapping_rule, disable_mapping_rule, rollback_mapping_rule,
}
use healpipe.Database.Mapping.Invariant.{
  IsSound, create_mapping_rule-IsSound, approve_mapping_rule-IsSound, disable_mapping_rule-IsSound,
  rollback_mapping_rule-IsSound,
}
use healpipe.Database.Mapping.Tenancy.{
  belongs_to, rules_of, IsTenanted, KeepsTo, create_mapping_rule-KeepsTo,
  approve_mapping_rule-KeepsTo, disable_mapping_rule-KeepsTo, rollback_mapping_rule-KeepsTo,
}
use healpipe.Api.State.{Api, Request, Setting, check}
use healpipe.Api.Access.{request_account, require_role, require_bridge_account}
use healpipe.Api.Access.Grants.{bridge_access_granted, require_bridge_account_parts}
use healpipe.Api.Mappings.{
  log_proposal, answer, granted, no_error, propose_bridge_mapping, approve_mapping, disable_mapping,
  rollback_mapping,
}
use healpipe.Api.Mappings.Kept.{
  All-Among, answer_lem, approve_bridges, create_bridges, disable_bridges, granted_account,
  log_proposal_lem, rollback_bridges,
}

-- The four routes that change a rule, with what the client chooses.
pub data MappingRequest : Type 0 where
  propose : Uuid → String → String → Option String → MappingRequest
  approve disable rollback : Uuid → MappingRequest

-- The scope that a key needs.
abbrev pub scope_of : MappingRequest → String
scope_of (propose _ _ _ _) = "mappings:write"
scope_of (approve _) = "mappings:approve"
scope_of (disable _) = "mappings:write"
scope_of (rollback _) = "mappings:approve"

unfoldable pub serve : Setting → Request → MappingRequest → Api → Api
serve s request (propose b source destination reason) api =
    (propose_bridge_mapping s request b source destination reason api).1
serve s request (approve i) api = (approve_mapping s request i api).1
serve s request (disable i) api = (disable_mapping s request i api).1
serve s request (rollback i) api = (rollback_mapping s request i api).1

module _ (owner : Uuid → Uuid) where
  -- The table of rules is sound, and its rules and the bridges are of the accounts that own them.
  abbrev pub IsInOrder : Db → Type 0
  IsInOrder db =
      IsSound db
      × IsTenanted owner db.mapping_rules
      × All (λ b. b.account_id ≡ owner b.bridge_id) db.data_bridges

  -- A call on behalf of an account: the order is kept, and the rules of other accounts are.
  abbrev pub Within : Uuid → Db → Db → Type 0
  Within account before after =
      IsInOrder after × ((c : Uuid) → account ≢ c → rules_of c after ≡ rules_of c before)

  alike :
      (account : Uuid) (before d e : Db)
      → (IsSound d → IsSound e)
        × (e.mapping_rules ≡ d.mapping_rules)
        × (e.data_bridges ≡ d.data_bridges)
      → Within account before d
      → Within account before e
  alike account before d e (sound, rules, bridges) ((w, t, b), k) = (
    (
      sound w,
      subst (IsTenanted owner) (sym rules) t,
      subst (λ xs. All (λ b. b.account_id ≡ owner b.bridge_id) xs) (sym bridges) b,
    ),
    λ c apart. ap (select (belongs_to c)) rules ∙ k c apart,
  )

  within :
      (account : Uuid) (before after : Db)
      → IsInOrder before
      → IsSound after
      → KeepsTo owner account before after
      → after.data_bridges ≡ before.data_bridges
      → Within account before after
  within account before after o w k same =
      ((w, k.0, subst (λ xs. All (λ b. b.account_id ≡ owner b.bridge_id) xs) (sym same) o.2), k.1)

  approved :
      (s : Setting) (i : Uuid) (account : Uuid) (actor : String) (db : Db)
      → IsInOrder db
      → Within account db (approve_mapping_rule i actor account s.now db).1
  approved s i account actor db o =
      within account db (approve_mapping_rule i actor account s.now db).1 o
        (approve_mapping_rule-IsSound i actor account s.now db o.0)
        (approve_mapping_rule-KeepsTo owner i actor account s.now db o.0 o.1)
        (approve_bridges i actor account s.now db)

  disabled :
      (s : Setting) (i : Uuid) (account : Uuid) (actor : String) (db : Db)
      → IsInOrder db
      → Within account db (disable_mapping_rule i actor account s.now db).1
  disabled s i account actor db o =
      within account db (disable_mapping_rule i actor account s.now db).1 o
        (disable_mapping_rule-IsSound i actor account s.now db o.0)
        (disable_mapping_rule-KeepsTo owner i actor account s.now db o.0 o.1)
        (disable_bridges i actor account s.now db)

  rolled_back :
      (s : Setting) (i : Uuid) (account : Uuid) (actor : String) (db : Db)
      → IsInOrder db
      → Within account db (rollback_mapping_rule i actor account s.now db).1
  rolled_back s i account actor db o =
      within account db (rollback_mapping_rule i actor account s.now db).1 o
        (rollback_mapping_rule-IsSound i actor account s.now db o.0)
        (rollback_mapping_rule-KeepsTo owner i actor account s.now db o.0 o.1)
        (rollback_bridges i actor account s.now db)

  proposed :
      (s : Setting) (b : Uuid) (source destination : String) (reason : Option String)
      (account : Uuid) (actor : String) (db : Db)
      → account ≡ owner b
      → IsInOrder db
      → Within account db (create_mapping_rule b source destination actor reason account s.now db).1
  proposed s b source destination reason account actor db mine o =
      within account db (create_mapping_rule b source destination actor reason account s.now db).1 o
        (create_mapping_rule-IsSound b source destination actor reason account s.now db o.0)
        (create_mapping_rule-KeepsTo owner b source destination actor reason account s.now db mine
          o.1)
        (create_bridges b source destination actor reason account s.now db)

  -- The order is kept, and a request that is not given an account changes none of its rules.
  abbrev pub KeepsOthers : Setting → Request → (scope : String) → Db → Db → Type 0
  KeepsOthers s request scope before after =
      IsInOrder after
      × ((c : Uuid)
          → ((x : String) → request_account s request (some scope) before ≢ ok (c, x))
          → rules_of c after ≡ rules_of c before)

  reserve :
      (s : Setting) (request : Request) (scope : String) (a : Uuid) (x : String) (before after : Db)
      → request_account s request (some scope) before ≡ ok (a, x)
      → Within a before after
      → KeepsOthers s request scope before after
  reserve s request scope a x before after h k = (
    k.0,
    λ c other.
        k.1 c (λ e.
          other x (subst (λ b. request_account s request (some scope) before ≡ ok (b, x)) e h)),
  )

  -- The three routes that look a rule up by its identifier.
  guarded :
      (s : Setting) (request : Request) (allowed : List Role) (scope action : String) (i : Uuid)
      (code : ℕ) (refusal : String) (op : String → Uuid → Db → Result (Option MappingRule) × Db)
      (api : Api)
      → IsInOrder api.db
      → ((a : Uuid) (x : String) → Within a api.db (op x a api.db).1)
      → KeepsOthers s request scope api.db
          (check
            (granted s request allowed scope api.db)
            (λ who api. answer s who.0 who.1 action i code refusal (op who.1 who.0 api.db) api)
            api).1.db
  guarded s request allowed scope action i code refusal op api o k =
      elim (Result-cases (granted s request allowed scope api.db)) [
        | inr (e, f) ↦ rw f (o, λ c other. refl)
        | inl ((a, x), f) ↦
            let out = op x a api.db in
            let done =
              alike a api.db out.1 (answer s a x action i code refusal out api).1.db
                (answer_lem s a x action i code refusal out.0 out.1 api) (k a x) in
            rw f (
              reserve s request scope a x api.db (answer s a x action i code refusal out api).1.db
                (granted_account s request allowed scope api.db a x f) done)
      ]

  proposal_reserved :
      (s : Setting) (request : Request) (b : Uuid) (source destination : String)
      (reason : Option String) (api : Api)
      → IsInOrder api.db
      → KeepsOthers s request "mappings:write" api.db
          (propose_bridge_mapping s request b source destination reason api).1.db
  unfolding propose_bridge_mapping
  proposal_reserved s request b source destination reason api o =
      elim (Result-cases
        (require_role s request (Role.owner ∷ Role.admin ∷ Role.operator ∷ []) api.db)) [
          | inr (e, f) ↦ rw (propose_bridge_mapping, f) (o, λ c other. refl)
          | inl ((a, x), f) ↦
              elim (Result-cases
                (require_bridge_account s request b (some "mappings:write") api.db)) [
                  | inr (e, g) ↦ rw (propose_bridge_mapping, f) (rw g (o, λ c other. refl))
                  | inl ((c, y, bridge), g) ↦
                      let account =
                        (require_bridge_account_parts s request b c (some "mappings:write") api.db y
                          bridge g).0 in
                      let there =
                        bridge_access_granted s request _ (some "mappings:write") api.db b a c x y
                          bridge f g in
                      let mine : c ≡ owner b =
                        sym there.5
                        ∙ (All-Among (λ d. d.account_id ≡ owner d.bridge_id) api.db.data_bridges
                              bridge there.3 o.2
                            ∙ ap owner there.4) in
                      let out = create_mapping_rule b source destination y reason c s.now api.db in
                      let done =
                        alike c api.db out.1 (log_proposal s (c, y) out api).1.db
                          (log_proposal_lem s (c, y) out.0 out.1 api)
                          (proposed s b source destination reason c y api.db mine o) in
                      rw (propose_bridge_mapping, f)
                        (rw g (
                          reserve s request "mappings:write" c y api.db
                            (log_proposal s (c, y) out api).1.db account done))
                ]
        ]

  -- Where every rule and every bridge is of the account that owns the bridge, each of the four
  -- requests keeps this so, and the table of rules sound, whether it is granted or refused; and
  -- it changes no rule of an account that the request is not given: only with a session or a key
  -- of an account can its rules be proposed, approved, disabled or rolled back.
  pub serve_keeps_accounts_apart :
      (s : Setting) (request : Request) (r : MappingRequest) (api : Api)
      → IsInOrder api.db
      → KeepsOthers s request (scope_of r) api.db (serve s request r api).db
  unfolding serve approve_mapping disable_mapping rollback_mapping
  serve_keeps_accounts_apart s request (approve i) api o =
      guarded s request _ "mappings:approve" "mapping.approved" i 409
        "Mapping is not available for approval" (λ x a db. approve_mapping_rule i x a s.now db) api
        o (λ a x. approved s i a x api.db o)
  serve_keeps_accounts_apart s request (disable i) api o =
      guarded s request _ "mappings:write" "mapping.disabled" i 409
        "Only an active mapping can be disabled"
        (λ x a db. no_error (disable_mapping_rule i x a s.now db)) api o
        (λ a x. disabled s i a x api.db o)
  serve_keeps_accounts_apart s request (rollback i) api o =
      guarded s request _ "mappings:approve" "mapping.rollback" i 404
        "Mapping revision was not found" (λ x a db. rollback_mapping_rule i x a s.now db) api o
        (λ a x. rolled_back s i a x api.db o)
  serve_keeps_accounts_apart s request (propose b source destination reason) api o =
      proposal_reserved s request b source destination reason api o
