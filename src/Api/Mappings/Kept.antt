-- ===== src/Api/Mappings/Kept.antt =====
-- main.py: what the calls of the routes on mapping rules leave as it was.
use healpipe.Prelude.{
  ℕ, suc, String, Option, none, some, List, [], ◌∷◌, ◌≡◌, refl, sym, subst, ◌∙◌, inl, inr, arith,
  Bool-cases, All, Among,
}
use healpipe.Database.Schema.{Uuid, Time, Role, MappingRule}
use healpipe.Database.Schema.Json.{Payload}
use healpipe.Database.State.{Db, Result, ok, err, Result-cases}
use healpipe.Database.Audit.{write_audit_log}
use healpipe.Database.Mapping.{
  create_mapping_rule, approve_mapping_rule, disable_mapping_rule, rollback_mapping_rule,
}
use healpipe.Database.Mapping.WellFormed.{IsWellFormed}
use healpipe.Database.Mapping.Invariant.{IsSound}
use healpipe.Api.State.{Api, Request, Setting}
use healpipe.Api.Access.{request_account, require_role}
use healpipe.Api.Access.Grants.{access_granted}
use healpipe.Api.Mappings.{log_proposal, answer, granted}

IsSound-weaken :
    (next : ℕ) (rules : List MappingRule) → IsWellFormed next rules → IsWellFormed (suc next) rules
IsSound-weaken next rules w = record {
  ids = w.ids;
  fresh = λ i h. w.fresh i (omega arith);
  one_active = w.one_active;
  revisions = w.revisions;
}

write_audit_log_lem :
    (account : Uuid) (actor action kind object : String) (after : Option Payload) (now : Time)
    (db : Db)
    → let logged = write_audit_log account actor action kind object after now db in
      (IsSound db → IsSound logged)
      × (logged.mapping_rules ≡ db.mapping_rules)
      × (logged.data_bridges ≡ db.data_bridges)
unfolding write_audit_log
write_audit_log_lem account actor action kind object after now db =
    elim (Bool-cases db.configured) [
      | inl e ↦ rw e ((λ w. IsSound-weaken db.next_id db.mapping_rules w), refl, refl)
      | inr e ↦ rw e ((λ w. w), refl, refl)
    ]

pub answer_lem :
    (s : Setting) (account : Uuid) (actor action : String) (i : Uuid) (code : ℕ) (refusal : String)
    (result : Result (Option MappingRule)) (db : Db) (api : Api)
    → let after = (answer s account actor action i code refusal (result, db) api).1.db in
      (IsSound db → IsSound after)
      × (after.mapping_rules ≡ db.mapping_rules)
      × (after.data_bridges ≡ db.data_bridges)
unfolding answer
answer_lem s account actor action i code refusal (err e) db api = ((λ w. w), refl, refl)
answer_lem s account actor action i code refusal (ok none) db api = ((λ w. w), refl, refl)
answer_lem s account actor action i code refusal (ok (some rule)) db api =
    write_audit_log_lem account actor action "mapping" _ _ s.now db

pub log_proposal_lem :
    (s : Setting) (who : Uuid × String) (result : Result MappingRule) (db : Db) (api : Api)
    → let after = (log_proposal s who (result, db) api).1.db in
      (IsSound db → IsSound after)
      × (after.mapping_rules ≡ db.mapping_rules)
      × (after.data_bridges ≡ db.data_bridges)
unfolding log_proposal
log_proposal_lem s who (err e) db api = ((λ w. w), refl, refl)
log_proposal_lem s who (ok rule) db api =
    write_audit_log_lem who.0 who.1 "mapping.proposed" "mapping" _ _ s.now db

pub All-Among : {A : Type 0} (P : A → Type 0) (xs : List A) (a : A) → Among a xs → All P xs → P a
All-Among P [] a h t = elim h [ ]
All-Among P (x ∷ xs) a (inl e) t = subst P (sym e) t.0
All-Among P (x ∷ xs) a (inr h) t = All-Among P xs a h t.1

pub approve_bridges :
    (i : Uuid) (actor : String) (account : Uuid) (now : Time) (db : Db)
    → (approve_mapping_rule i actor account now db).1.data_bridges ≡ db.data_bridges
unfolding approve_mapping_rule
approve_bridges i actor account now db = ground arith

pub disable_bridges :
    (i : Uuid) (actor : String) (account : Uuid) (now : Time) (db : Db)
    → (disable_mapping_rule i actor account now db).1.data_bridges ≡ db.data_bridges
unfolding disable_mapping_rule
disable_bridges i actor account now db = ground arith

pub rollback_bridges :
    (i : Uuid) (actor : String) (account : Uuid) (now : Time) (db : Db)
    → (rollback_mapping_rule i actor account now db).1.data_bridges ≡ db.data_bridges
unfolding rollback_mapping_rule
rollback_bridges i actor account now db = ground arith

pub create_bridges :
    (b : Uuid) (source destination actor : String) (reason : Option String) (account : Uuid)
    (now : Time) (db : Db)
    → (create_mapping_rule b source destination actor reason account now db).1.data_bridges
      ≡ db.data_bridges
unfolding create_mapping_rule
create_bridges b source destination actor reason account now db = ground arith

-- The account of the role is that of the scope.
pub granted_account :
    (s : Setting) (request : Request) (allowed : List Role) (scope : String) (db : Db) (a : Uuid)
    (x : String)
    → granted s request allowed scope db ≡ ok (a, x)
    → request_account s request (some scope) db ≡ ok (a, x)
granted_account s request allowed scope db a x h =
    elim (Result-cases (require_role s request allowed db)) [
      | inr (e, f) ↦ absurd (ground arith)
      | inl ((b, y), f) ↦ elim (Result-cases (request_account s request (some scope) db)) [
        | inr (e, g) ↦ absurd (ground arith)
        | inl ((c, z), g) ↦
            let same = access_granted s request allowed (some scope) db b c y z f g in
            let first : (b ≡ a) × (y ≡ x) = ground arith in
            g ∙ rw (sym same.0) (rw (sym same.1) (rw first.0 (rw first.1 refl)))
      ]
    ]
