-- ===== src/Api/Mappings.antt =====
-- main.py: the routes on mapping rules; database/repository.py: a rule as the audit log keeps it.
mod Kept
pub mod Tenancy
use healpipe.Prelude.{
  ℕ, String, Bool, true, false, Option, none, some, List, [], ◌∷◌, if◌then◌else◌,
}
use healpipe.Database.Schema.{Uuid, Time, Role, MappingRule, MappingStatus}
use healpipe.Database.Schema.Json.{ℤ, Value, Payload}
use healpipe.Database.State.{Db, Result, ok, err, http_exception}
use healpipe.Database.Audit.{write_audit_log}
use healpipe.Database.Mapping.{
  create_mapping_rule, approve_mapping_rule, disable_mapping_rule, rollback_mapping_rule,
}
use healpipe.Api.State.{Api, Route, Request, Setting, check}
use healpipe.Api.Access.{request_account, require_role, require_bridge_account}

abbrev pub text_or_null : Option String → Value
text_or_null none = Value.null
text_or_null (some s) = Value.str s

abbrev pub time_or_null : Setting → Option Time → Value
time_or_null s none = Value.null
time_or_null s (some t) = Value.str (s.show_time t)

abbrev pub rule_status_name : MappingStatus → String
rule_status_name MappingStatus.proposed = "proposed"
rule_status_name MappingStatus.approved = "approved"
rule_status_name MappingStatus.active = "active"
rule_status_name MappingStatus.inactive = "inactive"
rule_status_name MappingStatus.rejected = "rejected"

abbrev pub mapping_rule_dict : Setting → MappingRule → Payload
mapping_rule_dict s r =
    ("mapping_id", Value.str (s.show r.mapping_id))
    ∷ ("bridge_id", Value.str (s.show r.bridge_id))
    ∷ ("account_id", Value.str (s.show r.account_id))
    ∷ ("source_field", Value.str r.source_field)
    ∷ ("destination_field", Value.str r.destination_field)
    ∷ ("revision", Value.int (ℤ.pos r.revision))
    ∷ ("status", Value.str (rule_status_name r.status))
    ∷ ("created_by", Value.str r.created_by)
    ∷ ("created_at", Value.str (s.show_time r.created_at))
    ∷ ("approved_by", text_or_null r.approved_by)
    ∷ ("approved_at", time_or_null s r.approved_at)
    ∷ ("deactivated_by", text_or_null r.deactivated_by)
    ∷ ("deactivated_at", time_or_null s r.deactivated_at)
    ∷ ("reason", text_or_null r.reason)
    ∷ []

abbrev pub log_rule : Setting → Uuid → String → String → Uuid → MappingRule → Db → Db
log_rule s account actor action mapping_id rule db =
    write_audit_log account actor action "mapping" (s.show mapping_id)
      (some (mapping_rule_dict s rule)) s.now db

-- The end of a route: a rule that was changed is logged and returned, and without one the request
-- is answered by an error.
unfoldable pub answer :
    Setting
    → Uuid
    → String
    → (action : String) → Uuid
    → (code : ℕ) (refusal : String) → Result (Option MappingRule) × Db
    → Route MappingRule
answer s account actor action mapping_id code refusal (err e, db) api =
    (err e, record api { db = db })
answer s account actor action mapping_id code refusal (ok none, db) api =
    (err (http_exception code refusal), record api { db = db })
answer s account actor action mapping_id code refusal (ok (some rule), db) api =
    (ok rule, record api { db = log_rule s account actor action mapping_id rule db })

-- The roles that may work on a rule, and the scope that a key needs.
abbrev pub granted : Setting → Request → List Role → (scope : String) → Db → Result (Uuid × String)
granted s request allowed scope db = elim (require_role s request allowed db) [
  | err e ↦ err e
  | ok who ↦ elim (request_account s request (some scope) db) [ err e ↦ err e | ok _ ↦ ok who ]
]

unfoldable pub log_proposal : Setting → Uuid × String → Result MappingRule × Db → Route MappingRule
log_proposal s who (err e, db) api = (err e, record api { db = db })
log_proposal s who (ok rule, db) api =
    (ok rule, record api { db = log_rule s who.0 who.1 "mapping.proposed" rule.mapping_id rule db })

unfoldable pub propose_bridge_mapping :
    Setting
    → Request
    → Uuid
    → (source_field destination_field : String) → (reason : Option String) → Route MappingRule
propose_bridge_mapping s request bridge_id source_field destination_field reason api =
    check (require_role s request (Role.owner ∷ Role.admin ∷ Role.operator ∷ []) api.db)
      (λ _ api.
        check (require_bridge_account s request bridge_id (some "mappings:write") api.db)
          (λ who api.
            log_proposal s (who.0, who.1)
              (create_mapping_rule bridge_id source_field destination_field who.1 reason who.0 s.now
                api.db)
              api)
          api)
      api

abbrev pub no_error : Option MappingRule × Db → Result (Option MappingRule) × Db
no_error (found, db) = (ok found, db)

unfoldable pub approve_mapping : Setting → Request → Uuid → Route MappingRule
approve_mapping s request mapping_id api =
    check (granted s request (Role.owner ∷ Role.admin ∷ []) "mappings:approve" api.db)
      (λ who api.
        answer s who.0 who.1 "mapping.approved" mapping_id 409
          "Mapping is not available for approval"
          (approve_mapping_rule mapping_id who.1 who.0 s.now api.db) api)
      api

unfoldable pub disable_mapping : Setting → Request → Uuid → Route MappingRule
disable_mapping s request mapping_id api =
    check (granted s request (Role.owner ∷ Role.admin ∷ Role.operator ∷ []) "mappings:write" api.db)
      (λ who api.
        answer s who.0 who.1 "mapping.disabled" mapping_id 409
          "Only an active mapping can be disabled"
          (no_error (disable_mapping_rule mapping_id who.1 who.0 s.now api.db)) api)
      api

unfoldable pub rollback_mapping : Setting → Request → Uuid → Route MappingRule
rollback_mapping s request mapping_id api =
    check (granted s request (Role.owner ∷ Role.admin ∷ []) "mappings:approve" api.db)
      (λ who api.
        answer s who.0 who.1 "mapping.rollback" mapping_id 404 "Mapping revision was not found"
          (rollback_mapping_rule mapping_id who.1 who.0 s.now api.db) api)
      api
