-- ===== src/Database/Mapping.antt =====
-- database/repository.py: the versioned mapping rules of a bridge and the snapshot of those in
-- force. A call takes the time that `datetime.now` reads and returns its result with the database;
-- a row stands for the dict that `_mapping_rule_dict` makes of it.
pub mod Tenancy
pub mod WellFormed
mod Place
pub mod Invariant
pub mod Calls
pub mod Snapshot
pub mod Effect
mod Tests
use healpipe.Prelude.{
  ℕ, suc, ◌+◌, max, String, Bool, true, false, ◌&&◌, Option, none, some, List, [], ◌∷◌, ◌++◌, map,
  ◌==◌, nat_eq, string_eq, if◌then◌else◌,
}
use healpipe.Prelude.Table.{select, update_where, find, any}
use healpipe.Prelude.Dict.{Dict, update}
use healpipe.Database.Schema.{Uuid, Time, MappingRule, MappingStatus, InventoryMapping}
use healpipe.Database.State.{
  Db, Error, Result, ok, err, runtime_error, multiple_results_found, unhandled,
}

abbrev pub is_active : MappingStatus → Bool
is_active MappingStatus.active = true
is_active _ = false

-- `rule.status in {"proposed", "approved"}`
abbrev pub is_approvable : MappingStatus → Bool
is_approvable MappingStatus.proposed = true
is_approvable MappingStatus.approved = true
is_approvable _ = false

-- `target.status in {"inactive", "approved"}`
abbrev pub is_restorable : MappingStatus → Bool
is_restorable MappingStatus.inactive = true
is_restorable MappingStatus.approved = true
is_restorable _ = false

abbrev pub is_active_in : Uuid → MappingRule → Bool
is_active_in b r = r.bridge_id == b && is_active r.status

abbrev pub is_active_for : Uuid → String → MappingRule → Bool
is_active_for b s r = r.bridge_id == b && (r.source_field == s && is_active r.status)

abbrev pub has_mapping_id : Uuid → MappingRule → Bool
has_mapping_id i r = r.mapping_id == i

abbrev pub is_owned : Uuid → Uuid → MappingRule → Bool
is_owned i account r = r.mapping_id == i && r.account_id == account

-- `coalesce(max(revision), 0)` over the rules of one source field
unfoldable pub max_revision : Uuid → String → List MappingRule → ℕ
max_revision b s [] = 0
max_revision b s (r ∷ rs) =
    let rest = max_revision b s rs in
    if r.bridge_id == b && r.source_field == s then max r.revision rest else rest

abbrev pub is_legacy_of : Uuid → InventoryMapping → Bool
is_legacy_of b m = elim m.bridge_id [ none ↦ false | some j ↦ j == b ]

abbrev pub legacy_pairs : Uuid → Db → Dict String
legacy_pairs b db =
    map (λ m. (m.source_sku, m.target_sku)) (select (is_legacy_of b) db.inventory_mappings)

abbrev pub rule_pairs : List MappingRule → Dict String
rule_pairs [] = []
rule_pairs (r ∷ rs) = (r.source_field, r.destination_field) ∷ rule_pairs rs

abbrev pub rule_versions : List MappingRule → Dict ℕ
rule_versions [] = []
rule_versions (r ∷ rs) = (r.source_field, r.revision) ∷ rule_versions rs

-- `{source: target for source, target in legacy}`: a later row of a source wins.
abbrev pub legacy_mappings : Uuid → Db → Dict String
legacy_mappings b db = update [] (legacy_pairs b db)

abbrev pub zero_versions : Dict String → Dict ℕ
zero_versions d = map (λ e. (e.0, 0)) d

unfoldable pub fetch_bridge_inventory_mappings : Uuid → Db → Dict String
fetch_bridge_inventory_mappings b db =
    if db.configured
    then update (legacy_mappings b db) (rule_pairs (select (is_active_in b) db.mapping_rules))
    else []

unfoldable pub fetch_active_mapping_snapshot : Uuid → Db → Dict String × Dict ℕ
fetch_active_mapping_snapshot b db =
    let rules = select (is_active_in b) db.mapping_rules in
    let legacy = legacy_mappings b db in
    if db.configured
    then (update legacy (rule_pairs rules), update (zero_versions legacy) (rule_versions rules))
    else ([], [])

-- The row that `create_mapping_rule` and a triage decision insert.
abbrev pub proposal :
    Uuid → Uuid → String → String → String → Option String → Time → Db → MappingRule
proposal account b source destination actor reason now db = record {
  mapping_id = db.next_id;
  account_id = account;
  bridge_id = b;
  source_field = source;
  destination_field = destination;
  revision = max_revision b source db.mapping_rules + 1;
  status = MappingStatus.proposed;
  created_by = actor;
  created_at = now;
  approved_by = none;
  approved_at = none;
  deactivated_by = none;
  deactivated_at = none;
  reason = reason;
}

abbrev pub add_mapping_rule : MappingRule → Db → Db
add_mapping_rule r db = record db {
  next_id = suc db.next_id;
  mapping_rules = db.mapping_rules ++ r ∷ [];
}

unfoldable pub create_mapping_rule :
    Uuid → String → String → String → Option String → Uuid → Time → Db → Result MappingRule × Db
create_mapping_rule b source destination created_by reason account now db =
    let rule = proposal account b source destination created_by reason now db in
    if db.configured
    then (ok rule, add_mapping_rule rule db)
    else (err (runtime_error "DATABASE_URL is not configured"), db)

abbrev pub deactivate : String → Time → MappingRule → MappingRule
deactivate actor now r = record r {
  status = MappingStatus.inactive;
  deactivated_by = some actor;
  deactivated_at = some now;
}

abbrev pub activate : String → Time → MappingRule → MappingRule
activate actor now r = record r {
  status = MappingStatus.active;
  approved_by = some actor;
  approved_at = some now;
}

-- Deactivate what is active for the source field of `rule`, and activate `rule`: the changes of the
-- objects of the session, which the commit writes.
unfoldable pub make_active : MappingRule → String → Time → List MappingRule → List MappingRule
make_active rule actor now rules =
    update_where (has_mapping_id rule.mapping_id) (activate actor now)
      (update_where (is_active_for rule.bridge_id rule.source_field) (deactivate actor now) rules)

-- The commit writes one UPDATE for each changed row in the order of the primary key, and the index
-- uq_mapping_rule_active_source is checked after each one: it is broken where a rule that is still
-- active for the source field sorts after the one that becomes active.
abbrev pub breaks_active_index : MappingRule → Db → Bool
breaks_active_index rule db =
    any
      (λ r.
        is_active_for rule.bridge_id rule.source_field r
        && db.sorts_before rule.mapping_id r.mapping_id)
      db.mapping_rules

-- The commit of an activation, with the rows that it is to leave. The transaction is rolled back
-- where the index is broken.
abbrev pub commit_active :
    MappingRule → String → Time → List MappingRule → Db → Result (Option MappingRule) × Db
commit_active rule actor now rules db =
    if breaks_active_index rule db
    then (err (unhandled "IntegrityError"), db)
    else (ok (some (activate actor now rule)), record db { mapping_rules = rules })

unfoldable pub approve_mapping_rule :
    Uuid → String → Uuid → Time → Db → Result (Option MappingRule) × Db
approve_mapping_rule mapping_id actor account now db =
    if db.configured
    then elim (find (is_owned mapping_id account) db.mapping_rules) [
      | none ↦ (ok none, db)
      | some rule ↦
          if is_approvable rule.status
          then commit_active rule actor now (make_active rule actor now db.mapping_rules) db
          else (ok none, db)
    ]
    else (ok none, db)

unfoldable pub disable_mapping_rule : Uuid → String → Uuid → Time → Db → Option MappingRule × Db
disable_mapping_rule mapping_id actor account now db =
    if db.configured
    then elim (find (is_owned mapping_id account) db.mapping_rules) [
      | none ↦ (none, db)
      | some rule ↦
          if is_active rule.status
          then (
            some (deactivate actor now rule),
            record db {
              mapping_rules =
                  update_where (has_mapping_id rule.mapping_id) (deactivate actor now)
                    db.mapping_rules;
            },
          )
          else (none, db)
    ]
    else (none, db)

-- `Result.scalar_one_or_none`
unfoldable pub scalar_one_or_none {ℓ} : {A : Type ℓ} → List A → Result (Option A)
scalar_one_or_none [] = ok none
scalar_one_or_none (x ∷ []) = ok (some x)
scalar_one_or_none (x ∷ y ∷ rest) = err multiple_results_found

unfoldable pub rollback_mapping_rule :
    Uuid → String → Uuid → Time → Db → Result (Option MappingRule) × Db
rollback_mapping_rule mapping_id actor account now db =
    if db.configured
    then elim (find (is_owned mapping_id account) db.mapping_rules) [
      | none ↦ (ok none, db)
      | some target ↦
          if is_restorable target.status
          then elim (scalar_one_or_none
              (select (is_active_for target.bridge_id target.source_field) db.mapping_rules)) [
                | err e ↦ (err e, db)
                | ok current ↦
                    commit_active target actor now
                      (update_where (has_mapping_id target.mapping_id) (activate actor now)
                        (elim current [
                          | none ↦ db.mapping_rules
                          | some r ↦
                              update_where (has_mapping_id r.mapping_id) (deactivate actor now)
                                db.mapping_rules
                        ]))
                      db
              ]
          else (ok none, db)
    ]
    else (ok none, db)
