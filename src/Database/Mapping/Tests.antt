-- ===== src/Database/Mapping/Tests.antt =====
-- The theorems on mapping rules at concrete tables.
use healpipe.Prelude.{ltb, none, some, List, [], ◌∷◌, ◌≡◌, refl, arith}
use healpipe.Prelude.Table.{count_where, find, any}
use healpipe.Prelude.Dict.{get}
use healpipe.Database.Schema.{MappingRule, MappingStatus}
use healpipe.Database.State.{Db, err, unhandled}
use healpipe.Database.Mapping.{
  is_owned, deactivate, legacy_mappings, approve_mapping_rule, disable_mapping_rule,
  rollback_mapping_rule, fetch_active_mapping_snapshot,
}
use healpipe.Database.Mapping.Invariant.{IsSound}
use healpipe.Database.Mapping.Calls.{MappingCall, run, run-IsSound}
use healpipe.Database.Mapping.Snapshot.{active_rule, snapshot-get}
use healpipe.Database.Mapping.Effect.{
  ActivatesInForce, approve_mapping_rule-ActivatesInForce, rollback_mapping_rule-ActivatesInForce,
  disable_mapping_rule-falls_back,
}
use healpipe.Samples.{empty_db, client_rule}

abbrev proposed_db : Db
proposed_db = record empty_db {
  mapping_rules =
      client_rule 1 1 MappingStatus.active
      ∷ client_rule 2 2 MappingStatus.proposed
      ∷ client_rule 3 3 MappingStatus.inactive
      ∷ [];
}

proposed_db-IsSound : IsSound proposed_db
unfolding count_where
proposed_db-IsSound = record {
  ids = λ i. ground arith;
  fresh = λ i h. ground arith;
  one_active = λ b s. ground arith;
  revisions = λ b s n. ground arith;
}

abbrev some_calls : List MappingCall
some_calls =
    MappingCall.propose 9 "mail" "email_address" "ann" none 7 2
    ∷ MappingCall.approve 2 "bob" 7 3
    ∷ MappingCall.rollback 1 "bob" 7 4
    ∷ MappingCall.disable 1 "bob" 7 5
    ∷ []

run-IsSound_example : IsSound (run some_calls proposed_db)
run-IsSound_example = run-IsSound some_calls proposed_db proposed_db-IsSound

abbrev SnapshotAsActive : Type 0
SnapshotAsActive =
    (get "client" (fetch_active_mapping_snapshot 9 proposed_db).0
      ≡ elim (active_rule 9 "client" proposed_db) [
        | none ↦ get "client" (legacy_mappings 9 proposed_db)
        | some r ↦ some r.destination_field
      ])
    × (get "client" (fetch_active_mapping_snapshot 9 proposed_db).1
        ≡ elim (active_rule 9 "client" proposed_db) [
          | none ↦ elim (get "client" (legacy_mappings 9 proposed_db)) [
            | none ↦ none
            | some target ↦ some 0
          ]
          | some r ↦ some r.revision
        ])

snapshot-get_example : SnapshotAsActive
snapshot-get_example = snapshot-get 9 "client" proposed_db proposed_db-IsSound refl

abbrev second_rule : MappingRule
second_rule = client_rule 2 2 MappingStatus.proposed

found_second : find (is_owned 2 7) proposed_db.mapping_rules ≡ some second_rule
unfolding find
found_second = refl

approve_mapping_rule-ActivatesInForce_example :
    ActivatesInForce second_rule "bob" 3 proposed_db (approve_mapping_rule 2 "bob" 7 3 proposed_db)
approve_mapping_rule-ActivatesInForce_example =
    approve_mapping_rule-ActivatesInForce 2 "bob" 7 3 proposed_db second_rule proposed_db-IsSound
      refl found_second refl

-- The same approval where the identifiers sort the other way.
approval_breaks_index :
    approve_mapping_rule 2 "bob" 7 3 (record proposed_db { sorts_before = λ i j. ltb j i })
    ≡ (err (unhandled "IntegrityError"), record proposed_db { sorts_before = λ i j. ltb j i })
unfolding approve_mapping_rule find any
approval_breaks_index = refl

abbrev third_rule : MappingRule
third_rule = client_rule 3 3 MappingStatus.inactive

found_third : find (is_owned 3 7) proposed_db.mapping_rules ≡ some third_rule
unfolding find
found_third = refl

rollback_mapping_rule-ActivatesInForce_example :
    ActivatesInForce third_rule "bob" 4 proposed_db (rollback_mapping_rule 3 "bob" 7 4 proposed_db)
rollback_mapping_rule-ActivatesInForce_example =
    rollback_mapping_rule-ActivatesInForce 3 "bob" 7 4 proposed_db third_rule proposed_db-IsSound
      refl found_third refl

abbrev first_rule : MappingRule
first_rule = client_rule 1 1 MappingStatus.active

found_first : find (is_owned 1 7) proposed_db.mapping_rules ≡ some first_rule
unfolding find
found_first = refl

disable_mapping_rule-falls_back_example :
    ((disable_mapping_rule 1 "bob" 7 5 proposed_db).0 ≡ some (deactivate "bob" 5 first_rule))
    × (active_rule 9 "client" (disable_mapping_rule 1 "bob" 7 5 proposed_db).1 ≡ none)
    × (get "client"
          (fetch_active_mapping_snapshot 9 (disable_mapping_rule 1 "bob" 7 5 proposed_db).1).0
        ≡ get "client" (legacy_mappings 9 proposed_db))
disable_mapping_rule-falls_back_example =
    disable_mapping_rule-falls_back 1 "bob" 7 5 proposed_db first_rule proposed_db-IsSound refl
      found_first refl
