-- ===== src/Database/Mapping/Calls.antt =====
-- Any sequence of calls on mapping rules, as the API makes them one after another.
use healpipe.Prelude.{String, Option, List, [], ◌∷◌}
use healpipe.Database.Schema.{Uuid, Time}
use healpipe.Database.State.{Db}
use healpipe.Database.Mapping.{
  create_mapping_rule, approve_mapping_rule, disable_mapping_rule, rollback_mapping_rule,
}
use healpipe.Database.Mapping.Invariant.{
  IsSound, create_mapping_rule-IsSound, approve_mapping_rule-IsSound, disable_mapping_rule-IsSound,
  rollback_mapping_rule-IsSound,
}

pub data MappingCall : Type 0 where
  propose : Uuid → String → String → String → Option String → Uuid → Time → MappingCall
  approve disable rollback : Uuid → String → Uuid → Time → MappingCall

unfoldable pub call : MappingCall → Db → Db
call (propose b source destination actor reason account now) db =
    (create_mapping_rule b source destination actor reason account now db).1
call (approve i actor account now) db = (approve_mapping_rule i actor account now db).1
call (disable i actor account now) db = (disable_mapping_rule i actor account now db).1
call (rollback i actor account now) db = (rollback_mapping_rule i actor account now db).1

unfoldable pub run : List MappingCall → Db → Db
run [] db = db
run (c ∷ cs) db = run cs (call c db)

call-IsSound : (c : MappingCall) (db : Db) → IsSound db → IsSound (call c db)
unfolding call
call-IsSound (propose b source destination actor reason account now) db w =
    create_mapping_rule-IsSound b source destination actor reason account now db w
call-IsSound (approve i actor account now) db w =
    approve_mapping_rule-IsSound i actor account now db w
call-IsSound (disable i actor account now) db w =
    disable_mapping_rule-IsSound i actor account now db w
call-IsSound (rollback i actor account now) db w =
    rollback_mapping_rule-IsSound i actor account now db w

-- From a table of mapping rules whose identifiers are distinct and below the next fresh one, in
-- which every source field of a bridge has at most one active rule and no revision twice, every
-- sequence of proposals, approvals, disablings and rollbacks, refused ones included, leads to such
-- a table.
pub run-IsSound : (cs : List MappingCall) (db : Db) → IsSound db → IsSound (run cs db)
unfolding run
run-IsSound [] db w = w
run-IsSound (c ∷ cs) db w = run-IsSound cs (call c db) (call-IsSound c db w)
