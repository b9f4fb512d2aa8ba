-- ===== src/Database/Mapping/Snapshot.antt =====
-- What `fetch_active_mapping_snapshot` returns: the active rule of a source field, or else the
-- legacy mapping.
use healpipe.Prelude.{
  ℕ, ◌≤◌, String, true, Option, none, some, List, [], ◌∷◌, map, ◌≡◌, refl, ap, ◌∙◌, nat_eq,
  string_eq, arith, eq_iff,
}
use healpipe.Prelude.Table.{select, count_where, find, find-none}
use healpipe.Prelude.Dict.{Dict, get, put, update, get-put}
use healpipe.Database.Schema.{Uuid, MappingRule}
use healpipe.Database.State.{Db}
use healpipe.Database.Mapping.{
  is_active_in, is_active_for, legacy_mappings, zero_versions, rule_pairs, rule_versions,
  fetch_active_mapping_snapshot,
}
use healpipe.Database.Mapping.Invariant.{IsSound}

-- The rule in force for a source field of a bridge.
unfoldable pub active_rule : Uuid → String → Db → Option MappingRule
active_rule b s db = find (is_active_for b s) db.mapping_rules

get-update_pairs :
    (b : Uuid) (s : String) (rules : List MappingRule) (d : Dict String)
    → count_where (is_active_for b s) rules ≤ 1
    → get s (update d (rule_pairs (select (is_active_in b) rules)))
      ≡ elim (find (is_active_for b s) rules) [ none ↦ get s d | some r ↦ some r.destination_field ]
unfolding count_where select find update
get-update_pairs b s [] d h = refl
get-update_pairs b s (r ∷ rs) d h = ground (
  arith,
  eq_iff r.source_field s,
  eq_iff s r.source_field,
  get-put r.source_field s r.destination_field d,
  find-none (is_active_for b s) rs,
  get-update_pairs b s rs d,
  get-update_pairs b s rs (put r.source_field r.destination_field d),
)

get-update_versions :
    (b : Uuid) (s : String) (rules : List MappingRule) (d : Dict ℕ)
    → count_where (is_active_for b s) rules ≤ 1
    → get s (update d (rule_versions (select (is_active_in b) rules)))
      ≡ elim (find (is_active_for b s) rules) [ none ↦ get s d | some r ↦ some r.revision ]
unfolding count_where select find update
get-update_versions b s [] d h = refl
get-update_versions b s (r ∷ rs) d h = ground (
  arith,
  eq_iff r.source_field s,
  eq_iff s r.source_field,
  get-put r.source_field s r.revision d,
  find-none (is_active_for b s) rs,
  get-update_versions b s rs d,
  get-update_versions b s rs (put r.source_field r.revision d),
)

get-zero_versions :
    (s : String) (d : Dict String)
    → get s (zero_versions d) ≡ elim (get s d) [ none ↦ none | some target ↦ some 0 ]
unfolding get map
get-zero_versions s [] = refl
get-zero_versions s ((k, t) ∷ d) = ground (arith, get-zero_versions s d)

-- In a sound, configured database the snapshot of a bridge maps a source field as its active rule
-- says, with the revision of that rule; without an active rule it maps the field as the legacy
-- mappings do, with version 0.
pub snapshot-get :
    (b : Uuid) (s : String) (db : Db)
    → IsSound db
    → db.configured ≡ true
    → (get s (fetch_active_mapping_snapshot b db).0 ≡ elim (active_rule b s db) [
      | none ↦ get s (legacy_mappings b db)
      | some r ↦ some r.destination_field
    ])
      × (get s (fetch_active_mapping_snapshot b db).1 ≡ elim (active_rule b s db) [
        | none ↦ elim (get s (legacy_mappings b db)) [ none ↦ none | some target ↦ some 0 ]
        | some r ↦ some r.revision
      ])
unfolding fetch_active_mapping_snapshot active_rule
snapshot-get b s db w e = rw e (
  get-update_pairs b s db.mapping_rules (legacy_mappings b db) (w.one_active b s),
  get-update_versions b s db.mapping_rules (zero_versions (legacy_mappings b db)) (w.one_active b s)
      ∙ ap (λ o. elim (active_rule b s db) [ none ↦ o | some r ↦ some r.revision ])
          (get-zero_versions s (legacy_mappings b db)),
)
