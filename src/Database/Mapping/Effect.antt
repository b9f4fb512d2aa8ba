-- ===== src/Database/Mapping/Effect.antt =====
-- What a proposal, an approval, a rollback and a disabling do to the mappings in force.
use healpipe.Prelude.{
  String, Bool, true, false, ◌&&◌, Option, none, some, List, [], ◌∷◌, ◌++◌, ◌≡◌, ◌≤◌, ◌⊎◌, refl,
  sym, ap, ◌==◌, nat_eq, string_eq, arith, inl, inr, Bool-cases, eq_iff, ◌∙◌,
}
use healpipe.Prelude.Table.{
  select, find, find-none, find-find_unique, any, count_where, update_where,
  select-append_unmatched, count_where-update_where_zero,
}
use healpipe.Prelude.Dict.{get}
use healpipe.Database.Schema.{Uuid, Time, MappingRule}
use healpipe.Database.State.{Db, Result, ok, err, unhandled}
use healpipe.Database.Mapping.{
  is_active, is_approvable, is_restorable, is_active_in, is_active_for, has_mapping_id, is_owned,
  legacy_mappings, activate, make_active, breaks_active_index, commit_active, create_mapping_rule,
  approve_mapping_rule, disable_mapping_rule, rollback_mapping_rule, fetch_active_mapping_snapshot,
  proposal, deactivate,
}
use healpipe.Database.Mapping.Invariant.{
  IsSound, find_by_id, clear_by_id, rollback-eq-make_active, disable_mapping_rule-IsSound,
}
use healpipe.Database.Mapping.Place.{make_active-find, make_active-find_elsewhere}
use healpipe.Database.Mapping.WellFormed.{make_active-IsWellFormed}
use healpipe.Database.Mapping.Snapshot.{active_rule, snapshot-get}

-- A proposal changes no snapshot: until it is approved it maps nothing.
pub snapshot-create_mapping_rule :
    (b : Uuid) (source destination actor : String) (reason : Option String) (account : Uuid)
    (now : Time) (db : Db) (c : Uuid)
    → fetch_active_mapping_snapshot c
        (create_mapping_rule b source destination actor reason account now db).1
      ≡ fetch_active_mapping_snapshot c db
unfolding create_mapping_rule fetch_active_mapping_snapshot
snapshot-create_mapping_rule b source destination actor reason account now db c =
    elim (Bool-cases db.configured) [
      | inr e ↦ rw e
      | inl e ↦
          let same : select (is_active_in c)
                (db.mapping_rules ++ proposal account b source destination actor reason now db ∷ [])
              ≡ select (is_active_in c) db.mapping_rules =
            select-append_unmatched (is_active_in c) db.mapping_rules
              (proposal account b source destination actor reason now db) (ground arith) in
          rw (e, same)
    ]

-- The rule `r` is in force for its source field after the call, and the snapshot shows it.
abbrev pub IsInForce : MappingRule → Db → Type 0
IsInForce r db =
    (active_rule r.bridge_id r.source_field db ≡ some r)
    × (get r.source_field (fetch_active_mapping_snapshot r.bridge_id db).0
        ≡ some r.destination_field)
    × (get r.source_field (fetch_active_mapping_snapshot r.bridge_id db).1 ≡ some r.revision)

abbrev pub SameElsewhere : MappingRule → Db → Db → Type 0
SameElsewhere r db db' =
    (b : Uuid) (s : String)
    → (r.bridge_id == b && r.source_field == s) ≡ false
    → active_rule b s db' ≡ active_rule b s db

in_force :
    (r : MappingRule) (db : Db)
    → IsSound db
    → db.configured ≡ true
    → active_rule r.bridge_id r.source_field db ≡ some r
    → IsInForce r db
in_force r db w e h =
    let (m, v) = snapshot-get r.bridge_id r.source_field db w e in (h, rw h at m, rw h at v)

make_active_in_force :
    (i account : Uuid) (actor : String) (now : Time) (db : Db) (r : MappingRule)
    → IsSound db
    → find (is_owned i account) db.mapping_rules ≡ some r
    → is_active r.status ≡ false
    → (active_rule r.bridge_id r.source_field
          (record db { mapping_rules = make_active r actor now db.mapping_rules })
        ≡ some (activate actor now r))
      × SameElsewhere r db (record db { mapping_rules = make_active r actor now db.mapping_rules })
unfolding active_rule
make_active_in_force i account actor now db r w found idle =
    let by_id : find (has_mapping_id r.mapping_id) db.mapping_rules ≡ some r =
      find_by_id i account db.next_id db.mapping_rules w found in
    (
      make_active-find r actor now db.mapping_rules by_id idle,
      λ b s. make_active-find_elsewhere r actor now db.mapping_rules by_id b s (w.ids r.mapping_id),
    )

-- The rule in force at the place of `r` sorts after `r`.
abbrev pub sorts_before_active : MappingRule → Db → Bool
sorts_before_active r db = elim (active_rule r.bridge_id r.source_field db) [
  | none ↦ false
  | some old ↦ db.sorts_before r.mapping_id old.mapping_id
]

-- The two outcomes of an activation of `r`: the error of the index, and the rule in force.
abbrev pub ActivatesInForce :
    MappingRule → String → Time → Db → Result (Option MappingRule) × Db → Type 0
ActivatesInForce r actor now db out =
    ((sorts_before_active r db ≡ true) × (out ≡ (err (unhandled "IntegrityError"), db)))
    ⊎ ((sorts_before_active r db ≡ false)
        × (out.0 ≡ ok (some (activate actor now r)))
        × IsInForce (activate actor now r) out.1
        × SameElsewhere r db out.1)

any-find_unique :
    (q p : MappingRule → Bool) (xs : List MappingRule)
    → count_where q xs ≤ 1
    → any (λ x. q x && p x) xs ≡ elim (find q xs) [ none ↦ false | some x ↦ p x ]
unfolding any find count_where
any-find_unique q p [] h = refl
any-find_unique q p (x ∷ xs) h = elim (Bool-cases (q x)) [
  | inr e ↦ ground (arith, any-find_unique q p xs)
  | inl e ↦
      let rest = any-find_unique q p xs (ground arith) in
      let none_left = find-none q xs (ground arith) in ground (arith, rest, none_left)
]

commit_active-ActivatesInForce :
    (i account : Uuid) (actor : String) (now : Time) (db : Db) (r : MappingRule)
    → IsSound db
    → db.configured ≡ true
    → find (is_owned i account) db.mapping_rules ≡ some r
    → is_active r.status ≡ false
    → ActivatesInForce r actor now db
        (commit_active r actor now (make_active r actor now db.mapping_rules) db)
unfolding active_rule
commit_active-ActivatesInForce i account actor now db r w e found idle =
    let place = is_active_for r.bridge_id r.source_field in
    let same : breaks_active_index r db ≡ sorts_before_active r db =
      any-find_unique place (λ x. db.sorts_before r.mapping_id x.mapping_id) db.mapping_rules
        (w.one_active r.bridge_id r.source_field) in
    elim (Bool-cases (breaks_active_index r db)) [
      | inl k ↦ inl (sym same ∙ k, rw k refl)
      | inr k ↦
          let by_id = find_by_id i account db.next_id db.mapping_rules w found in
          let effect = make_active_in_force i account actor now db r w found idle in
          let after : Db = record db { mapping_rules = make_active r actor now db.mapping_rules } in
          let sound : IsSound after =
            make_active-IsWellFormed r actor now db.mapping_rules db.next_id by_id w in
          inr (
            sym same ∙ k,
            rw k refl,
            rw k (in_force (activate actor now r) after sound e effect.0),
            rw k effect.1,
          )
    ]

-- In a sound, configured database, approving a proposed or approved rule of the account has one of
-- two outcomes. Where another rule is in force for its source field whose identifier sorts after
-- its own, the call raises an IntegrityError and changes nothing. Else it returns the rule
-- activated, which is then in force, with its destination and its revision in the snapshot, and
-- every other source field of every bridge keeps its rule.
pub approve_mapping_rule-ActivatesInForce :
    (i : Uuid) (actor : String) (account : Uuid) (now : Time) (db : Db) (r : MappingRule)
    → IsSound db
    → db.configured ≡ true
    → find (is_owned i account) db.mapping_rules ≡ some r
    → is_approvable r.status ≡ true
    → ActivatesInForce r actor now db (approve_mapping_rule i actor account now db)
approve_mapping_rule-ActivatesInForce i actor account now db r w e found k =
    let result : approve_mapping_rule i actor account now db
        ≡ commit_active r actor now (make_active r actor now db.mapping_rules) db =
      unfold approve_mapping_rule in simp (e, found, k) in
    rw result (commit_active-ActivatesInForce i account actor now db r w e found (ground arith))

-- In a sound, configured database, a rollback to an inactive or approved rule of the account never
-- finds two active rules, and has one of two outcomes. Where the rule in force for its source field
-- has an identifier that sorts after its own, the call raises an IntegrityError and changes
-- nothing. Else it returns the rule activated, which is then in force with its destination and its
-- revision, and every other source field keeps its rule.
pub rollback_mapping_rule-ActivatesInForce :
    (i : Uuid) (actor : String) (account : Uuid) (now : Time) (db : Db) (r : MappingRule)
    → IsSound db
    → db.configured ≡ true
    → find (is_owned i account) db.mapping_rules ≡ some r
    → is_restorable r.status ≡ true
    → ActivatesInForce r actor now db (rollback_mapping_rule i actor account now db)
rollback_mapping_rule-ActivatesInForce i actor account now db r w e found k =
    rw (rollback-eq-make_active i actor account now db w e found k)
      (commit_active-ActivatesInForce i account actor now db r w e found (ground arith))

-- A rule of another account is out of reach: approving, disabling and rolling it back return none
-- and change nothing.
pub foreign_rule_untouched :
    (i : Uuid) (actor : String) (account : Uuid) (now : Time) (db : Db)
    → find (is_owned i account) db.mapping_rules ≡ none
    → (approve_mapping_rule i actor account now db ≡ (ok none, db))
      × (disable_mapping_rule i actor account now db ≡ (none, db))
      × (rollback_mapping_rule i actor account now db ≡ (ok none, db))
unfolding approve_mapping_rule disable_mapping_rule rollback_mapping_rule
foreign_rule_untouched i actor account now db h =
    (rw h (ground arith), rw h (ground arith), rw h (ground arith))

-- In a sound, configured database, disabling the active rule of a source field returns it
-- deactivated and leaves no rule in force there, so the snapshot falls back to the legacy mapping.
pub disable_mapping_rule-falls_back :
    (i : Uuid) (actor : String) (account : Uuid) (now : Time) (db : Db) (r : MappingRule)
    → IsSound db
    → db.configured ≡ true
    → find (is_owned i account) db.mapping_rules ≡ some r
    → is_active r.status ≡ true
    → ((disable_mapping_rule i actor account now db).0 ≡ some (deactivate actor now r))
      × (active_rule r.bridge_id r.source_field (disable_mapping_rule i actor account now db).1
          ≡ none)
      × (get r.source_field
            (fetch_active_mapping_snapshot r.bridge_id
              (disable_mapping_rule i actor account now db).1).0
          ≡ get r.source_field (legacy_mappings r.bridge_id db))
disable_mapping_rule-falls_back i actor account now db r w e found k = (
  ap (λ p. p.0) result,
  free,
  rw free at
        (snapshot-get r.bridge_id r.source_field (disable_mapping_rule i actor account now db).1
          (disable_mapping_rule-IsSound i actor account now db w) (rw result e)).0
      ∙ (rw result),
)
  where
    here : MappingRule → Bool
    here = is_active_for r.bridge_id r.source_field

    current : find here db.mapping_rules ≡ some r
    current =
        find-find_unique (is_owned i account) here db.mapping_rules found
          (ground (arith, eq_iff r.source_field r.source_field))
          (w.one_active r.bridge_id r.source_field)

    result : disable_mapping_rule i actor account now db ≡ (
      some (deactivate actor now r),
      record db {
        mapping_rules =
            update_where (has_mapping_id r.mapping_id) (deactivate actor now) db.mapping_rules;
      },
    )
    result = unfold disable_mapping_rule in simp (e, found, k)

    free :
        active_rule r.bridge_id r.source_field (disable_mapping_rule i actor account now db).1
        ≡ none
    free =
        rw
          (
            result,
            clear_by_id r.bridge_id r.source_field actor now db.next_id db.mapping_rules w current,
          )
          (unfold active_rule in
            find-none here (update_where here (deactivate actor now) db.mapping_rules) (
              count_where-update_where_zero here (deactivate actor now) db.mapping_rules
                (λ x h. ground arith)))
