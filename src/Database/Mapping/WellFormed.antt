-- ===== src/Database/Mapping/WellFormed.antt =====
-- The invariant of the mapping_rules table, and that the calls of repository.py keep it.
use healpipe.Prelude.{
  ℕ, ◌≤◌, String, Bool, true, ◌&&◌, some, List, ◌≡◌, refl, ◌==◌, nat_eq, string_eq, arith, inl, inr,
  Bool-cases, eq_iff, All,
}
use healpipe.Prelude.Table.{
  count_where, update_where, find, find_sound, count_where-update_where-le,
  count_where-update_where_same, count_where-update_where_clear, count_where-update_where_zero,
  count_where-update_where_clear_on, All-unique, All-map, All-update_where,
}
use healpipe.Database.Schema.{Uuid, Time, MappingRule}
use healpipe.Database.Mapping.{is_active_for, has_mapping_id, deactivate, activate, make_active}

abbrev pub has_revision : Uuid → String → ℕ → MappingRule → Bool
has_revision b s n r = r.bridge_id == b && (r.source_field == s && r.revision == n)

-- The primary key, `uuid4`, uq_mapping_rule_active_source and uq_mapping_rule_revision.
pub record IsWellFormed (next : ℕ) (rules : List MappingRule) : Type 0 where
  pub ids : (i : Uuid) → count_where (has_mapping_id i) rules ≤ 1
  pub fresh : (i : Uuid) → next ≤ i → count_where (has_mapping_id i) rules ≡ 0
  pub one_active : (b : Uuid) (s : String) → count_where (is_active_for b s) rules ≤ 1
  pub revisions : (b : Uuid) (s : String) (n : ℕ) → count_where (has_revision b s n) rules ≤ 1

module _ (rule : MappingRule) (actor : String) (now : Time) (rules : List MappingRule) where
  abbrev cleared : List MappingRule
  cleared =
      update_where (is_active_for rule.bridge_id rule.source_field) (deactivate actor now) rules

  abbrev SamePlace : MappingRule → Type 0
  SamePlace x =
      has_mapping_id rule.mapping_id x ≡ true
      → (x.bridge_id ≡ rule.bridge_id) × (x.source_field ≡ rule.source_field)

  make_active-ids :
      (i : Uuid)
      → count_where (has_mapping_id i) (make_active rule actor now rules)
        ≡ count_where (has_mapping_id i) rules
  unfolding make_active
  make_active-ids i =
      rw
        (count_where-update_where_same (has_mapping_id i) (has_mapping_id rule.mapping_id)
          (activate actor now) cleared (λ x h. refl))
        (count_where-update_where_same (has_mapping_id i) _ (deactivate actor now) rules
          (λ x h. refl))

  make_active-revisions :
      (b : Uuid) (s : String) (n : ℕ)
      → count_where (has_revision b s n) (make_active rule actor now rules)
        ≡ count_where (has_revision b s n) rules
  unfolding make_active
  make_active-revisions b s n =
      rw
        (count_where-update_where_same (has_revision b s n) (has_mapping_id rule.mapping_id)
          (activate actor now) cleared (λ x h. refl))
        (count_where-update_where_same (has_revision b s n) _ (deactivate actor now) rules
          (λ x h. refl))

  zero_in_place : count_where (is_active_for rule.bridge_id rule.source_field) cleared ≡ 0
  zero_in_place =
      count_where-update_where_zero (is_active_for rule.bridge_id rule.source_field)
        (deactivate actor now) rules (λ x h. ground arith)

  -- In the place of `rule` the cleared table has no active rule, elsewhere nothing becomes active.
  make_active-one_active :
      All SamePlace rules
      → ((i : Uuid) → count_where (has_mapping_id i) rules ≤ 1)
      → ((b : Uuid) (s : String) → count_where (is_active_for b s) rules ≤ 1)
      → (b : Uuid) (s : String)
      → count_where (is_active_for b s) (make_active rule actor now rules) ≤ 1
  unfolding make_active
  make_active-one_active places ids one b s =
      elim (Bool-cases (rule.bridge_id == b && rule.source_field == s)) [
        | inl e ↦
            let eb : b ≡ rule.bridge_id = ground arith in
            let es : s ≡ rule.source_field = ground (arith, eq_iff rule.source_field s) in
            rw (eb, es)
              (omega (
                arith,
                zero_in_place,
                count_where-update_where-le (is_active_for rule.bridge_id rule.source_field)
                    (has_mapping_id rule.mapping_id) (activate actor now) cleared,
                count_where-update_where_same (has_mapping_id rule.mapping_id)
                    (is_active_for rule.bridge_id rule.source_field) (deactivate actor now) rules
                    (λ x h. refl),
                ids rule.mapping_id,
              ))
        | inr e ↦ omega (
          arith,
          count_where-update_where_clear_on (is_active_for b s) (has_mapping_id rule.mapping_id)
              (activate actor now) cleared
              (All-map cleared (λ x same h. let (eb, es) = same h in rw (eb, es) (ground arith))
                (All-update_where SamePlace (is_active_for rule.bridge_id rule.source_field)
                  (deactivate actor now) rules (λ x h. h) places)),
          count_where-update_where_clear (is_active_for b s)
              (is_active_for rule.bridge_id rule.source_field) (deactivate actor now) rules
              (λ x h. ground arith),
          one b s,
        )
      ]

  pub make_active-IsWellFormed :
      (next : ℕ)
      → find (has_mapping_id rule.mapping_id) rules ≡ some rule
      → IsWellFormed next rules
      → IsWellFormed next (make_active rule actor now rules)
  make_active-IsWellFormed next found w = record {
    ids = λ i. omega (arith, make_active-ids i, w.ids i);
    fresh = λ i h. omega (arith, make_active-ids i, w.fresh i h);
    one_active =
        make_active-one_active
          (All-map rules (λ x only h. let e = only h in rw e (refl, refl))
            (All-unique (has_mapping_id rule.mapping_id) (has_mapping_id rule.mapping_id) rules
              found (find_sound (has_mapping_id rule.mapping_id) rules found)
              (w.ids rule.mapping_id)))
          w.ids w.one_active;
    revisions = λ b s n. omega (arith, make_active-revisions b s n, w.revisions b s n);
  }
