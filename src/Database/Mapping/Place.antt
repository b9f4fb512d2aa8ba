-- ===== src/Database/Mapping/Place.antt =====
-- What activating a rule does to the rule in force, at its place and elsewhere.
use healpipe.Prelude.{
  ◌≤◌, String, Bool, true, false, ◌&&◌, some, List, ◌≡◌, refl, ◌∙◌, ◌==◌, nat_eq, string_eq, arith,
  eq_iff,
}
use healpipe.Prelude.Table.{
  count_where, find, find_sound, update_where, find-update_where, find-update_where_new,
  find-update_where_apart, count_where-update_where_zero, All-everywhere, All-unique, All-map,
  All-update_where,
}
use healpipe.Database.Schema.{Uuid, Time, MappingRule}
use healpipe.Database.Mapping.{
  is_active, is_active_for, has_mapping_id, deactivate, activate, make_active,
}

module _ (rule : MappingRule) (actor : String) (now : Time) (rules : List MappingRule)
    (found : find (has_mapping_id rule.mapping_id) rules ≡ some rule) where
  abbrev here : MappingRule → Bool
  here = is_active_for rule.bridge_id rule.source_field

  abbrev cleared : List MappingRule
  cleared = update_where here (deactivate actor now) rules

  found_cleared :
      is_active rule.status ≡ false → find (has_mapping_id rule.mapping_id) cleared ≡ some rule
  found_cleared idle =
      rw
        (find-update_where (has_mapping_id rule.mapping_id) here (deactivate actor now) rules
          (λ x h. refl))
        (rw found (ground arith))

  pub make_active-find :
      is_active rule.status ≡ false
      → find here (make_active rule actor now rules) ≡ some (activate actor now rule)
  unfolding make_active
  make_active-find idle =
      find-update_where_new here (has_mapping_id rule.mapping_id) (activate actor now) cleared
        {a = rule}
        (count_where-update_where_zero here (deactivate actor now) rules (λ x h. ground arith))
        (found_cleared idle) (ground (arith, eq_iff rule.source_field rule.source_field))

  pub make_active-find_elsewhere :
      (b : Uuid) (s : String)
      → count_where (has_mapping_id rule.mapping_id) rules ≤ 1
      → (rule.bridge_id == b && rule.source_field == s) ≡ false
      → find (is_active_for b s) (make_active rule actor now rules) ≡ find (is_active_for b s) rules
  unfolding make_active
  make_active-find_elsewhere b s once apart =
      find-update_where_apart (is_active_for b s) (has_mapping_id rule.mapping_id)
        (activate actor now) cleared
        (All-map cleared
          (λ x at h.
            let (eb, es) = at h in (rw (eb, es) (ground arith), rw (eb, es) (ground arith)))
          (All-update_where
            (λ x.
              has_mapping_id rule.mapping_id x ≡ true
              → (x.bridge_id ≡ rule.bridge_id) × (x.source_field ≡ rule.source_field))
            here (deactivate actor now) rules (λ x h. h)
            (All-map rules (λ x only h. let e = only h in rw e (refl, refl))
              (All-unique (has_mapping_id rule.mapping_id) (has_mapping_id rule.mapping_id) rules
                found (find_sound (has_mapping_id rule.mapping_id) rules found) once))))
      ∙ find-update_where_apart (is_active_for b s) here (deactivate actor now) rules (
          All-everywhere _ rules λ x h. (
            ground arith,
            ground (
              arith,
              eq_iff x.source_field rule.source_field,
              eq_iff x.source_field s,
              eq_iff rule.source_field s,
            ),
          ))
