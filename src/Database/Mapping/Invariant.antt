-- ===== src/Database/Mapping/Invariant.antt =====
-- Every call on mapping rules keeps the table well formed.
use healpipe.Prelude.{
  ℕ, ◌<◌, String, true, Option, some, List, [], ◌∷◌, ◌≡◌, refl, nat_eq, string_eq, arith, inl, inr,
  Bool-cases, Option-cases, eq_iff, All,
}
use healpipe.Prelude.Table.{
  count_where, update_where, find, find_sound, find-find_unique, count_where-append,
  count_where-update_where_same, count_where-update_where_clear, All-unique, select-one,
  update_where-ext, update_where_unmatched, count_where-zero_of_find,
}
use healpipe.Database.Schema.{Uuid, Time, MappingRule}
use healpipe.Database.State.{Db}
use healpipe.Database.Mapping.{
  is_active, is_approvable, is_restorable, is_active_for, has_mapping_id, is_owned, max_revision,
  proposal, add_mapping_rule, create_mapping_rule, deactivate, make_active, breaks_active_index,
  commit_active, approve_mapping_rule, disable_mapping_rule, scalar_one_or_none,
  rollback_mapping_rule,
}
use healpipe.Database.Mapping.WellFormed.{IsWellFormed, has_revision, make_active-IsWellFormed}

abbrev pub IsSound : Db → Type 0
IsSound db = IsWellFormed db.next_id db.mapping_rules

revisions_below :
    (b : Uuid) (s : String) (rules : List MappingRule) (n : ℕ)
    → max_revision b s rules < n
    → count_where (has_revision b s n) rules ≡ 0
unfolding max_revision count_where
revisions_below b s [] n h = refl
revisions_below b s (r ∷ rs) n h = ground (arith, eq_iff r.source_field s, revisions_below b s rs n)

-- The owned rule that a call finds is the one of its identifier.
pub find_by_id :
    (i account next : Uuid) (rules : List MappingRule) {r : MappingRule}
    → IsWellFormed next rules
    → find (is_owned i account) rules ≡ some r
    → find (has_mapping_id r.mapping_id) rules ≡ some r
find_by_id i account next rules {r} w h =
    find-find_unique (is_owned i account) (has_mapping_id r.mapping_id) rules h (ground arith)
      (w.ids r.mapping_id)

pub add_mapping_rule-IsSound :
    (account b : Uuid) (source destination actor : String) (reason : Option String) (now : Time)
    (db : Db)
    → IsSound db
    → IsSound (add_mapping_rule (proposal account b source destination actor reason now db) db)
add_mapping_rule-IsSound account b source destination actor reason now db w = record {
  ids = λ i. rw count_where-append (unfold count_where in ground (arith, w.ids i, w.fresh i));
  fresh = λ i h. rw count_where-append (unfold count_where in ground (arith, w.fresh i));
  one_active =
      λ c s. rw count_where-append (unfold count_where in ground (arith, w.one_active c s));
  revisions = λ c s n. rw count_where-append (
      unfold count_where in
      (ground
        (arith, w.revisions c s n, eq_iff source s, revisions_below b source db.mapping_rules n)));
}

pub create_mapping_rule-IsSound :
    (b : Uuid) (source destination actor : String) (reason : Option String) (account : Uuid)
    (now : Time) (db : Db)
    → IsSound db
    → IsSound (create_mapping_rule b source destination actor reason account now db).1
unfolding create_mapping_rule
create_mapping_rule-IsSound b source destination actor reason account now db w =
    elim (Bool-cases db.configured) [
      | inl e ↦ rw e (add_mapping_rule-IsSound account b source destination actor reason now db w)
      | inr e ↦ rw e w
    ]

commit_active-IsSound :
    (r : MappingRule) (actor : String) (now : Time) (db : Db)
    → find (has_mapping_id r.mapping_id) db.mapping_rules ≡ some r
    → IsSound db
    → IsSound (commit_active r actor now (make_active r actor now db.mapping_rules) db).1
commit_active-IsSound r actor now db found w = elim (Bool-cases (breaks_active_index r db)) [
  | inl e ↦ rw e w
  | inr e ↦ rw e (make_active-IsWellFormed r actor now db.mapping_rules db.next_id found w)
]

pub approve_mapping_rule-IsSound :
    (i : Uuid) (actor : String) (account : Uuid) (now : Time) (db : Db)
    → IsSound db
    → IsSound (approve_mapping_rule i actor account now db).1
unfolding approve_mapping_rule
approve_mapping_rule-IsSound i actor account now db w = elim (Bool-cases db.configured) [
  | inr e ↦ rw e w
  | inl e ↦ elim (Option-cases (find (is_owned i account) db.mapping_rules)) [
    | inl missing ↦ rw (e, missing) w
    | inr (r, found) ↦ elim (Bool-cases (is_approvable r.status)) [
      | inr k ↦ rw (e, found, k) w
      | inl k ↦
          rw (e, found, k)
            (commit_active-IsSound r actor now db
              (find_by_id i account db.next_id db.mapping_rules w found) w)
    ]
  ]
]

-- With one active rule at most, the two ways to clear its place agree.
pub clear_by_id :
    (b : Uuid) (s actor : String) (now : Time) (next : ℕ) (rules : List MappingRule)
    {r : MappingRule}
    → IsWellFormed next rules
    → find (is_active_for b s) rules ≡ some r
    → update_where (has_mapping_id r.mapping_id) (deactivate actor now) rules
      ≡ update_where (is_active_for b s) (deactivate actor now) rules
clear_by_id b s actor now next rules {r} w h =
    update_where-ext (has_mapping_id r.mapping_id) (is_active_for b s) (deactivate actor now) rules
      (both rules
        (All-unique (is_active_for b s) (has_mapping_id r.mapping_id) rules h (ground arith)
          (w.ids r.mapping_id))
        (All-unique (is_active_for b s) (is_active_for b s) rules h live (w.one_active b s)))
  where
    live : is_active_for b s r ≡ true
    live = find_sound (is_active_for b s) rules h

    both :
        (xs : List MappingRule)
        → All (λ x. has_mapping_id r.mapping_id x ≡ true → x ≡ r) xs
        → All (λ x. is_active_for b s x ≡ true → x ≡ r) xs
        → All
            (λ x.
              (has_mapping_id r.mapping_id x ≡ true → is_active_for b s x ≡ true)
              × (is_active_for b s x ≡ true → has_mapping_id r.mapping_id x ≡ true))
            xs
    both [] k l = tt
    both (x ∷ xs) k l = ((λ m. rw (k.0 m) live, λ m. rw (l.0 m) (ground arith)), both xs k.1 l.1)

-- On a sound table a rollback finds one active rule at most, and does what an approval does.
pub rollback-eq-make_active :
    (i : Uuid) (actor : String) (account : Uuid) (now : Time) (db : Db) {r : MappingRule}
    → IsSound db
    → db.configured ≡ true
    → find (is_owned i account) db.mapping_rules ≡ some r
    → is_restorable r.status ≡ true
    → rollback_mapping_rule i actor account now db
      ≡ commit_active r actor now (make_active r actor now db.mapping_rules) db
unfolding rollback_mapping_rule scalar_one_or_none make_active
rollback-eq-make_active i actor account now db {r} w e found k =
    elim (Option-cases (find (is_active_for r.bridge_id r.source_field) db.mapping_rules)) [
      | inl free ↦
          simp
            (
              e,
              found,
              k,
              select-one (is_active_for r.bridge_id r.source_field) db.mapping_rules
                  (w.one_active r.bridge_id r.source_field),
              free,
            )
            (rw (
              update_where_unmatched (is_active_for r.bridge_id r.source_field)
                (deactivate actor now) db.mapping_rules
                (count_where-zero_of_find (is_active_for r.bridge_id r.source_field)
                  db.mapping_rules free)))
      | inr (old, used) ↦
          simp
            (
              e,
              found,
              k,
              select-one (is_active_for r.bridge_id r.source_field) db.mapping_rules
                  (w.one_active r.bridge_id r.source_field),
              used,
            )
            (rw
              (clear_by_id r.bridge_id r.source_field actor now db.next_id db.mapping_rules w used))
    ]

pub rollback_mapping_rule-IsSound :
    (i : Uuid) (actor : String) (account : Uuid) (now : Time) (db : Db)
    → IsSound db
    → IsSound (rollback_mapping_rule i actor account now db).1
rollback_mapping_rule-IsSound i actor account now db w = elim (Bool-cases db.configured) [
  | inr e ↦ unfold rollback_mapping_rule in rw e w
  | inl e ↦ elim (Option-cases (find (is_owned i account) db.mapping_rules)) [
    | inl missing ↦ unfold rollback_mapping_rule in rw (e, missing) w
    | inr (r, found) ↦ elim (Bool-cases (is_restorable r.status)) [
      | inr k ↦ unfold rollback_mapping_rule in rw (e, found, k) w
      | inl k ↦ rw (rollback-eq-make_active i actor account now db w e found k) (
          commit_active-IsSound r actor now db
            (find_by_id i account db.next_id db.mapping_rules w found) w)
    ]
  ]
]

pub disable_mapping_rule-IsSound :
    (i : Uuid) (actor : String) (account : Uuid) (now : Time) (db : Db)
    → IsSound db
    → IsSound (disable_mapping_rule i actor account now db).1
unfolding disable_mapping_rule
disable_mapping_rule-IsSound i actor account now db w = elim (Bool-cases db.configured) [
  | inr e ↦ rw e w
  | inl e ↦ elim (Option-cases (find (is_owned i account) db.mapping_rules)) [
    | inl missing ↦ rw (e, missing) w
    | inr (r, found) ↦ elim (Bool-cases (is_active r.status)) [
      | inr k ↦ rw (e, found, k) w
      | inl k ↦
          rw (e, found, k)
            (record {
              ids = λ j.
                  rw
                    (count_where-update_where_same (has_mapping_id j) (has_mapping_id r.mapping_id)
                      (deactivate actor now) db.mapping_rules (λ x h. refl))
                    (w.ids j);
              fresh = λ j h.
                  rw
                    (count_where-update_where_same (has_mapping_id j) (has_mapping_id r.mapping_id)
                      (deactivate actor now) db.mapping_rules (λ x h. refl))
                    (w.fresh j h);
              one_active = λ b s. omega (
                arith,
                w.one_active b s,
                count_where-update_where_clear (is_active_for b s) (has_mapping_id r.mapping_id)
                    (deactivate actor now) db.mapping_rules (λ x h. ground arith),
              );
              revisions = λ b s n.
                  rw
                    (count_where-update_where_same (has_revision b s n)
                      (has_mapping_id r.mapping_id) (deactivate actor now) db.mapping_rules
                      (λ x h. refl))
                    (w.revisions b s n);
            })
    ]
  ]
]
