-- ===== src/Database/Mapping/Tenancy.antt =====
-- database/repository.py: the calls on mapping rules keep to the rules of one account.
use healpipe.Prelude.{
  String, Bool, true, false, Option, some, List, [], ◌∷◌, ◌==◌, nat_eq, string_eq, ◌≡◌, ◌≢◌, refl,
  sym, ap, subst, ◌∙◌, inl, inr, arith, Bool-cases, Option-cases, All, ==_false, ==_refl, &&_parts,
}
use healpipe.Prelude.Table.{
  select, find, find_sound, update_where, All-map, All-update_where, All-unique, All-append_one,
  select-append_unmatched,
}
use healpipe.Database.Schema.{Uuid, Time, MappingRule}
use healpipe.Database.State.{Db}
use healpipe.Database.Mapping.{
  is_active, is_active_for, is_owned, is_approvable, is_restorable, has_mapping_id, proposal,
  deactivate, activate, make_active, breaks_active_index, commit_active, create_mapping_rule,
  approve_mapping_rule, disable_mapping_rule, rollback_mapping_rule,
}
use healpipe.Database.Mapping.Invariant.{IsSound, rollback-eq-make_active}

module _ {A : Type 0} where
  -- An update of rows that a condition leaves out, before and after, changes nothing of those it
  -- selects.
  select-update_where_apart :
      (q p : A → Bool) (f : A → A) (xs : List A)
      → All (λ x. p x ≡ true → (q (f x) ≡ false) × (q x ≡ false)) xs
      → select q (update_where p f xs) ≡ select q xs
  unfolding select update_where
  select-update_where_apart q p f [] h = refl
  select-update_where_apart q p f (x ∷ xs) h =
      ground (arith, h.0, select-update_where_apart q p f xs h.1)

  All-find :
      (P : A → Type 0) (p : A → Bool) (xs : List A) {a : A} → find p xs ≡ some a → All P xs → P a
  unfolding find
  All-find P p [] h t = cc h
  All-find P p (x ∷ xs) {a} h t = elim (Bool-cases (p x)) [
    | inl e ↦ subst P (ground arith) t.0
    | inr e ↦ All-find P p xs {a = a} (ground arith) t.1
  ]

abbrev pub belongs_to : Uuid → MappingRule → Bool
belongs_to c r = r.account_id == c

-- The rules of an account.
abbrev pub rules_of : Uuid → Db → List MappingRule
rules_of c db = select (belongs_to c) db.mapping_rules

-- The rule that an account finds is not of another.
foreign_outside :
    (i account c : Uuid) (rule : MappingRule) (db : Db)
    → find (is_owned i account) db.mapping_rules ≡ some rule
    → account ≢ c
    → belongs_to c rule ≡ false
foreign_outside i account c rule db found apart =
    let mine : rule.account_id ≡ account =
      (nat_eq.same_iff rule.account_id account).0
        (&&_parts _ _ (find_sound (is_owned i account) db.mapping_rules found)).1 in
    ==_false rule.account_id c (λ e. apart (sym mine ∙ e))

same_id_outside :
    (i account c : Uuid) (rule : MappingRule) (db : Db)
    → IsSound db
    → find (is_owned i account) db.mapping_rules ≡ some rule
    → account ≢ c
    → All (λ x. has_mapping_id rule.mapping_id x ≡ true → belongs_to c x ≡ false) db.mapping_rules
same_id_outside i account c rule db w found apart =
    All-map db.mapping_rules
      (λ x same k.
        subst (λ r. belongs_to c r ≡ false) (sym (same k))
          (foreign_outside i account c rule db found apart))
      (All-unique (is_owned i account) (has_mapping_id rule.mapping_id) db.mapping_rules found
        (==_refl rule.mapping_id) (w.ids rule.mapping_id))

module _ (owner : Uuid → Uuid) where
  abbrev pub OwnsRule : MappingRule → Type 0
  OwnsRule r = r.account_id ≡ owner r.bridge_id

  -- Every rule is of the account that owns its bridge.
  abbrev pub IsTenanted : List MappingRule → Type 0
  IsTenanted rules = All OwnsRule rules

  make_active-IsTenanted :
      (rule : MappingRule) (actor : String) (now : Time) (rules : List MappingRule)
      → IsTenanted rules
      → IsTenanted (make_active rule actor now rules)
  unfolding make_active
  make_active-IsTenanted rule actor now rules t =
      All-update_where OwnsRule _ (activate actor now) _ (λ x h. h)
        (All-update_where OwnsRule _ (deactivate actor now) rules (λ x h. h) t)

  -- A rule is made active within its account.
  make_active_apart :
      (i account c : Uuid) (rule : MappingRule) (actor : String) (now : Time) (db : Db)
      → IsSound db
      → IsTenanted db.mapping_rules
      → find (is_owned i account) db.mapping_rules ≡ some rule
      → account ≢ c
      → select (belongs_to c) (make_active rule actor now db.mapping_rules) ≡ rules_of c db
  unfolding make_active
  make_active_apart i account c rule actor now db w t found apart =
      let outside = foreign_outside i account c rule db found apart in
      let owned = All-find OwnsRule (is_owned i account) db.mapping_rules found t in
      let in_place = is_active_for rule.bridge_id rule.source_field in
      let cleared = update_where in_place (deactivate actor now) db.mapping_rules in
      let second =
        select-update_where_apart (belongs_to c) (has_mapping_id rule.mapping_id)
          (activate actor now) cleared
          (All-map cleared (λ x h k. (h k, h k))
            (All-update_where
              (λ x. has_mapping_id rule.mapping_id x ≡ true → belongs_to c x ≡ false) in_place
              (deactivate actor now) db.mapping_rules (λ x h. h)
              (same_id_outside i account c rule db w found apart))) in
      let first =
        select-update_where_apart (belongs_to c) in_place (deactivate actor now) db.mapping_rules (
          All-map db.mapping_rules
            (λ x h k.
              let same : x.bridge_id ≡ rule.bridge_id =
                (nat_eq.same_iff x.bridge_id rule.bridge_id).0 (&&_parts _ _ k).0 in
              let account_same : x.account_id ≡ rule.account_id = h ∙ (ap owner same ∙ sym owned) in
              let out : belongs_to c x ≡ false =
                subst (λ a. (a == c) ≡ false) (sym account_same) outside in
              (out, out))
            t) in
      second ∙ first

  -- What a call does to the rules: they stay tenanted, and those of other accounts are unchanged.
  abbrev pub KeepsTo : Uuid → Db → Db → Type 0
  KeepsTo account before after =
      IsTenanted after.mapping_rules
      × ((c : Uuid) → account ≢ c → rules_of c after ≡ rules_of c before)

  made_active-KeepsTo :
      (i account : Uuid) (rule : MappingRule) (actor : String) (now : Time) (db : Db)
      → IsSound db
      → IsTenanted db.mapping_rules
      → find (is_owned i account) db.mapping_rules ≡ some rule
      → KeepsTo account db
          (commit_active rule actor now (make_active rule actor now db.mapping_rules) db).1
  made_active-KeepsTo i account rule actor now db w t found =
      elim (Bool-cases (breaks_active_index rule db)) [
        | inl e ↦ rw e (t, λ c apart. refl)
        | inr e ↦ rw e (
          make_active-IsTenanted rule actor now db.mapping_rules t,
          λ c apart. make_active_apart i account c rule actor now db w t found apart,
        )
      ]

  pub approve_mapping_rule-KeepsTo :
      (i : Uuid) (actor : String) (account : Uuid) (now : Time) (db : Db)
      → IsSound db
      → IsTenanted db.mapping_rules
      → KeepsTo account db (approve_mapping_rule i actor account now db).1
  unfolding approve_mapping_rule
  approve_mapping_rule-KeepsTo i actor account now db w t = elim (Bool-cases db.configured) [
    | inr e ↦ rw e (t, λ c apart. refl)
    | inl e ↦ elim (Option-cases (find (is_owned i account) db.mapping_rules)) [
      | inl missing ↦ rw (e, missing) (t, λ c apart. refl)
      | inr (r, found) ↦ elim (Bool-cases (is_approvable r.status)) [
        | inr k ↦ rw (e, found, k) (t, λ c apart. refl)
        | inl k ↦ rw (e, found, k) (made_active-KeepsTo i account r actor now db w t found)
      ]
    ]
  ]

  pub rollback_mapping_rule-KeepsTo :
      (i : Uuid) (actor : String) (account : Uuid) (now : Time) (db : Db)
      → IsSound db
      → IsTenanted db.mapping_rules
      → KeepsTo account db (rollback_mapping_rule i actor account now db).1
  rollback_mapping_rule-KeepsTo i actor account now db w t = elim (Bool-cases db.configured) [
    | inr e ↦ unfold rollback_mapping_rule in rw e (t, λ c apart. refl)
    | inl e ↦ elim (Option-cases (find (is_owned i account) db.mapping_rules)) [
      | inl missing ↦ unfold rollback_mapping_rule in rw (e, missing) (t, λ c apart. refl)
      | inr (r, found) ↦ elim (Bool-cases (is_restorable r.status)) [
        | inr k ↦ unfold rollback_mapping_rule in rw (e, found, k) (t, λ c apart. refl)
        | inl k ↦
            rw (rollback-eq-make_active i actor account now db w e found k)
              (made_active-KeepsTo i account r actor now db w t found)
      ]
    ]
  ]

  pub disable_mapping_rule-KeepsTo :
      (i : Uuid) (actor : String) (account : Uuid) (now : Time) (db : Db)
      → IsSound db
      → IsTenanted db.mapping_rules
      → KeepsTo account db (disable_mapping_rule i actor account now db).1
  unfolding disable_mapping_rule
  disable_mapping_rule-KeepsTo i actor account now db w t = elim (Bool-cases db.configured) [
    | inr e ↦ rw e (t, λ c apart. refl)
    | inl e ↦ elim (Option-cases (find (is_owned i account) db.mapping_rules)) [
      | inl missing ↦ rw (e, missing) (t, λ c apart. refl)
      | inr (r, found) ↦ elim (Bool-cases (is_active r.status)) [
        | inr k ↦ rw (e, found, k) (t, λ c apart. refl)
        | inl k ↦
            rw (e, found, k)
              (
                All-update_where OwnsRule _ (deactivate actor now) _ (λ x h. h) t,
                λ c apart.
                    select-update_where_apart (belongs_to c) _ (deactivate actor now)
                      db.mapping_rules
                      (All-map db.mapping_rules (λ x h k. (h k, h k))
                        (same_id_outside i account c r db w found apart)),
              )
      ]
    ]
  ]

  -- A proposal is made for a bridge of the account.
  pub create_mapping_rule-KeepsTo :
      (b : Uuid) (source destination actor : String) (reason : Option String) (account : Uuid)
      (now : Time) (db : Db)
      → account ≡ owner b
      → IsTenanted db.mapping_rules
      → KeepsTo account db (create_mapping_rule b source destination actor reason account now db).1
  unfolding create_mapping_rule
  create_mapping_rule-KeepsTo b source destination actor reason account now db mine t =
      elim (Bool-cases db.configured) [
        | inr e ↦ rw e (t, λ c apart. refl)
        | inl e ↦
            let r = proposal account b source destination actor reason now db in
            rw e (
              All-append_one OwnsRule db.mapping_rules r t mine,
              λ c apart.
                  select-append_unmatched (belongs_to c) db.mapping_rules r
                    (==_false account c apart),
            )
      ]
