-- ===== src/Matching/Persisted/Conserved.antt =====
-- Persisted mappings rename keys and lose no value, and the dry run does what a live run does.
use mathlib.Core.List.{Perm, perm_middle, append-nil}
use mathlib.Core.List.Perm
use healpipe.Prelude.{
  String, false, some, List, [], ◌∷◌, ◌++◌, map, ◌≡◌, refl, sym, ◌∙◌, ap, subst, ◌==◌, string_eq,
  arith, inl, inr, Bool-cases, Option-cases,
}
use healpipe.Prelude.Dict.{Dict, get, put, remove, has_key, values, put_new, has_key-remove, update}
use healpipe.Database.Schema.{Uuid}
use healpipe.Database.Schema.Json.{Value, Payload}
use healpipe.Database.State.{Db}
use healpipe.Database.Mapping.{fetch_active_mapping_snapshot}
use healpipe.Matching.Persisted.{
  move, apply_mappings, apply_persisted_mappings, Change, dry_run, test_bridge_mapping,
}

values-append :
    (p : Payload) (k : String) (v : Value) → values (p ++ (k, v) ∷ []) ≡ values p ++ v ∷ []
values-append [] k v = refl
values-append ((j, w) ∷ p) k v = ap (λ r. w ∷ r) (values-append p k v)

values-remove :
    (k : String) (p : Payload) {v : Value}
    → get k p ≡ some v
    → Perm (values p) (v ∷ values (remove k p))
unfolding get remove
values-remove k [] h = absurd (ground arith)
values-remove k ((j, w) ∷ p) {v} h = elim (Bool-cases (k == j)) [
  | inl e ↦
      let same : w ≡ v = ground arith in
      rw (e, remove)
        (subst (λ x. Perm (w ∷ values p) (x ∷ values p)) same (Perm.refl (w ∷ values p)))
  | inr e ↦
      let found : get k p ≡ some v = ground arith in
      rw (e, remove)
        (Perm.trans (Perm.cons w (values-remove k p found)) (Perm.swap v w (values (remove k p))))
]

values-move :
    (source target : String) (p : Payload) {v : Value}
    → get source p ≡ some v
    → has_key target p ≡ false
    → Perm (values (move source target v p)) (values p)
values-move source target p {v} h free =
    rw (put_new target v (remove source p) (has_key-remove source target p free)) (
      rw (values-append (remove source p) target v) (
        Perm.trans (perm_middle (values (remove source p)) [])
          (rw append-nil (Perm.symm (values-remove source p h)))))

apply_mappings-values :
    (stored : Dict String) (p : Payload) (applied : Dict String)
    → Perm (values (apply_mappings stored p applied).0) (values p)
unfolding apply_mappings
apply_mappings-values [] p applied = Perm.refl (values p)
apply_mappings-values ((source, target) ∷ stored) p applied = elim (Option-cases (get source p)) [
  | inl e ↦ rw (e, apply_mappings) (apply_mappings-values stored p applied)
  | inr (v, e) ↦
      rw (e, apply_mappings)
        (elim (Bool-cases (has_key target p)) [
          | inl taken ↦ rw taken (apply_mappings-values stored p applied)
          | inr free ↦ rw free (
              Perm.trans
                (apply_mappings-values stored (move source target v p) (put source target applied))
                (values-move source target p e free))
        ])
]

-- Applying the active rules of a bridge to a payload loses no value and invents none: the values
-- of the result are those of the payload, in some order.
pub apply_persisted_mappings-values :
    (payload : Payload) (b : Uuid) (db : Db)
    → Perm (values (apply_persisted_mappings payload b db).0) (values payload)
unfolding apply_persisted_mappings
apply_persisted_mappings-values payload b db =
    apply_mappings-values (fetch_active_mapping_snapshot b db).0 payload []

abbrev pub pair_of : Change → String × String
pair_of c = (c.source, c.destination)

update-append :
    (d : Dict String) (e : Dict String) (k t : String)
    → update d (e ++ (k, t) ∷ []) ≡ put k t (update d e)
unfolding update
update-append d [] k t = refl
update-append d ((j, w) ∷ e) k t = update-append (put j w d) e k t

map-append :
    (changes : List Change) (c : Change)
    → map pair_of (changes ++ c ∷ []) ≡ map pair_of changes ++ pair_of c ∷ []
unfolding map
map-append [] c = refl
map-append (d ∷ changes) c = ap (λ r. pair_of d ∷ r) (map-append changes c)

-- What the two loops have in common at every round.
dry_run-agrees :
    (stored : Dict String) (p : Payload) (changes : List Change)
    → ((dry_run stored p changes).0 ≡ (apply_mappings stored p (update [] (map pair_of changes))).0)
      × (update [] (map pair_of (dry_run stored p changes).1)
          ≡ (apply_mappings stored p (update [] (map pair_of changes))).1)
unfolding dry_run apply_mappings
dry_run-agrees [] p changes = (refl, refl)
dry_run-agrees ((source, target) ∷ stored) p changes = elim (Option-cases (get source p)) [
  | inl e ↦ rw (e, apply_mappings, dry_run) (dry_run-agrees stored p changes)
  | inr (v, e) ↦
      rw (e, apply_mappings, dry_run)
        (elim (Bool-cases (has_key target p)) [
          | inl taken ↦ rw taken (dry_run-agrees stored p changes)
          | inr free ↦
              let c : Change = record { source = source; destination = target; value = v } in
              let grown =
                ap (update []) (map-append changes c)
                ∙ update-append [] (map pair_of changes) source target in
              rw free (
                rw (sym grown) (dry_run-agrees stored (move source target v p) (changes ++ c ∷ [])))
        ])
]

-- The dry run agrees with apply_persisted_mappings on the same payload: for every payload, bridge
-- and database it gives the same payload and the same versions, and its changes, read as a
-- dictionary from source to destination, are the mappings of the other. (A webhook is normalized
-- before and its keys are matched after, which the dry run leaves out.)
pub dry_run_applies :
    (payload : Payload) (b : Uuid) (db : Db)
    → let dry = test_bridge_mapping payload b db in
      let live = apply_persisted_mappings payload b db in
      (dry.0 ≡ live.0) × (update [] (map pair_of dry.1) ≡ live.1) × (dry.2 ≡ live.2)
unfolding test_bridge_mapping apply_persisted_mappings update
dry_run_applies payload b db =
    let both = dry_run-agrees (fetch_active_mapping_snapshot b db).0 payload [] in
    (both.0, both.1, refl)
