-- ===== src/Database/Triage/Mapping.antt =====
-- What mapping an uncertain event by hand does to its payload, and the rule that it proposes.
use healpipe.Prelude.{
  String, ◌<>◌, ==_refl, Bool, true, false, not, Option, none, some, List, [], ◌∷◌, ◌≡◌, ◌≢◌, ◌≤◌,
  refl, sym, ap, ◌∙◌, nat_eq, string_eq, contains, arith, inl, inr, Bool-cases, eq_iff,
}
use healpipe.Prelude.Table.{
  find, find_sound, find-find_unique, count_where, find-append_unmatched, find-append_new,
  find-update_where, find-none, select, count_where_mono,
}
use healpipe.Prelude.Dict.{get, has_key, keys, IsDict, get-put, get-remove}
use healpipe.Database.Schema.{
  Uuid, Time, HealingEventRecord, EventStatus, MappingRule, MappingStatus, default_account_id,
}
use healpipe.Database.Schema.Json.{Value, Payload}
use healpipe.Database.State.{Db, ok}
use healpipe.Database.Mapping.{approve_mapping_rule, is_owned, has_mapping_id, proposal}
use healpipe.Database.Mapping.Invariant.{IsSound}
use healpipe.Database.Mapping.Effect.{foreign_rule_untouched}
use healpipe.Database.Events.{has_event_id}
use healpipe.Database.Triage.{
  Action, mapped, allowed_keys, is_event_of, source_keys, value_at, move_key, heal_event,
  resolve_triage_event,
}
use healpipe.Database.Triage.Decisions.{resolve-ok, map_event-ok}

-- The payload `healed` is `p` with the entry of `source` moved to `target`.
pub record IsMoved (source target : String) (value : Value) (p healed : Payload) : Type 0 where
  pub arrived : get target healed ≡ some value
  pub gone : get source healed ≡ none
  pub others : (k : String) → k ≢ source → k ≢ target → get k healed ≡ get k p

select_head :
    (p : String → Bool) (xs : List String) {x : String} {r : List String}
    → select p xs ≡ x ∷ r
    → p x ≡ true
unfolding select
select_head p [] h = absurd (ground arith)
select_head p (y ∷ ys) {x} {r} h = elim (Bool-cases (p y)) [
  | inl e ↦ ground (arith, e)
  | inr e ↦ select_head p ys {x = x} {r = r} (ground (arith, e))
]

move_key-IsMoved :
    (source target : String) (default : Value) (p : Payload)
    → IsDict p
    → source ≢ target
    → IsMoved source target (value_at source default p) p (move_key source target default p)
move_key-IsMoved source target default p d apart = record {
  arrived = rw get-put (ground (arith, eq_iff target target));
  gone =
      rw (get-put, get-remove source source p d)
        (ground (arith, eq_iff source target, eq_iff source source));
  others = λ k a b.
      rw (get-put, get-remove source k p d) (ground (arith, eq_iff k target, eq_iff k source));
}

module _ (show : Uuid → String) (actor : String) (now : Time) (db : Db) (event account : Uuid)
    (target_key : Option String) {healed : Payload} {source target : String} {b i : Uuid}
    (done : (resolve_triage_event show event Action.map target_key actor account now db).0
      ≡ ok (mapped i healed source target b)) where
  abbrev after : Db
  after = (resolve_triage_event show event Action.map target_key actor account now db).1

  -- An event is mapped by hand only if it belongs to the account, is uncertain, has exactly one
  -- key outside the allowed ones, and the target is the key that was chosen, an allowed one that its
  -- payload lacks. Then its row is healed: the value of the one key stands at the target, the key is
  -- gone and the other keys are as they were. (Event identifiers distinct, the payload a dict.)
  pub triage_maps_payload :
      count_where (has_event_id event) db.healing_events ≤ 1
      → ((e : HealingEventRecord)
          → find (is_event_of event account) db.healing_events ≡ some e
          → IsDict e.healed_payload)
      → (e : HealingEventRecord) × (find (is_event_of event account) db.healing_events ≡ some e)
        × (e.status ≡ EventStatus.uncertain)
        × (target_key ≡ some target)
        × (source_keys e.raw_payload ≡ source ∷ [])
        × (contains target allowed_keys ≡ true)
        × (has_key target e.healed_payload ≡ false)
        × (find (has_event_id event) after.healing_events
            ≡ some (heal_event source target healed e))
        × IsMoved source target
            (value_at source (value_at source Value.null e.raw_payload) e.healed_payload)
            e.healed_payload
            healed
  triage_maps_payload once dict =
      let (e, found, waits, same) = resolve-ok show actor now db event account target_key done in
      let (chosen, allowed, only, free, made, _, result) =
        map_event-ok show actor now db e target_key (ap (λ r. r.0) (sym same) ∙ done) in
      let id : e.event_id ≡ event =
        let k = find_sound (is_event_of event account) db.healing_events found in ground arith in
      let apart : source ≢ target = λ h.
        let unlisted = select_head (λ k. not (contains k allowed_keys)) (keys e.raw_payload) only in
        absurd (let clash = rw h at unlisted in ground arith) in
      let own : find (has_event_id event) db.healing_events ≡ some e =
        find-find_unique (is_event_of event account) (has_event_id event) db.healing_events found
          (ground arith) once in
      (
        e,
        found,
        ground arith,
        chosen,
        only,
        allowed,
        free,
        rw (ap (λ r. r.1) same ∙ result) (
            find-update_where (has_event_id event) (has_event_id e.event_id)
              (heal_event source target healed) db.healing_events (λ x h. refl)
            ∙ rw own (ground arith)),
        rw made (
            move_key-IsMoved source target (value_at source Value.null e.raw_payload)
              e.healed_payload (dict e found) apart),
      )

  -- A manual mapping leaves a new proposed rule, from the moved key to the chosen field on the
  -- bridge of the event, which belongs to the default account whoever decides. So an approval of it
  -- by any other account returns none and changes nothing. (In a database with sound mapping rules.)
  pub triage_proposal_unapprovable :
      (other : Uuid) (who : String) (later : Time)
      → IsSound db
      → other ≢ default_account_id
      → (r : MappingRule) × (find (has_mapping_id db.next_id) after.mapping_rules ≡ some r)
        × (r.status ≡ MappingStatus.proposed)
        × (r.bridge_id ≡ b)
        × (r.source_field ≡ source)
        × (r.destination_field ≡ target)
        × (r.account_id ≡ default_account_id)
        × (approve_mapping_rule db.next_id who other later after ≡ (ok none, after))
  triage_proposal_unapprovable other who later w foreign =
      let (e, found, waits, same) = resolve-ok show actor now db event account target_key done in
      let (_, allowed, only, free, made, bridge, result) =
        map_event-ok show actor now db e target_key (ap (λ r. r.0) (sym same) ∙ done) in
      let missing : find (is_owned db.next_id other) db.mapping_rules ≡ none =
        find-none (is_owned db.next_id other) db.mapping_rules (
          omega (
            arith,
            w.fresh db.next_id (omega arith),
            count_where_mono (is_owned db.next_id other) (has_mapping_id db.next_id)
                db.mapping_rules (λ x h. ground arith),
          )) in
      let r =
        proposal default_account_id e.bridge_id source target actor
          (some ("Manual triage proposal for event " <> show e.event_id)) now db in
      let unused : find (has_mapping_id db.next_id) db.mapping_rules ≡ none =
        find-none (has_mapping_id db.next_id) db.mapping_rules (w.fresh db.next_id (omega arith)) in
      let refused =
        (foreign_rule_untouched db.next_id who other later _ (
          find-append_unmatched (is_owned db.next_id other) db.mapping_rules r (ground arith)
          ∙ missing)).0 in
      let there =
        find-append_new (has_mapping_id db.next_id) db.mapping_rules r unused
          (==_refl db.next_id) in
      let state = ap (λ x. x.1) same ∙ result in
      (r, rw state there, refl, bridge, refl, refl, refl, rw state refused)
