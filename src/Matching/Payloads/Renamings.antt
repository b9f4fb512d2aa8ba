-- ===== src/Matching/Payloads/Renamings.antt =====
-- What `map_payload_keys` renames, and what it keeps.
use healpipe.Prelude.{
  String, true, false, some, List, [], ◌∷◌, ◌++◌, ◌≡◌, ◌≢◌, refl, sym, ◌∙◌, string_eq, contains,
  arith, inl, inr, Bool-cases, Option-cases, eq_iff, ==_refl,
}
use mathlib.Core.List.{append_assoc, append-nil}
use healpipe.Prelude.Dict.{get, has_key, IsDict, get-put, put_new, has_key-put}
use healpipe.Database.Schema.Json.{Value, Payload}
use healpipe.Python.{Score, Text}
use healpipe.Matching.Keys.{best_key_match}
use healpipe.Matching.Payloads.{
  Mapping, no_mapping, keep_key, map_key, map_entry, map_entries, map_payload_keys,
}

module _ (text : Text) (expected : List String) (threshold : Score) where
  -- The renamings made so far: each is a match, of another key, and no target serves two keys.
  record IsRenaming (m : Mapping) : Type 0 where
    matched :
        (k t : String)
        → get k m.mappings ≡ some t
        → (best_key_match text k expected threshold ≡ some t)
          × (k ≢ t)
          × (contains t m.used_expected ≡ true)
    apart : (k j t : String) → get k m.mappings ≡ some t → get j m.mappings ≡ some t → k ≡ j

  map_key-IsRenaming :
      (key target : String) (value : Value) (m : Mapping)
      → IsRenaming m
      → best_key_match text key expected threshold ≡ some target
      → contains target m.used_expected ≡ false
      → IsRenaming (map_key key target value m)
  map_key-IsRenaming key target value m r match fresh = record {
    matched = λ k t h.
        let e = get-put key k target m.mappings in
        let old = r.matched k t in ground (arith, eq_iff key target, eq_iff k key, eq_iff t target);
    apart = λ k j t h i.
        let e = get-put key k target m.mappings in
        let f = get-put key j target m.mappings in
        let old = r.matched k t in
        let older = r.matched j t in
        let same = r.apart k j t in
        ground (arith, eq_iff key target, eq_iff k key, eq_iff j key, eq_iff t target);
  }

  keep_key-IsRenaming :
      (key : String) (value : Value) (m : Mapping)
      → IsRenaming m
      → IsRenaming (keep_key key value m)
  keep_key-IsRenaming key value m r = record { matched = r.matched; apart = r.apart }

  map_entry-IsRenaming :
      (key : String) (value : Value) (m : Mapping)
      → IsRenaming m
      → IsRenaming (map_entry text expected threshold key value m)
  unfolding map_entry
  map_entry-IsRenaming key value m r =
      elim (Option-cases (best_key_match text key expected threshold)) [
        | inl e ↦ rw (e, map_entry) (keep_key-IsRenaming key value m r)
        | inr (target, e) ↦
            rw (e, map_entry)
              (elim (Bool-cases (contains target m.used_expected)) [
                | inl used ↦ rw used (keep_key-IsRenaming key value m r)
                | inr fresh ↦ rw fresh (map_key-IsRenaming key target value m r e fresh)
              ])
      ]

  map_entries-IsRenaming :
      (payload : Payload) (m : Mapping)
      → IsRenaming m
      → IsRenaming (map_entries text expected threshold payload m)
  unfolding map_entries map_entry
  map_entries-IsRenaming [] m r = r
  map_entries-IsRenaming ((key, value) ∷ payload) m r =
      map_entries-IsRenaming payload (map_entry text expected threshold key value m)
        (map_entry-IsRenaming key value m r)

  -- Every renaming that is reported takes a key to its best match, which differs from the key, and
  -- no two keys are renamed to one field.
  pub map_payload_keys_renames :
      (payload : Payload) (k t : String)
      → get k (map_payload_keys text payload expected threshold).1 ≡ some t
      → (best_key_match text k expected threshold ≡ some t)
        × (k ≢ t)
        × ((j : String)
            → get j (map_payload_keys text payload expected threshold).1 ≡ some t
            → k ≡ j)
  unfolding map_payload_keys get
  map_payload_keys_renames payload k t h =
      let r = map_entries-IsRenaming payload no_mapping (record {
        matched = λ k t h. absurd (ground arith);
        apart = λ k j t h i. absurd (ground arith);
      }) in
      let m = r.matched k t h in (m.0, m.1, λ j i. r.apart k j t h i)

  pub match_expected :
      (k : String) → contains k expected ≡ true → best_key_match text k expected threshold ≡ some k
  unfolding best_key_match
  match_expected k h = rw h refl

  map_entry_renamed :
      (key target : String) (value : Value) (m : Mapping)
      → best_key_match text key expected threshold ≡ some target
      → contains target m.used_expected ≡ false
      → map_entry text expected threshold key value m ≡ map_key key target value m
  unfolding map_entry
  map_entry_renamed key target value m match fresh = rw (match, map_entry) (rw fresh refl)

  map_entry_used :
      (key target : String) (value : Value) (m : Mapping)
      → best_key_match text key expected threshold ≡ some target
      → contains target m.used_expected ≡ true
      → map_entry text expected threshold key value m ≡ keep_key key value m
  unfolding map_entry
  map_entry_used key target value m match used = rw (match, map_entry) (rw used refl)

  map_entry-expected :
      (key : String) (value : Value) (m : Mapping)
      → contains key expected ≡ true
      → contains key m.used_expected ≡ false
      → map_entry text expected threshold key value m ≡ map_key key key value m
  map_entry-expected key value m listed fresh =
      map_entry_renamed key key value m (match_expected key listed) fresh

  map_entries-expected :
      (payload : Payload) (m : Mapping)
      → IsDict payload
      → ((k : String)
          → has_key k payload ≡ true
          → (contains k expected ≡ true)
            × (contains k m.used_expected ≡ false)
            × (has_key k m.mapped_payload ≡ false))
      → let n = map_entries text expected threshold payload m in
        (n.mapped_payload ≡ m.mapped_payload ++ payload) × (n.mappings ≡ m.mappings)
  unfolding map_entries
  map_entries-expected [] m d h = (sym (append-nil m.mapped_payload), refl)
  map_entries-expected ((key, value) ∷ payload) m d h =
      let now = h key (ground (arith, eq_iff key key)) in
      let next = map_key key key value m in
      let rest = map_entries-expected payload next d.1 (λ k i.
        let later = h k (ground arith) in
        let grown = has_key-put key k value m.mapped_payload in ground (arith, eq_iff k key)) in
      let there = put_new key value m.mapped_payload now.2 in
      let joined = append_assoc m.mapped_payload ((key, value) ∷ []) payload in
      rw (map_entry-expected key value m now.0 now.1, map_entries)
        (rest.0 ∙ rw there joined, rest.1 ∙ rw (==_refl key) refl)

  -- A payload all of whose keys are expected comes back as it is, and nothing is renamed.
  pub map_payload_keys-expected :
      (payload : Payload)
      → IsDict payload
      → ((k : String) → has_key k payload ≡ true → contains k expected ≡ true)
      → map_payload_keys text payload expected threshold ≡ (payload, [])
  unfolding map_payload_keys
  map_payload_keys-expected payload d h =
      let e = map_entries-expected payload no_mapping d (λ k i. (h k i, refl, refl)) in
      cc (e.0, e.1)
