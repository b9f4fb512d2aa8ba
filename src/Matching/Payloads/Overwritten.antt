-- ===== src/Matching/Payloads/Overwritten.antt =====
-- What `map_payload_keys` loses where an expected field is there besides a key renamed to it.
use healpipe.Prelude.{
  String, true, false, none, some, List, [], ◌∷◌, ◌≡◌, ◌≢◌, refl, sym, subst, ◌==◌, ◌∙◌, string_eq,
  contains, arith, inl, inr, Bool-cases, Option-cases, eq_iff, ==_false,
}
use healpipe.Prelude.Dict.{get, has_key, IsDict, get-put}
use healpipe.Database.Schema.Json.{Value, Payload}
use healpipe.Python.{Score, Text}
use healpipe.Matching.Keys.{best_key_match}
use healpipe.Matching.Keys.Choice.{best_key_match_sound}
use healpipe.Matching.Payloads.{Mapping, no_mapping, map_entry, map_entries, map_payload_keys}
use healpipe.Matching.Payloads.Renamings.{match_expected, map_payload_keys_renames}

module _ (text : Text) (expected : List String) (threshold : Score) where
  -- The entry of another key leaves a field that is used up as it is.
  used_kept :
      (t key : String) (value : Value) (m : Mapping)
      → t ≢ key
      → contains t m.used_expected ≡ true
      → let n = map_entry text expected threshold key value m in
        (get t n.mapped_payload ≡ get t m.mapped_payload) × (contains t n.used_expected ≡ true)
  unfolding map_entry
  used_kept t key value m apart used =
      let far = ==_false t key apart in
      let put_key = get-put key t value m.mapped_payload in
      elim (Option-cases (best_key_match text key expected threshold)) [
        | inl e ↦ rw (e, map_entry) (ground (arith, put_key), used)
        | inr (target, e) ↦ elim (Bool-cases (contains target m.used_expected)) [
          | inl f ↦ rw (e, map_entry) (rw f (ground (arith, put_key), used))
          | inr f ↦
              let put_target = get-put target t value m.mapped_payload in
              rw (e, map_entry) (rw f (ground (arith, put_target, eq_iff t target), ground arith))
        ]
      ]

  used_stays :
      (t : String) (payload : Payload) (m : Mapping)
      → has_key t payload ≡ false
      → contains t m.used_expected ≡ true
      → get t (map_entries text expected threshold payload m).mapped_payload
        ≡ get t m.mapped_payload
  unfolding map_entries
  used_stays t [] m h used = refl
  used_stays t ((key, value) ∷ payload) m h used =
      let apart : t ≢ key = λ e. absurd (ground (arith, e, eq_iff t key)) in
      let step = used_kept t key value m apart used in
      used_stays t payload (map_entry text expected threshold key value m) (ground arith) step.1
      ∙ step.0

  own_kept :
      (t : String) (w : Value) (m : Mapping)
      → contains t expected ≡ true
      → let n = map_entry text expected threshold t w m in
        (get t n.mapped_payload ≡ some w) × (contains t n.used_expected ≡ true)
  unfolding map_entry
  own_kept t w m listed =
      let e = match_expected text expected threshold t listed in
      let put_own = get-put t t w m.mapped_payload in
      elim (Bool-cases (contains t m.used_expected)) [
        | inl f ↦ rw (e, map_entry) (rw f (ground (arith, put_own, eq_iff t t), f))
        | inr f ↦
            rw (e, map_entry)
              (rw f (ground (arith, put_own, eq_iff t t), ground (arith, eq_iff t t)))
      ]

  -- An expected field of the payload keeps its own value, whatever is renamed to it.
  expected_kept :
      (t : String) (w : Value) (payload : Payload) (m : Mapping)
      → IsDict payload
      → contains t expected ≡ true
      → get t payload ≡ some w
      → get t (map_entries text expected threshold payload m).mapped_payload ≡ some w
  unfolding map_entries get
  expected_kept t w [] m d listed h = absurd (ground arith)
  expected_kept t w ((key, value) ∷ payload) m d listed h = elim (Bool-cases (t == key)) [
    | inr e ↦
        expected_kept t w payload (map_entry text expected threshold key value m) d.1 listed
          (ground (arith, e))
    | inl e ↦
        let same : key ≡ t = ground (arith, eq_iff t key) in
        let here : value ≡ w = ground arith in
        let absent : has_key t payload ≡ false = subst (λ j. has_key j payload ≡ false) same d.0 in
        let own = own_kept t w m listed in
        rw (same, here)
          (used_stays t payload (map_entry text expected threshold t w m) absent own.1 ∙ own.0)
  ]

  -- The entry of another key leaves a key that is not expected as it is.
  other_kept :
      (k key : String) (value : Value) (m : Mapping)
      → k ≢ key
      → contains k expected ≡ false
      → let n = map_entry text expected threshold key value m in
        (get k n.mapped_payload ≡ get k m.mapped_payload) × (get k n.mappings ≡ get k m.mappings)
  unfolding map_entry
  other_kept k key value m apart unlisted =
      let far = ==_false k key apart in
      let put_key = get-put key k value m.mapped_payload in
      elim (Option-cases (best_key_match text key expected threshold)) [
        | inl e ↦ rw (e, map_entry) (ground (arith, put_key), refl)
        | inr (target, e) ↦ elim (Bool-cases (contains target m.used_expected)) [
          | inl f ↦ rw (e, map_entry) (rw f (ground (arith, put_key), refl))
          | inr f ↦
              let away : k ≢ target = λ g.
                let there = (best_key_match_sound text key expected threshold target e).0 in
                absurd (let clash = rw g at unlisted in ground arith) in
              let off = ==_false k target away in
              let put_target = get-put target k value m.mapped_payload in
              let put_name = get-put key k target m.mappings in
              rw (e, map_entry) (rw f (ground (arith, put_target), ground (arith, put_name)))
        ]
      ]

  others_kept :
      (k : String) (payload : Payload) (m : Mapping)
      → has_key k payload ≡ false
      → contains k expected ≡ false
      → let n = map_entries text expected threshold payload m in
        (get k n.mapped_payload ≡ get k m.mapped_payload) × (get k n.mappings ≡ get k m.mappings)
  unfolding map_entries
  others_kept k [] m h unlisted = (refl, refl)
  others_kept k ((key, value) ∷ payload) m h unlisted =
      let apart : k ≢ key = λ e. absurd (ground (arith, e, eq_iff k key)) in
      let step = other_kept k key value m apart unlisted in
      let rest =
        others_kept k payload (map_entry text expected threshold key value m) (ground arith)
          unlisted in
      (rest.0 ∙ step.0, rest.1 ∙ step.1)

  -- The entry of a key itself is renamed, or its renaming is not reported.
  renamed_away :
      (k t : String) (value : Value) (m : Mapping)
      → k ≢ t
      → best_key_match text k expected threshold ≡ some t
      → get k m.mapped_payload ≡ none
      → get k m.mappings ≡ none
      → let n = map_entry text expected threshold k value m in
        get k n.mappings ≡ some t → get k n.mapped_payload ≡ none
  unfolding map_entry
  renamed_away k t value m apart e gone unnamed = elim (Bool-cases (contains t m.used_expected)) [
    | inl f ↦ rw (e, map_entry) (rw f (λ h. absurd (ground arith)))
    | inr f ↦
        let far = ==_false k t apart in
        let put_target = get-put t k value m.mapped_payload in
        rw (e, map_entry) (rw f (λ h. ground (arith, put_target)))
  ]

  key_gone :
      (k t : String) (payload : Payload) (m : Mapping)
      → IsDict payload
      → k ≢ t
      → contains k expected ≡ false
      → best_key_match text k expected threshold ≡ some t
      → get k m.mapped_payload ≡ none
      → get k m.mappings ≡ none
      → let n = map_entries text expected threshold payload m in
        get k n.mappings ≡ some t → get k n.mapped_payload ≡ none
  unfolding map_entries
  key_gone k t [] m d apart unlisted match gone unnamed h = gone
  key_gone k t ((key, value) ∷ payload) m d apart unlisted match gone unnamed h =
      elim (Bool-cases (k == key)) [
        | inl e ↦
            let same : key ≡ k = ground (arith, eq_iff k key) in
            let absent : has_key k payload ≡ false =
              subst (λ j. has_key j payload ≡ false) same d.0 in
            let n = map_entry text expected threshold k value m in
            let rest = others_kept k payload n absent unlisted in
            let reported = rw same at h in
            rw same
              (rest.0 ∙ renamed_away k t value m apart match gone unnamed (sym rest.1 ∙ reported))
        | inr e ↦
            let far : k ≢ key = λ g. absurd (ground (arith, g, eq_iff k key)) in
            let step = other_kept k key value m far unlisted in
            key_gone k t payload (map_entry text expected threshold key value m) d.1 apart unlisted
              match (step.0 ∙ gone) (step.1 ∙ unnamed) h
      ]

  -- In a payload without repeated keys that holds a field, where the renaming of a key to this field
  -- is reported: the field keeps its own value, and the key is gone. So the value of the key is
  -- lost, although its renaming is reported.
  pub map_payload_keys_overwrites :
      (payload : Payload) (k t : String) (w : Value)
      → IsDict payload
      → get t payload ≡ some w
      → get k (map_payload_keys text payload expected threshold).1 ≡ some t
      → (get t (map_payload_keys text payload expected threshold).0 ≡ some w)
        × (get k (map_payload_keys text payload expected threshold).0 ≡ none)
  unfolding map_payload_keys get
  map_payload_keys_overwrites payload k t w d there renamed =
      let (match, apart, _) =
        map_payload_keys_renames text expected threshold payload k t renamed in
      let listed = (best_key_match_sound text k expected threshold t match).0 in
      let unlisted : contains k expected ≡ false = elim (Bool-cases (contains k expected)) [
        | inr e ↦ e
        | inl e ↦ absurd (
            let own = match_expected text expected threshold k e in
            let same = sym own ∙ match in apart (ground arith))
      ] in
      (
        expected_kept t w payload no_mapping d listed there,
        key_gone k t payload no_mapping d apart unlisted match refl refl renamed,
      )
