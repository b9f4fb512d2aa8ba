-- ===== src/Intake/Normalizer/Idempotent.antt =====
-- Normalizing a second time changes nothing, and keys are left alone.
use healpipe.Prelude.{
  String, ◌∷◌, ◌==◌, nat_eq, string_eq, contains, ◌≡◌, refl, ap, ◌∙◌, ◌⊎◌, inl, inr, Bool-cases,
  Option-cases,
}
use healpipe.Prelude.Dict.{keys}
use healpipe.Database.Schema.Json.{Value, Items, Fields, Payload, fields, payload, payload-fields}
use healpipe.Python.{Text}
use healpipe.Intake.Normalizer.{
  null_strings, has_dot, parse_number, normalize_text, normalize_value, normalize_items,
  normalize_fields, normalize_payload,
}

module _ (text : Text) where
  -- What a text becomes is settled, or is the stripped text.
  parse_number-again :
      (t : String)
      → (parse_number text t ≡ Value.str t)
        ⊎ (normalize_value text (parse_number text t) ≡ parse_number text t)
  unfolding parse_number normalize_value
  parse_number-again t = elim (Bool-cases (has_dot t)) [
    | inl e ↦ rw e (elim (Option-cases (text.parse_float t)) [
      | inl none_e ↦ inl (rw (none_e, parse_number) refl)
      | inr (x, some_e) ↦ inr (rw some_e refl)
    ])
    | inr e ↦ rw e (elim (Option-cases (text.parse_int t)) [
      | inl none_e ↦ inl (rw none_e refl)
      | inr (x, some_e) ↦ inr (rw some_e refl)
    ])
  ]

  normalize_text-cases :
      (s : String)
      → (normalize_text text s ≡ Value.str (text.strip s))
        ⊎ (normalize_value text (normalize_text text s) ≡ normalize_text text s)
  unfolding normalize_text normalize_value
  normalize_text-cases s =
      let low = text.lower (text.strip s) in
      elim (Bool-cases (contains low null_strings)) [
        | inl e ↦ inr (rw e refl)
        | inr e ↦ rw e (elim (Bool-cases (low == "true")) [
          | inl t ↦ inr (rw t refl)
          | inr t ↦ rw t (elim (Bool-cases (low == "false")) [
            | inl f ↦ inr (rw f refl)
            | inr f ↦ rw f (parse_number-again (text.strip s))
          ])
        ])
      ]

  normalize_text-strip : (s : String) → normalize_text text (text.strip s) ≡ normalize_text text s
  unfolding normalize_text
  normalize_text-strip s = rw (text.strip_strip s) refl

  normalize_text-again :
      (s : String) → normalize_value text (normalize_text text s) ≡ normalize_text text s
  unfolding normalize_value
  normalize_text-again s = elim (normalize_text-cases s) [
    | inl kept ↦ rw kept (normalize_text-strip s ∙ kept)
    | inr settled ↦ settled
  ]

  -- Normalizing a value, an array or an object a second time changes nothing, as far as stripping a
  -- text a second time does not.
  mutual
    unfolding normalize_value

    pub normalize_value-again :
        (v : Value) → normalize_value text (normalize_value text v) ≡ normalize_value text v
    normalize_value-again (Value.obj fs) = ap Value.obj (normalize_fields-again fs)
    normalize_value-again (Value.arr vs) = ap Value.arr (normalize_items-again vs)
    normalize_value-again (Value.str s) = normalize_text-again s
    normalize_value-again Value.null = refl
    normalize_value-again (Value.boolean b) = refl
    normalize_value-again (Value.int n) = refl
    normalize_value-again (Value.float x) = refl

    normalize_items-again :
        (vs : Items) → normalize_items text (normalize_items text vs) ≡ normalize_items text vs
    normalize_items-again Items.nil = refl
    normalize_items-again (Items.cons v vs) = cc (normalize_value-again v, normalize_items-again vs)

    normalize_fields-again :
        (fs : Fields) → normalize_fields text (normalize_fields text fs) ≡ normalize_fields text fs
    normalize_fields-again Fields.end = refl
    normalize_fields-again (Fields.field k v fs) =
        cc (normalize_value-again v, normalize_fields-again fs)

  keys-normalize_fields :
      (fs : Fields) → keys (payload (normalize_fields text fs)) ≡ keys (payload fs)
  unfolding normalize_fields
  keys-normalize_fields Fields.end = refl
  keys-normalize_fields (Fields.field k v fs) = ap (λ r. k ∷ r) (keys-normalize_fields fs)

  fields-payload : (fs : Fields) → fields (payload fs) ≡ fs
  fields-payload Fields.end = refl
  fields-payload (Fields.field k v fs) = ap (Fields.field k v) (fields-payload fs)

  -- Normalizing a payload keeps its keys, in their order, and doing it twice is doing it once.
  pub normalize_payload-again :
      (p : Payload)
      → (keys (normalize_payload text p) ≡ keys p)
        × (normalize_payload text (normalize_payload text p) ≡ normalize_payload text p)
  unfolding normalize_payload
  normalize_payload-again p = (
    keys-normalize_fields (fields p) ∙ ap keys (payload-fields p),
    rw (fields-payload (normalize_fields text (fields p)))
        (ap payload (normalize_fields-again (fields p))),
  )
