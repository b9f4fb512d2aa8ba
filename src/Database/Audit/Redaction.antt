-- ===== src/Database/Audit/Redaction.antt =====
-- database/repository.py: `redact_export_value`, and what of a value an export shows.
use healpipe.Prelude.{
  ℕ, zero, suc, String, Bool, true, false, ◌&&◌, ◌||◌, Option, none, some, List, [], ◌∷◌, ◌++◌,
  ◌==◌, nat_eq, string_eq, if◌then◌else◌, ◌≡◌, refl, ap, ◌∙◌, arith, inl, inr, Bool-cases, eq_iff,
  All, subst,
}
use healpipe.Prelude.Table.{any}
use healpipe.Database.Schema.Json.{Value, Items, Fields}
use healpipe.Python.{Text, codes}

-- _EXPORT_SENSITIVE_KEYS
abbrev pub export_sensitive_keys : List String
export_sensitive_keys =
    "password" ∷ "secret" ∷ "token" ∷ "api_key" ∷ "authorization" ∷ "signature" ∷ "credential" ∷ []

abbrev pub begins : List ℕ → List ℕ → Bool
begins [] text = true
begins (x ∷ part) [] = false
begins (x ∷ part) (y ∷ text) = x == y && begins part text

-- `part in text`
abbrev pub is_part : List ℕ → List ℕ → Bool
is_part part [] = begins part []
is_part part (y ∷ text) = begins part (y ∷ text) || is_part part text

unfoldable pub is_sensitive : Text → String → Bool
is_sensitive text key =
    any (λ part. is_part (codes part) (codes (text.casefold key))) export_sensitive_keys

abbrev pub redacted : Value
redacted = Value.str "[REDACTED]"

unfoldable mutual
  pub redact_export_value : Text → Value → Value
  redact_export_value text (Value.obj fs) = Value.obj (redact_fields text fs)
  redact_export_value text (Value.arr vs) = Value.arr (redact_items text vs)
  redact_export_value text v = v

  pub redact_items : Text → Items → Items
  redact_items text Items.nil = Items.nil
  redact_items text (Items.cons v vs) =
      Items.cons (redact_export_value text v) (redact_items text vs)

  pub redact_fields : Text → Fields → Fields
  redact_fields text Fields.end = Fields.end
  redact_fields text (Fields.field k v fs) =
      let shown = redact_export_value text v in
      Fields.field k (if is_sensitive text k then redacted else shown) (redact_fields text fs)

-- One step into a value: to the value of a key, or to an entry of a list.
pub data Step : Type 0 where
  key : String → Step
  index : ℕ → Step

abbrev pub field_at : String → Fields → Option Value
field_at k Fields.end = none
field_at k (Fields.field j v fs) = if k == j then some v else field_at k fs

abbrev pub item_at : ℕ → Items → Option Value
item_at i Items.nil = none
item_at zero (Items.cons v vs) = some v
item_at (suc i) (Items.cons v vs) = item_at i vs

abbrev pub step_at : Step → Value → Option Value
step_at (key k) (Value.obj fs) = field_at k fs
step_at (index i) (Value.arr vs) = item_at i vs
step_at _ _ = none

abbrev pub at : List Step → Value → Option Value
at [] v = some v
at (s ∷ path) v = elim (step_at s v) [ none ↦ none | some w ↦ at path w ]

abbrev pub map_option {ℓ κ} : {A : Type ℓ} {B : Type κ} → (A → B) → Option A → Option B
map_option f none = none
map_option f (some a) = some (f a)

ended :
    (f g : Value → Value) (found : Option Value)
    → ((w : Value) → f w ≡ g w)
    → elim (map_option f found) [ none ↦ none | some w ↦ some w ]
      ≡ map_option g (elim found [ none ↦ none | some w ↦ some w ])
ended f g none h = refl
ended f g (some w) h = ap some (h w)

module _ (text : Text) where
  -- The step is not to the value of a sensitive key.
  abbrev pub is_open : Step → Bool
  is_open (key k) = if is_sensitive text k then false else true
  is_open (index i) = true

  field_at-redact :
      (k : String) (fs : Fields)
      → field_at k (redact_fields text fs)
        ≡ map_option
            (λ v. if is_sensitive text k then redacted else redact_export_value text v)
            (field_at k fs)
  unfolding redact_fields
  field_at-redact k Fields.end = refl
  field_at-redact k (Fields.field j v fs) = elim (Bool-cases (k == j)) [
    | inl e ↦
        let same : k ≡ j = ground (arith, eq_iff k j) in
        subst
          (λ i.
            field_at k (
              Fields.field j (if is_sensitive text i then redacted else redact_export_value text v)
                (redact_fields text fs))
            ≡ map_option (λ v. if is_sensitive text k then redacted else redact_export_value text v)
                (field_at k (Fields.field j v fs)))
          same (rw e refl)
    | inr e ↦ rw e (field_at-redact k fs)
  ]

  item_at-redact :
      (i : ℕ) (vs : Items)
      → item_at i (redact_items text vs) ≡ map_option (redact_export_value text) (item_at i vs)
  unfolding redact_items
  item_at-redact i Items.nil = refl
  item_at-redact zero (Items.cons v vs) = refl
  item_at-redact (suc i) (Items.cons v vs) = item_at-redact i vs

  is_open-key : (k : String) → is_open (key k) ≡ true → is_sensitive text k ≡ false
  is_open-key k h = ground arith

  step_at-redact :
      (s : Step) (v : Value)
      → is_open s ≡ true
      → step_at s (redact_export_value text v) ≡ map_option (redact_export_value text) (step_at s v)
  unfolding redact_export_value
  step_at-redact (key k) (Value.obj fs) h = field_at-redact k fs ∙ rw (is_open-key k h) refl
  step_at-redact (index i) (Value.obj fs) h = refl
  step_at-redact (index i) (Value.arr vs) h = item_at-redact i vs
  step_at-redact (key k) (Value.arr vs) h = refl
  step_at-redact s (Value.str x) h = refl
  step_at-redact s v h = refl

  abbrev pub IsOpenPath : List Step → Type 0
  IsOpenPath path = All (λ s. is_open s ≡ true) path

  after :
      (f : Value → Value) (found : Option Value) (path : List Step)
      → ((w : Value) → at path (redact_export_value text w) ≡ map_option f (at path w))
      → elim (map_option (redact_export_value text) found) [ none ↦ none | some w ↦ at path w ]
        ≡ map_option f (elim found [ none ↦ none | some w ↦ at path w ])
  after f none path later = refl
  after f (some w) path later = later w

  through :
      (f : Value → Value) (s : Step) (path : List Step) (v : Value)
      → step_at s (redact_export_value text v) ≡ map_option (redact_export_value text) (step_at s v)
      → ((w : Value) → at path (redact_export_value text w) ≡ map_option f (at path w))
      → at (s ∷ path) (redact_export_value text v) ≡ map_option f (at (s ∷ path) v)
  through f s path v e later = rw (e, at) (after f (step_at s v) path later)

  at-redact :
      (path : List Step) (v : Value)
      → IsOpenPath path
      → at path (redact_export_value text v) ≡ map_option (redact_export_value text) (at path v)
  at-redact [] v h = refl
  at-redact (s ∷ path) v h =
      through (redact_export_value text) s path v (step_at-redact s v h.0)
        (λ w. at-redact path w h.1)

  last :
      (k : String) (v : Value)
      → is_sensitive text k ≡ true
      → at (key k ∷ []) (redact_export_value text v)
        ≡ map_option (λ w. redacted) (at (key k ∷ []) v)
  unfolding redact_export_value
  last k (Value.obj fs) h = rw (field_at-redact k fs) (
      ended (λ v. if is_sensitive text k then redacted else redact_export_value text v)
        (λ w. redacted) (field_at k fs) (λ w. rw h refl))
  last k (Value.arr vs) h = refl
  last k v h = refl

  at-redact_sensitive :
      (path : List Step) (k : String) (v : Value)
      → IsOpenPath path
      → is_sensitive text k ≡ true
      → at (path ++ key k ∷ []) (redact_export_value text v)
        ≡ map_option (λ w. redacted) (at (path ++ key k ∷ []) v)
  at-redact_sensitive [] k v h sensitive = last k v sensitive
  at-redact_sensitive (s ∷ path) k v h sensitive =
      through (λ w. redacted) s (path ++ key k ∷ []) v (step_at-redact s v h.0)
        (λ w. at-redact_sensitive path k w h.1 sensitive)

  -- An export changes nothing of a value but what stands under a sensitive key: along a path with
  -- no such key one finds the same as in the value, itself redacted, and one step further, at a
  -- sensitive key that is there, the text "[REDACTED]"; and where the value has nothing, neither
  -- has the export.
  pub redacts_exactly :
      (path : List Step) (v : Value)
      → IsOpenPath path
      → (at path (redact_export_value text v) ≡ map_option (redact_export_value text) (at path v))
        × ((k : String)
            → is_sensitive text k ≡ true
            → at (path ++ key k ∷ []) (redact_export_value text v)
              ≡ map_option (λ w. redacted) (at (path ++ key k ∷ []) v))
  redacts_exactly path v h =
      (at-redact path v h, λ k sensitive. at-redact_sensitive path k v h sensitive)
