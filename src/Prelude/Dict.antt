-- ===== src/Prelude/Dict.antt =====
-- Python's `dict` with text keys: an association list in the order of insertion.
use Prim.Native.String.{String}
use mathlib.Core.Path.{◌≡◌, refl}
use mathlib.Core.Bool.{Bool, false, ◌||◌}
use mathlib.Core.List.{List, [], ◌∷◌, ◌++◌}
use mathlib.Core.Option.{Option, none, some}
use native.Mathlib.Omega.{arith}
use text.Mathlib.TextEquality.{eq_iff}
use healpipe.Prelude.Tests.{if◌then◌else◌}
use healpipe.Prelude.Equality.{string_eq, ◌==◌}
use healpipe.Prelude.Lists.{contains}

abbrev pub Dict {ℓ} : Type ℓ → Type ℓ
Dict V = List (String × V)

module _ {ℓ} {V : Type ℓ} where
  -- d.get(k)
  unfoldable pub get : String → Dict V → Option V
  get k [] = none
  get k ((j, v) ∷ d) = if k == j then some v else get k d

  -- d[k] = v: a new key goes to the end.
  unfoldable pub put : String → V → Dict V → Dict V
  put k v [] = (k, v) ∷ []
  put k v ((j, w) ∷ d) = if k == j then (j, v) ∷ d else (j, w) ∷ put k v d

  -- del d[k]
  unfoldable pub remove : String → Dict V → Dict V
  remove k [] = []
  remove k ((j, w) ∷ d) = let rest = remove k d in if k == j then d else (j, w) ∷ rest

  abbrev pub keys : Dict V → List String
  keys [] = []
  keys ((k, v) ∷ d) = k ∷ keys d

  abbrev pub values : Dict V → List V
  values [] = []
  values ((k, v) ∷ d) = v ∷ values d

  -- k in d
  abbrev pub has_key : String → Dict V → Bool
  has_key k d = contains k (keys d)

  -- d.update(e), {**d, **e}
  unfoldable pub update : Dict V → Dict V → Dict V
  update d [] = d
  update d ((k, v) ∷ e) = update (put k v d) e

  -- No key occurs twice: what Python's dict guarantees of itself.
  abbrev pub IsDict : Dict V → Type 0
  IsDict [] = Unit
  IsDict ((k, v) ∷ d) = (has_key k d ≡ false) × IsDict d

  pub get-put :
      (k j : String) (v : V) (d : Dict V) → get j (put k v d) ≡ (if j == k then some v else get j d)
  unfolding get put
  get-put k j v [] = refl
  get-put k j v ((i, w) ∷ d) = ground (arith, eq_iff k i, eq_iff j i, eq_iff j k, get-put k j v d)

  pub has_key-put :
      (k j : String) (v : V) (d : Dict V) → has_key j (put k v d) ≡ (j == k || has_key j d)
  unfolding put
  has_key-put k j v [] = ground arith
  has_key-put k j v ((i, w) ∷ d) =
      ground (arith, eq_iff k i, eq_iff j i, eq_iff j k, has_key-put k j v d)

  pub put-IsDict : (k : String) (v : V) (d : Dict V) → IsDict d → IsDict (put k v d)
  unfolding put
  put-IsDict k v [] h = (refl, tt)
  put-IsDict k v ((i, w) ∷ d) h =
      ground (arith, eq_iff k i, eq_iff i k, has_key-put k i v d, put-IsDict k v d)

  pub put_new :
      (k : String) (v : V) (d : Dict V) → has_key k d ≡ false → put k v d ≡ d ++ (k, v) ∷ []
  unfolding put
  put_new k v [] h = refl
  put_new k v ((i, w) ∷ d) h = ground (arith, put_new k v d)

  pub get-none_iff : (k : String) (d : Dict V) → has_key k d ≡ false → get k d ≡ none
  unfolding get
  get-none_iff k [] h = refl
  get-none_iff k ((i, w) ∷ d) h = ground (arith, get-none_iff k d)

  pub has_key-remove :
      (k j : String) (d : Dict V) → has_key j d ≡ false → has_key j (remove k d) ≡ false
  unfolding remove
  has_key-remove k j [] h = refl
  has_key-remove k j ((i, w) ∷ d) h = ground (arith, has_key-remove k j d)

  pub remove-IsDict : (k : String) (d : Dict V) → IsDict d → IsDict (remove k d)
  unfolding remove
  remove-IsDict k [] h = tt
  remove-IsDict k ((i, w) ∷ d) h = ground (arith, has_key-remove k i d, remove-IsDict k d)

  pub get-remove :
      (k j : String) (d : Dict V)
      → IsDict d
      → get j (remove k d) ≡ (if j == k then none else get j d)
  unfolding get remove
  get-remove k j [] h = ground arith
  get-remove k j ((i, w) ∷ d) h =
      ground (arith, eq_iff k i, eq_iff j i, eq_iff j k, get-none_iff j d, get-remove k j d)
