-- ===== src/Prelude/Table/Unique.antt =====
-- The same, asked only of the rows that are there, for a key that no two rows share, and for the
-- order of the rows.
use Prim.Native.Nat.{ℕ, ◌≤◌}
use mathlib.Core.Path.{◌≡◌, refl}
use mathlib.Core.Bool.{Bool, true, false, ◌||◌}
use mathlib.Core.List.{List, [], ◌∷◌, ◌++◌}
use mathlib.Core.Option.{none, some}
use native.Mathlib.Omega.{arith}
use mathlib.Core.Logic.{inl, inr}
use healpipe.Prelude.Tests.{Bool-cases}
use healpipe.Prelude.Lists.{All}
use healpipe.Prelude.Table.Query.{select, count_where, update_where, find, any, insert_by, order_by}
use healpipe.Prelude.Table.Rows.{find-count_where}

module _ {ℓ} {A : Type ℓ} where
  -- As above, asked only of the rows that are there.
  pub count_where-update_where_same_on :
      (q p : A → Bool) (f : A → A) (xs : List A)
      → All (λ x. p x ≡ true → q (f x) ≡ q x) xs
      → count_where q (update_where p f xs) ≡ count_where q xs
  unfolding count_where update_where
  count_where-update_where_same_on q p f [] h = refl
  count_where-update_where_same_on q p f (x ∷ xs) h =
      ground (arith, count_where-update_where_same_on q p f xs h.1)

  pub count_where-update_where_clear_on :
      (q p : A → Bool) (f : A → A) (xs : List A)
      → All (λ x. p x ≡ true → q (f x) ≡ false) xs
      → count_where q (update_where p f xs) ≤ count_where q xs
  unfolding count_where update_where
  count_where-update_where_clear_on q p f [] h = omega arith
  count_where-update_where_clear_on q p f (x ∷ xs) h =
      ground (arith, count_where-update_where_clear_on q p f xs h.1)

  -- Conditions that agree on every row update the same rows.
  pub update_where-ext :
      (p q : A → Bool) (f : A → A) (xs : List A)
      → All (λ x. (p x ≡ true → q x ≡ true) × (q x ≡ true → p x ≡ true)) xs
      → update_where p f xs ≡ update_where q f xs
  unfolding update_where
  update_where-ext p q f [] h = refl
  update_where-ext p q f (x ∷ xs) h =
      let ih : update_where p f xs ≡ update_where q f xs = update_where-ext p q f xs h.1 in
      ground (arith, ih, h.0.0, h.0.1)

  -- A row that one condition finds is found by any other that only this row satisfies.
  pub find-find_unique :
      (q p : A → Bool) (xs : List A) {a : A}
      → find q xs ≡ some a
      → p a ≡ true
      → count_where p xs ≤ 1
      → find p xs ≡ some a
  unfolding find count_where
  find-find_unique q p [] h k c = cc
  find-find_unique q p (x ∷ xs) {a} h k c = elim (Bool-cases (q x)) [
    | inl e ↦ ground (arith, e)
    | inr e ↦
        let found : find q xs ≡ some a = ground (arith, e) in
        let more : 1 ≤ count_where p xs = find-count_where q p xs {a = a} found k in
        let ih : find p xs ≡ some a =
          find-find_unique q p xs {a = a} found k (ground (arith, more)) in
        ground (arith, more, ih)
  ]

  pub select-none : (p : A → Bool) (xs : List A) → count_where p xs ≡ 0 → select p xs ≡ []
  unfolding select count_where
  select-none p [] h = refl
  select-none p (x ∷ xs) h = ground (arith, select-none p xs)

  pub select-append :
      (p : A → Bool) (xs ys : List A) → select p (xs ++ ys) ≡ select p xs ++ select p ys
  unfolding select
  select-append p [] ys = refl
  select-append p (x ∷ xs) ys = ground (arith, select-append p xs ys)

  -- A condition that holds once at most selects what it finds.
  pub select-one :
      (p : A → Bool) (xs : List A)
      → count_where p xs ≤ 1
      → select p xs ≡ elim (find p xs) [ none ↦ [] | some x ↦ x ∷ [] ]
  unfolding select find count_where
  select-one p [] h = refl
  select-one p (x ∷ xs) h = ground (arith, select-none p xs, select-one p xs)

  pub count_where-zero_of_find :
      (p : A → Bool) (xs : List A) → find p xs ≡ none → count_where p xs ≡ 0
  unfolding find count_where
  count_where-zero_of_find p [] h = refl
  count_where-zero_of_find p (x ∷ xs) h = ground (arith, count_where-zero_of_find p xs)

  -- The row that an update makes satisfy a condition that held nowhere is then found by it.
  pub find-update_where_new :
      (q p : A → Bool) (f : A → A) (xs : List A) {a : A}
      → count_where q xs ≡ 0
      → find p xs ≡ some a
      → q (f a) ≡ true
      → find q (update_where p f xs) ≡ some (f a)
  unfolding find update_where count_where
  find-update_where_new q p f [] z h k = cc
  find-update_where_new q p f (x ∷ xs) {a} z h k = elim (Bool-cases (p x)) [
    | inl e ↦ let same : x ≡ a = ground (arith, e) in rw (e, same, k)
    | inr e ↦
        let found : find p xs ≡ some a = ground (arith, e) in
        ground (arith, e, find-update_where_new q p f xs {a = a} (ground arith) found k)
  ]

  -- An update outside a condition, before and after, leaves what the condition finds.
  pub find-update_where_apart :
      (q p : A → Bool) (f : A → A) (xs : List A)
      → All (λ x. p x ≡ true → (q (f x) ≡ false) × (q x ≡ false)) xs
      → find q (update_where p f xs) ≡ find q xs
  unfolding find update_where
  find-update_where_apart q p f [] h = refl
  find-update_where_apart q p f (x ∷ xs) h =
      ground (arith, h.0, find-update_where_apart q p f xs h.1)

  pub All-everywhere {κ} : (P : A → Type κ) (xs : List A) → ((x : A) → P x) → All P xs
  All-everywhere P [] h = tt
  All-everywhere P (x ∷ xs) h = (h x, All-everywhere P xs h)

  pub select-append_unmatched :
      (p : A → Bool) (xs : List A) (x : A) → p x ≡ false → select p (xs ++ x ∷ []) ≡ select p xs
  unfolding select
  select-append_unmatched p [] x h = rw h
  select-append_unmatched p (y ∷ ys) x h = ground (arith, select-append_unmatched p ys x h)

  pub find-append_unmatched :
      (p : A → Bool) (xs : List A) (x : A) → p x ≡ false → find p (xs ++ x ∷ []) ≡ find p xs
  unfolding find
  find-append_unmatched p [] x h = rw h
  find-append_unmatched p (y ∷ ys) x h = ground (arith, find-append_unmatched p ys x h)

  pub any-append_new :
      (p : A → Bool) (xs : List A) (a : A) → p a ≡ true → any p (xs ++ a ∷ []) ≡ true
  unfolding any
  any-append_new p [] a h = ground arith
  any-append_new p (x ∷ xs) a h = ground (arith, any-append_new p xs a)

  pub find-append_found :
      (p : A → Bool) (xs ys : List A) {a : A} → find p xs ≡ some a → find p (xs ++ ys) ≡ some a
  unfolding find
  find-append_found p [] ys h = cc
  find-append_found p (x ∷ xs) ys {a} h = ground (arith, find-append_found p xs ys {a = a})

  pub find-append_new :
      (p : A → Bool) (xs : List A) (a : A)
      → find p xs ≡ none
      → p a ≡ true
      → find p (xs ++ a ∷ []) ≡ some a
  unfolding find
  find-append_new p [] a h k = rw k
  find-append_new p (x ∷ xs) a h k = ground (arith, find-append_new p xs a)

  any-insert_by :
      (p : A → Bool) (key : A → ℕ) (a : A) (xs : List A)
      → any p (insert_by key a xs) ≡ (p a || any p xs)
  unfolding any insert_by
  any-insert_by p key a [] = refl
  any-insert_by p key a (x ∷ xs) = ground (arith, any-insert_by p key a xs)

  pub any-order_by : (p : A → Bool) (key : A → ℕ) (xs : List A) → any p (order_by key xs) ≡ any p xs
  unfolding any order_by
  any-order_by p key [] = refl
  any-order_by p key (x ∷ xs) =
      ground (arith, any-insert_by p key x (order_by key xs), any-order_by p key xs)

  pub All-append_one {κ} :
      (P : A → Type κ) (xs : List A) (a : A) → All P xs → P a → All P (xs ++ a ∷ [])
  All-append_one P [] a h k = (k, tt)
  All-append_one P (x ∷ xs) a h k = (h.0, All-append_one P xs a h.1 k)

  pub All-find {κ} :
      (P : A → Type κ) (p : A → Bool) (xs : List A) {a : A} → All P xs → find p xs ≡ some a → P a
  unfolding find
  All-find P p [] h e = absurd (ground arith)
  All-find P p (x ∷ xs) {a} h e = elim (Bool-cases (p x)) [
    | inl t ↦ let same : x ≡ a = ground (arith, t) in rw same at h.0
    | inr f ↦ All-find P p xs {a = a} h.1 (ground (arith, f))
  ]

  pub count_where_mono :
      (p q : A → Bool) (xs : List A)
      → ((x : A) → p x ≡ true → q x ≡ true)
      → count_where p xs ≤ count_where q xs
  unfolding count_where
  count_where_mono p q [] h = omega arith
  count_where_mono p q (x ∷ xs) h = ground (arith, h x, count_where_mono p q xs h)
