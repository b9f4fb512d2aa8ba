-- ===== src/Prelude/Table/Rows.antt =====
-- What counting, finding and updating rows have to do with each other.
use Prim.Native.Nat.{suc, ◌+◌, ◌≤◌}
use mathlib.Core.Path.{◌≡◌, refl, ap}
use mathlib.Core.Bool.{Bool, true, false}
use mathlib.Core.List.{List, [], ◌∷◌, ◌++◌}
use mathlib.Core.Option.{none, some}
use native.Mathlib.Omega.{arith}
use mathlib.Core.Logic.{inl, inr}
use healpipe.Prelude.Tests.{if◌then◌else◌, Bool-cases}
use healpipe.Prelude.Lists.{length, All}
use healpipe.Prelude.Table.Query.{select, count_where, update_where, find, any}

module _ {ℓ} {A : Type ℓ} where
  pub count_where-append :
      (p : A → Bool) (xs ys : List A)
      → count_where p (xs ++ ys) ≡ count_where p xs + count_where p ys
  unfolding count_where
  count_where-append p [] ys = omega arith
  count_where-append p (x ∷ xs) ys = ground (arith, count_where-append p xs ys)

  pub find_sound : (p : A → Bool) (xs : List A) {a : A} → find p xs ≡ some a → p a ≡ true
  unfolding find
  find_sound p [] h = cc
  find_sound p (x ∷ xs) {a} h = elim (Bool-cases (p x)) [
    | inl e ↦ ground (arith, e)
    | inr e ↦ find_sound p xs {a = a} (ground (arith, e))
  ]

  pub find-none : (p : A → Bool) (xs : List A) → count_where p xs ≡ 0 → find p xs ≡ none
  unfolding find count_where
  find-none p [] h = refl
  find-none p (x ∷ xs) h = ground (arith, find-none p xs)

  pub any-count_where : (p : A → Bool) (xs : List A) → any p xs ≡ false → count_where p xs ≡ 0
  unfolding any count_where
  any-count_where p [] h = refl
  any-count_where p (x ∷ xs) h = ground (arith, any-count_where p xs)

  pub any-select : (p : A → Bool) (xs : List A) → select p xs ≡ [] → any p xs ≡ false
  unfolding any select
  any-select p [] h = refl
  any-select p (x ∷ xs) h = ground (arith, any-select p xs)

  pub length-select : (p : A → Bool) (xs : List A) → length (select p xs) ≡ count_where p xs
  unfolding select count_where
  length-select p [] = refl
  length-select p (x ∷ xs) = ground (arith, length-select p xs)

  pub length-update_where :
      (p : A → Bool) (f : A → A) (xs : List A) → length (update_where p f xs) ≡ length xs
  unfolding update_where
  length-update_where p f [] = refl
  length-update_where p f (x ∷ xs) = ap suc (length-update_where p f xs)

  -- An update adds at most one row to a condition for each row that it touches.
  pub count_where-update_where-le :
      (q p : A → Bool) (f : A → A) (xs : List A)
      → count_where q (update_where p f xs) ≤ count_where q xs + count_where p xs
  unfolding count_where update_where
  count_where-update_where-le q p f [] = omega arith
  count_where-update_where-le q p f (x ∷ xs) = ground (arith, count_where-update_where-le q p f xs)

  -- An update that leaves a condition as it was on each row keeps its count.
  pub count_where-update_where_same :
      (q p : A → Bool) (f : A → A) (xs : List A)
      → ((x : A) → p x ≡ true → q (f x) ≡ q x)
      → count_where q (update_where p f xs) ≡ count_where q xs
  unfolding count_where update_where
  count_where-update_where_same q p f [] h = refl
  count_where-update_where_same q p f (x ∷ xs) h =
      ground (arith, h x, count_where-update_where_same q p f xs h)

  -- An update after which a condition fails on the rows touched does not add to its count.
  pub count_where-update_where_clear :
      (q p : A → Bool) (f : A → A) (xs : List A)
      → ((x : A) → p x ≡ true → q (f x) ≡ false)
      → count_where q (update_where p f xs) ≤ count_where q xs
  unfolding count_where update_where
  count_where-update_where_clear q p f [] h = omega arith
  count_where-update_where_clear q p f (x ∷ xs) h =
      ground (arith, h x, count_where-update_where_clear q p f xs h)

  -- Clearing every row of a condition leaves none.
  pub count_where-update_where_zero :
      (p : A → Bool) (f : A → A) (xs : List A)
      → ((x : A) → p x ≡ true → p (f x) ≡ false)
      → count_where p (update_where p f xs) ≡ 0
  unfolding count_where update_where
  count_where-update_where_zero p f [] h = refl
  count_where-update_where_zero p f (x ∷ xs) h =
      ground (arith, h x, count_where-update_where_zero p f xs h)

  pub update_where_unmatched :
      (p : A → Bool) (f : A → A) (xs : List A) → count_where p xs ≡ 0 → update_where p f xs ≡ xs
  unfolding count_where update_where
  update_where_unmatched p f [] h = refl
  update_where_unmatched p f (x ∷ xs) h = ground (arith, update_where_unmatched p f xs)

  pub find-update_where :
      (q p : A → Bool) (f : A → A) (xs : List A)
      → ((x : A) → p x ≡ true → q (f x) ≡ q x)
      → find q (update_where p f xs)
        ≡ elim (find q xs) [ none ↦ none | some x ↦ some (if p x then f x else x) ]
  unfolding find update_where
  find-update_where q p f [] h = refl
  find-update_where q p f (x ∷ xs) h = ground (arith, h x, find-update_where q p f xs h)

  -- A row that is found under a condition is one that the condition counts.
  pub find-count_where :
      (p q : A → Bool) (xs : List A) {a : A}
      → find p xs ≡ some a
      → q a ≡ true
      → 1 ≤ count_where q xs
  unfolding find count_where
  find-count_where p q [] h k = cc
  find-count_where p q (x ∷ xs) {a} h k = elim (Bool-cases (p x)) [
    | inl e ↦ ground (arith, e)
    | inr e ↦
        let ih : 1 ≤ count_where q xs = find-count_where p q xs {a = a} (ground (arith, e)) k in
        ground (arith, ih)
  ]

  pub All-none {κ} :
      (Q : A → Type κ) (p : A → Bool) (xs : List A)
      → count_where p xs ≡ 0
      → All (λ x. p x ≡ true → Q x) xs
  unfolding count_where
  All-none Q p [] h = tt
  All-none Q p (x ∷ xs) h = (λ e. absurd (ground (arith, e)), All-none Q p xs (ground arith))

  -- A row that one condition finds, and that another satisfies once at most, is the only such row.
  pub All-unique :
      (q p : A → Bool) (xs : List A) {a : A}
      → find q xs ≡ some a
      → p a ≡ true
      → count_where p xs ≤ 1
      → All (λ x. p x ≡ true → x ≡ a) xs
  unfolding find count_where
  All-unique q p [] h k c = tt
  All-unique q p (x ∷ xs) {a} h k c = elim (Bool-cases (q x)) [
    | inl e ↦
        let same : x ≡ a = ground (arith, e) in
        (λ _. same, All-none (λ y. y ≡ a) p xs (ground (arith, same)))
    | inr e ↦
        let found : find q xs ≡ some a = ground (arith, e) in
        let more : 1 ≤ count_where p xs = find-count_where q p xs {a = a} found k in
        (
          λ px. absurd (ground (arith, more, px)),
          All-unique q p xs {a = a} found k (ground (arith, more)),
        )
  ]

  pub All-map {κ λ'} :
      {P : A → Type κ} {Q : A → Type λ'} (xs : List A) → ((x : A) → P x → Q x) → All P xs → All Q xs
  All-map [] h a = tt
  All-map (x ∷ xs) h a = (h x a.0, All-map xs h a.1)

  pub All-update_where {κ} :
      (P : A → Type κ) (p : A → Bool) (f : A → A) (xs : List A)
      → ((x : A) → P x → P (f x))
      → All P xs
      → All P (update_where p f xs)
  unfolding update_where
  All-update_where P p f [] h a = tt
  All-update_where P p f (x ∷ xs) h a = elim (Bool-cases (p x)) [
    | inl e ↦ rw e (h x a.0, All-update_where P p f xs h a.1)
    | inr e ↦ rw e (a.0, All-update_where P p f xs h a.1)
  ]
