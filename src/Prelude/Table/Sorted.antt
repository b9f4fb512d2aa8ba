-- ===== src/Prelude/Table/Sorted.antt =====
-- ORDER BY after a condition is the condition after ORDER BY.
use Prim.Native.Nat.{ℕ, ◌≤◌}
use mathlib.Core.Path.{◌≡◌, refl}
use mathlib.Core.Bool.{Bool, true, false}
use mathlib.Core.List.{List, [], ◌∷◌}
use mathlib.Core.Logic.{inl, inr}
use native.Mathlib.Omega.{arith}
use healpipe.Prelude.Tests.{leb, Bool-cases}
use healpipe.Prelude.Lists.{All}
use healpipe.Prelude.Table.Query.{select, insert_by, order_by}

module _ {A : Type 0} (key : A → ℕ) where
  abbrev IsSorted : List A → Type 0
  IsSorted [] = Unit
  IsSorted (x ∷ xs) = All (λ y. key x ≤ key y) xs × IsSorted xs

  AtLeast-lower :
      (m n : ℕ) (xs : List A) → m ≤ n → All (λ y. n ≤ key y) xs → All (λ y. m ≤ key y) xs
  AtLeast-lower m n [] h t = tt
  AtLeast-lower m n (x ∷ xs) h (l, t) = (omega arith, AtLeast-lower m n xs h t)

  All-insert_by :
      (P : A → Type 0) (a : A) (xs : List A) → P a → All P xs → All P (insert_by key a xs)
  unfolding insert_by
  All-insert_by P a [] h t = (h, tt)
  All-insert_by P a (x ∷ xs) h (l, t) = elim (Bool-cases (leb (key a) (key x))) [
    | inl e ↦ rw e (h, (l, t))
    | inr e ↦ rw e (l, All-insert_by P a xs h t)
  ]

  pub All-order_by : (P : A → Type 0) (xs : List A) → All P xs → All P (order_by key xs)
  unfolding order_by
  All-order_by P [] t = tt
  All-order_by P (x ∷ xs) (h, t) = All-insert_by P x (order_by key xs) h (All-order_by P xs t)

  insert_by-IsSorted : (a : A) (xs : List A) → IsSorted xs → IsSorted (insert_by key a xs)
  unfolding insert_by
  insert_by-IsSorted a [] s = (tt, tt)
  insert_by-IsSorted a (x ∷ xs) (l, s) = elim (Bool-cases (leb (key a) (key x))) [
    | inl e ↦ rw e ((ground arith, AtLeast-lower (key a) (key x) xs (ground arith) l), (l, s))
    | inr e ↦
        rw e (All-insert_by (λ y. key x ≤ key y) a xs (ground arith) l, insert_by-IsSorted a xs s)
  ]

  order_by-IsSorted : (xs : List A) → IsSorted (order_by key xs)
  unfolding order_by
  order_by-IsSorted [] = tt
  order_by-IsSorted (x ∷ xs) = insert_by-IsSorted x (order_by key xs) (order_by-IsSorted xs)

  insert_by-least :
      (a : A) (p : A → Bool) (xs : List A)
      → All (λ y. key a ≤ key y) xs
      → insert_by key a (select p xs) ≡ a ∷ select p xs
  unfolding insert_by select
  insert_by-least a p [] t = refl
  insert_by-least a p (x ∷ xs) (l, t) = ground (arith, insert_by-least a p xs t)

  select-insert_by :
      (p : A → Bool) (a : A) (xs : List A)
      → IsSorted xs
      → select p (insert_by key a xs)
        ≡ elim (p a) [ true ↦ insert_by key a (select p xs) | false ↦ select p xs ]
  unfolding select insert_by
  select-insert_by p a [] s = ground arith
  select-insert_by p a (x ∷ xs) (l, s) = elim (Bool-cases (leb (key a) (key x))) [
    | inr e ↦ rw e (ground (arith, select-insert_by p a xs s))
    | inl e ↦
        let least = AtLeast-lower (key a) (key x) xs (ground arith) l in
        ground (arith, insert_by-least a p xs least)
  ]

  pub select-order_by :
      (p : A → Bool) (xs : List A) → select p (order_by key xs) ≡ order_by key (select p xs)
  unfolding select order_by
  select-order_by p [] = refl
  select-order_by p (x ∷ xs) =
      let here = select-insert_by p x (order_by key xs) (order_by-IsSorted xs) in
      let rest = select-order_by p xs in ground (arith, here, rest)

module _ {A : Type 0} where
  -- A condition that implies an earlier one.
  pub select-select :
      (p q : A → Bool) (xs : List A)
      → ((x : A) → p x ≡ true → q x ≡ true)
      → select p (select q xs) ≡ select p xs
  unfolding select
  select-select p q [] h = refl
  select-select p q (x ∷ xs) h = ground (arith, h x, select-select p q xs h)

  pub All-select : (p : A → Bool) (xs : List A) → All (λ x. p x ≡ true) (select p xs)
  unfolding select
  All-select p [] = tt
  All-select p (x ∷ xs) = elim (Bool-cases (p x)) [
    | inl e ↦ rw e (e, All-select p xs)
    | inr e ↦ rw e (All-select p xs)
  ]
