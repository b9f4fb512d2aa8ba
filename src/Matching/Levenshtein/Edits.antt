-- ===== src/Matching/Levenshtein/Edits.antt =====
-- What the distance is held to: the edits that turn one text into another, and how many they are.
use mathlib.Core.List.{reverse, reverse-cons, append-nil}
use healpipe.Prelude.{
  ℕ, suc, ◌+◌, ◌≤◌, min, List, [], ◌∷◌, ◌++◌, ◌≡◌, refl, subst, ◌==◌, nat_eq, length, arith, inl,
  inr, Bool-cases, leb,
}
use healpipe.Matching.Levenshtein.{cost}

-- `Edits l r k`: `k` insertions, deletions and substitutions of single characters turn `l` into `r`.
pub data Edits : List ℕ → List ℕ → ℕ → Type 0 where
  nothing : Edits [] [] 0
  keep : (x : ℕ) {l r : List ℕ} {k : ℕ} → Edits l r k → Edits (x ∷ l) (x ∷ r) k
  substitute : (x y : ℕ) {l r : List ℕ} {k : ℕ} → Edits l r k → Edits (x ∷ l) (y ∷ r) (suc k)
  delete : (x : ℕ) {l r : List ℕ} {k : ℕ} → Edits l r k → Edits (x ∷ l) r (suc k)
  insert : (y : ℕ) {l r : List ℕ} {k : ℕ} → Edits l r k → Edits l (y ∷ r) (suc k)

-- The recursive distance, from the first characters on.
unfoldable pub edit_count : List ℕ → List ℕ → ℕ
edit_count [] r = length r
edit_count (x ∷ l) [] = suc (length l)
edit_count (x ∷ l) (y ∷ r) =
    min (min (edit_count (x ∷ l) r + 1) (edit_count l (y ∷ r) + 1)) (edit_count l r + cost x y)

edit_count-nil : (l : List ℕ) → edit_count l [] ≡ length l
unfolding edit_count
edit_count-nil [] = refl
edit_count-nil (x ∷ l) = refl

-- No edits are fewer.
pub edit_count-le : {l r : List ℕ} {k : ℕ} → Edits l r k → edit_count l r ≤ k
unfolding edit_count
edit_count-le nothing = omega arith
edit_count-le (keep x e) = ground (arith, edit_count-le e)
edit_count-le (substitute x y e) = ground (arith, edit_count-le e)
edit_count-le (delete x {l} {r = []} e) = omega (arith, edit_count-le e, edit_count-nil l)
edit_count-le (delete x {r = y ∷ r} e) = omega (arith, edit_count-le e)
edit_count-le (insert y {l = []} e) = omega (arith, edit_count-le e)
edit_count-le (insert y {l = x ∷ l} e) = omega (arith, edit_count-le e)

delete_all : (l : List ℕ) → Edits l [] (length l)
delete_all [] = nothing
delete_all (x ∷ l) = delete x (delete_all l)

insert_all : (r : List ℕ) → Edits [] r (length r)
insert_all [] = nothing
insert_all (y ∷ r) = insert y (insert_all r)

fewest : {l r : List ℕ} (a b : ℕ) → Edits l r a → Edits l r b → Edits l r (min a b)
fewest {l} {r} a b e f = elim (Bool-cases (leb a b)) [
  | inl h ↦ subst (Edits l r) (ground arith) e
  | inr h ↦ subst (Edits l r) (ground arith) f
]

-- So many edits do.
pub edit_count-Edits : (l r : List ℕ) → Edits l r (edit_count l r)
unfolding edit_count
edit_count-Edits [] r = insert_all r
edit_count-Edits (x ∷ l) [] = delete_all (x ∷ l)
edit_count-Edits (x ∷ l) (y ∷ r) =
    fewest _ _
      (fewest _ _
        (subst (Edits (x ∷ l) (y ∷ r)) (omega arith) (insert y (edit_count-Edits (x ∷ l) r)))
        (subst (Edits (x ∷ l) (y ∷ r)) (omega arith) (delete x (edit_count-Edits l (y ∷ r)))))
      (elim (Bool-cases (x == y)) [
        | inl h ↦
            let same : x ≡ y = ground arith in
            subst (λ z. Edits (x ∷ l) (z ∷ r) (edit_count l r + cost x z)) same
              (subst (Edits (x ∷ l) (x ∷ r)) (ground arith) (keep x (edit_count-Edits l r)))
        | inr h ↦
            subst (Edits (x ∷ l) (y ∷ r)) (ground arith) (substitute x y (edit_count-Edits l r))
      ])

Edits-append :
    {l r l' r' : List ℕ} {k k' : ℕ}
    → Edits l r k
    → Edits l' r' k'
    → Edits (l ++ l') (r ++ r') (k + k')
Edits-append nothing f = subst (Edits _ _) (omega arith) f
Edits-append (keep x e) f = keep x (Edits-append e f)
Edits-append (substitute x y e) f =
    subst (Edits _ _) (omega arith) (substitute x y (Edits-append e f))
Edits-append (delete x e) f = subst (Edits _ _) (omega arith) (delete x (Edits-append e f))
Edits-append (insert y e) f = subst (Edits _ _) (omega arith) (insert y (Edits-append e f))

-- Edits read from the other end.
pub Edits-reverse : {l r : List ℕ} {k : ℕ} → Edits l r k → Edits (reverse l) (reverse r) k
Edits-reverse nothing = nothing
Edits-reverse (keep x {l} {r} {k} e) =
    rw (reverse-cons x l, reverse-cons x r)
      (subst (Edits _ _) (omega arith) (Edits-append (Edits-reverse e) (keep x nothing)))
Edits-reverse (substitute x y {l} {r} {k} e) =
    rw (reverse-cons x l, reverse-cons y r)
      (subst (Edits _ _) (omega arith) (Edits-append (Edits-reverse e) (substitute x y nothing)))
Edits-reverse (delete x {l} {r} {k} e) = rw (reverse-cons x l) (
    subst (λ s. Edits (reverse l ++ x ∷ []) s (suc k)) (append-nil (reverse r))
      (subst (Edits _ _) (omega arith) (Edits-append (Edits-reverse e) (delete x nothing))))
Edits-reverse (insert y {l} {r} {k} e) = rw (reverse-cons y r) (
    subst (λ s. Edits s (reverse r ++ y ∷ []) (suc k)) (append-nil (reverse l))
      (subst (Edits _ _) (omega arith) (Edits-append (Edits-reverse e) (insert y nothing))))
