-- ===== src/Matching/Levenshtein/Optimal.antt =====
-- `levenshtein_distance` is the least number of single-character edits.
use mathlib.Core.List.{reverse, reverse-reverse}
use healpipe.Prelude.{ℕ, suc, ◌≤◌, max, List, [], ◌∷◌, ◌≡◌, refl, length, arith}
use healpipe.Matching.Levenshtein.{levenshtein_distance}
use healpipe.Matching.Levenshtein.Edits.{
  Edits, nothing, keep, substitute, delete, insert, edit_count-le, edit_count-Edits, Edits-reverse,
}
use healpipe.Matching.Levenshtein.Rows.{levenshtein_distance-eq-edit_count}

Edits-unreverse : (l r : List ℕ) {k : ℕ} → Edits (reverse l) (reverse r) k → Edits l r k
Edits-unreverse l r e = simp reverse-reverse at (Edits-reverse e)

-- The distance that the two-row loop computes is attained by insertions, deletions and
-- substitutions of single characters that turn the left text into the right one, and no such
-- edits are fewer.
pub levenshtein_distance-IsLeast :
    (left right : List ℕ)
    → Edits left right (levenshtein_distance left right)
      × ((k : ℕ) → Edits left right k → levenshtein_distance left right ≤ k)
levenshtein_distance-IsLeast left right = rw (levenshtein_distance-eq-edit_count left right) (
  Edits-unreverse left right (edit_count-Edits (reverse left) (reverse right)),
  λ k e. edit_count-le (Edits-reverse e),
)

Edits-self : (l : List ℕ) → Edits l l 0
Edits-self [] = nothing
Edits-self (x ∷ l) = keep x (Edits-self l)

Edits-symm : {l r : List ℕ} {k : ℕ} → Edits l r k → Edits r l k
Edits-symm nothing = nothing
Edits-symm (keep x e) = keep x (Edits-symm e)
Edits-symm (substitute x y e) = substitute y x (Edits-symm e)
Edits-symm (delete x e) = insert x (Edits-symm e)
Edits-symm (insert y e) = delete y (Edits-symm e)

Edits-zero : {l r : List ℕ} {k : ℕ} → Edits l r k → k ≡ 0 → l ≡ r
Edits-zero nothing e = refl
Edits-zero (keep x h) e = cc (Edits-zero h e)
Edits-zero (substitute x y h) e = absurd (omega arith)
Edits-zero (delete x h) e = absurd (omega arith)
Edits-zero (insert y h) e = absurd (omega arith)

Edits-long : (l r : List ℕ) → (k : ℕ) × Edits l r k × (k ≤ max (length l) (length r))
Edits-long [] [] = (0, nothing, omega arith)
Edits-long (x ∷ l) [] = let (k, e, h) = Edits-long l [] in (suc k, delete x e, omega arith)
Edits-long [] (y ∷ r) = let (k, e, h) = Edits-long [] r in (suc k, insert y e, omega arith)
Edits-long (x ∷ l) (y ∷ r) =
    let (k, e, h) = Edits-long l r in (suc k, substitute x y e, omega arith)

-- The distance does not depend on the order of the texts, is 0 exactly for equal texts, and is at
-- most the length of the longer one, so that a ratio computed from it lies between 0 and 1.
pub levenshtein_distance_metric :
    (left right : List ℕ)
    → (levenshtein_distance left right ≡ levenshtein_distance right left)
      × (levenshtein_distance left right ≡ 0 → left ≡ right)
      × (levenshtein_distance left left ≡ 0)
      × (levenshtein_distance left right ≤ max (length left) (length right))
levenshtein_distance_metric left right =
    let (e, least) = levenshtein_distance-IsLeast left right in
    let (e', least') = levenshtein_distance-IsLeast right left in
    let (k, f, h) = Edits-long left right in
    let same : levenshtein_distance left left ≤ 0 =
      (levenshtein_distance-IsLeast left left).1 0 (Edits-self left) in
    let le : levenshtein_distance left right ≤ levenshtein_distance right left =
      least _ (Edits-symm e') in
    let ge : levenshtein_distance right left ≤ levenshtein_distance left right =
      least' _ (Edits-symm e) in
    let long : levenshtein_distance left right ≤ k = least k f in
    (omega arith, Edits-zero e, omega arith, omega arith)
