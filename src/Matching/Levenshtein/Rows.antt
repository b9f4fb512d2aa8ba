-- ===== src/Matching/Levenshtein/Rows.antt =====
-- The rows of the table: each holds the recursive distances of one prefix of `left`, read
-- backwards, to the prefixes of `right`, and has a cell for each.
use mathlib.Core.List.{reverse, reverse-cons, append-nil, append_assoc}
use healpipe.Prelude.{ℕ, suc, ◌+◌, min, List, [], ◌∷◌, ◌++◌, ◌≡◌, refl, sym, ap, ◌∙◌, length, arith}
use healpipe.Matching.Levenshtein.{
  cost, range_from, next_cells, last_row, last_of, levenshtein_distance,
}
use healpipe.Matching.Levenshtein.Edits.{edit_count}

-- The cells from the prefix `q` of `right` on; `rs` is what is left of `right`.
abbrev row : List ℕ → List ℕ → List ℕ → List ℕ
row p q [] = edit_count p q ∷ []
row p q (y ∷ rs) = edit_count p q ∷ row p (y ∷ q) rs

abbrev cells : List ℕ → List ℕ → List ℕ → List ℕ
cells p q [] = []
cells p q (y ∷ rs) = row p (y ∷ q) rs

row-cells : (p q rs : List ℕ) → row p q rs ≡ edit_count p q ∷ cells p q rs
row-cells p q [] = refl
row-cells p q (y ∷ rs) = refl

range_from-row : (q rs : List ℕ) → range_from (length q) (suc (length rs)) ≡ row [] q rs
unfolding range_from edit_count
range_from-row q [] = refl
range_from-row q (y ∷ rs) = ap (λ r. length q ∷ r) (range_from-row (y ∷ q) rs)

edit_count-step :
    (x y : ℕ) (p q : List ℕ)
    → edit_count (x ∷ p) (y ∷ q)
      ≡ min (min (edit_count (x ∷ p) q + 1) (edit_count p (y ∷ q) + 1)) (edit_count p q + cost x y)
unfolding edit_count
edit_count-step x y p q = refl

-- The inner loop fills the row of one more character.
next_cells-row :
    (x : ℕ) (p q rs : List ℕ)
    → next_cells x (edit_count (x ∷ p) q) rs (row p q rs) ≡ cells (x ∷ p) q rs
unfolding next_cells
next_cells-row x p q [] = refl
next_cells-row x p q (y ∷ rs) =
    ap (λ w. next_cells x (edit_count (x ∷ p) q) (y ∷ rs) (edit_count p q ∷ w))
      (row-cells p (y ∷ q) rs)
    ∙ ap (λ c. c ∷ next_cells x c rs (edit_count p (y ∷ q) ∷ cells p (y ∷ q) rs))
        (sym (edit_count-step x y p q))
    ∙ ap (λ w. edit_count (x ∷ p) (y ∷ q) ∷ next_cells x (edit_count (x ∷ p) (y ∷ q)) rs w)
        (sym (row-cells p (y ∷ q) rs))
    ∙ ap (λ w. edit_count (x ∷ p) (y ∷ q) ∷ w) (next_cells-row x p (y ∷ q) rs)
    ∙ sym (row-cells (x ∷ p) (y ∷ q) rs)

-- A whole round of the outer loop.
round :
    (x : ℕ) (p right : List ℕ)
    → (length p + 1) ∷ next_cells x (length p + 1) right (row p [] right) ≡ row (x ∷ p) [] right
round x p right =
    ap (λ n. n ∷ next_cells x n right (row p [] right)) first
    ∙ ap (λ w. edit_count (x ∷ p) [] ∷ w) (next_cells-row x p [] right)
    ∙ sym (row-cells (x ∷ p) [] right)
  where
    first : length p + 1 ≡ edit_count (x ∷ p) []
    first = unfold edit_count in omega arith

last_row-row :
    (p left right : List ℕ)
    → last_row (length p + 1) left right (row p [] right) ≡ row (reverse left ++ p) [] right
unfolding last_row
last_row-row p [] right = refl
last_row-row p (x ∷ left) right =
    ap (λ w. last_row (suc (length p + 1)) left right w) (round x p right)
    ∙ ap (λ n. last_row n left right (row (x ∷ p) [] right)) (omega arith)
    ∙ last_row-row (x ∷ p) left right
    ∙ ap (λ w. row w [] right)
        (rw (reverse-cons x left) (sym (append_assoc (reverse left) (x ∷ []) p)))

last_of-row : (p q rs : List ℕ) → last_of (row p q rs) ≡ edit_count p (reverse rs ++ q)
unfolding last_of
last_of-row p q [] = refl
last_of-row p q (y ∷ rs) =
    ap (λ w. last_of (edit_count p q ∷ w)) (row-cells p (y ∷ q) rs)
    ∙ ap last_of (sym (row-cells p (y ∷ q) rs))
    ∙ last_of-row p (y ∷ q) rs
    ∙ ap (edit_count p) (rw (reverse-cons y rs) (sym (append_assoc (reverse rs) (y ∷ []) q)))

-- The two-row loop computes the recursive distance of the texts read backwards.
pub levenshtein_distance-eq-edit_count :
    (left right : List ℕ)
    → levenshtein_distance left right ≡ edit_count (reverse left) (reverse right)
unfolding levenshtein_distance
levenshtein_distance-eq-edit_count left right =
    ap (λ n. last_of (last_row 1 left right (range_from 0 n))) (omega arith)
    ∙ ap (λ w. last_of (last_row 1 left right w)) (range_from-row [] right)
    ∙ ap last_of (last_row-row [] left right)
    ∙ last_of-row (reverse left ++ []) [] right
    ∙ simp append-nil
