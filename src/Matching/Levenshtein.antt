-- ===== src/Matching/Levenshtein.antt =====
-- core/algorithms.py: `levenshtein_distance`, over the code points of the two texts.
pub mod Edits
pub mod Rows
pub mod Optimal
use healpipe.Prelude.{
  ℕ, zero, suc, ◌+◌, min, Bool, List, [], ◌∷◌, ◌==◌, nat_eq, if◌then◌else◌, length,
}

-- `left_character != right_character`, added to a number
abbrev pub cost : ℕ → ℕ → ℕ
cost x y = if x == y then 0 else 1

-- `list(range(a, a + n))`
unfoldable pub range_from : ℕ → ℕ → List ℕ
range_from a zero = []
range_from a (suc n) = a ∷ range_from (suc a) n

-- The inner loop, from some right character on: `last` is `current_row[-1]`, and the row is
-- `previous_row` from `right_index - 1` on. The result is what the loop appends. A row that ends
-- too early does not occur (in the source it would raise an IndexError).
unfoldable pub next_cells : ℕ → ℕ → List ℕ → List ℕ → List ℕ
next_cells x last [] previous = []
next_cells x last (y ∷ right) (diagonal ∷ above ∷ previous) =
    let cell = min (min (last + 1) (above + 1)) (diagonal + cost x y) in
    cell ∷ next_cells x cell right (above ∷ previous)
next_cells x last (y ∷ right) _ = []

-- The outer loop, from `left_index` on.
unfoldable pub last_row : ℕ → List ℕ → List ℕ → List ℕ → List ℕ
last_row left_index [] right previous_row = previous_row
last_row left_index (x ∷ left) right previous_row =
    last_row (suc left_index) left right (left_index ∷ next_cells x left_index right previous_row)

-- `row[-1]` of a row that is not empty
unfoldable pub last_of : List ℕ → ℕ
last_of [] = 0
last_of (x ∷ []) = x
last_of (x ∷ y ∷ row) = last_of (y ∷ row)

unfoldable pub levenshtein_distance : List ℕ → List ℕ → ℕ
levenshtein_distance left right = last_of (last_row 1 left right (range_from 0 (length right + 1)))
