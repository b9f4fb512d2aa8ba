-- ===== src/Matching/Similarity.antt =====
-- core/algorithms.py: `levenshtein_ratio` and `similarity`.
use healpipe.Prelude.{
  ℕ, ◌-◌, max, String, Bool, true, false, ◌&&◌, ◌||◌, List, [], ◌∷◌, ◌==◌, nat_eq, leb,
  if◌then◌else◌, length,
}
use healpipe.Prelude.Table.{any}
use healpipe.Python.{Score, Text, score_leb, codes}
use healpipe.Matching.Levenshtein.{levenshtein_distance}

-- `1.0 - distance / longest`, as one quotient.
unfoldable pub levenshtein_ratio : String → String → Score
levenshtein_ratio left right =
    let longest = max (length (codes left)) (length (codes right)) in
    if longest == 0
    then record { num = 1; den = 1 }
    else record { num = longest - levenshtein_distance (codes left) (codes right); den = longest }

-- `[a-z0-9]`
abbrev pub is_token_code : ℕ → Bool
is_token_code c = (leb b'a' c && leb c b'z') || (leb b'0' c && leb c b'9')

abbrev pub close : List ℕ → List (List ℕ) → List (List ℕ)
close [] next = next
close (x ∷ run) next = (x ∷ run) ∷ next

-- `re.findall(r"[a-z0-9]+", text)`: the maximal runs, each read backwards; `run` is the current one.
unfoldable pub find_tokens : List ℕ → List ℕ → List (List ℕ)
find_tokens run [] = close run []
find_tokens run (c ∷ text) =
    let longer = find_tokens (c ∷ run) text in
    let next = close run (find_tokens [] text) in if is_token_code c then longer else next

abbrev pub same_codes : List ℕ → List ℕ → Bool
same_codes [] [] = true
same_codes (x ∷ xs) (y ∷ ys) = x == y && same_codes xs ys
same_codes _ _ = false

-- `any(len(token) >= 4 for token in left & right)`
unfoldable pub share_long_token : List (List ℕ) → List (List ℕ) → Bool
share_long_token left right = any (λ t. any (same_codes t) right && leb 4 (length t)) left

abbrev pub token_score : Bool → Score
token_score true = record { num = 8; den = 10 }
token_score false = record { num = 0; den = 1 }

-- `max(a, b)`: the first of equal ones.
abbrev pub max_score : Score → Score → Score
max_score a b = if score_leb b a then a else b

unfoldable pub similarity : Text → String → String → Score
similarity text left right =
    let l = text.casefold left in
    let r = text.casefold right in
    max_score (max_score (levenshtein_ratio l r) (text.sequence_ratio l r))
      (token_score (share_long_token (find_tokens [] (codes l)) (find_tokens [] (codes r))))
