-- ===== src/Matching/Keys/Choice.antt =====
-- What a match is, and when there is none.
use healpipe.Prelude.{
  String, true, false, none, some, List, [], ◌∷◌, ◌≡◌, refl, ◌⊎◌, inl, inr, string_eq,
  if◌then◌else◌, contains, arith, Bool-cases, Option-cases, eq_iff, if_keeps,
}
use healpipe.Python.{Score, Text, score_leb}
use healpipe.Matching.Similarity.{similarity}
use healpipe.Matching.Keys.{Candidate, expected_alias, candidate_ltb, max_candidate, best_key_match}

module _ (text : Text) (key : String) where
  -- A candidate with the score of its field, which is one of `fields`.
  abbrev IsCandidate : List String → Candidate → Type 0
  IsCandidate fields c = (c.0 ≡ similarity text key c.1) × (contains c.1 fields ≡ true)

  max_candidate-IsCandidate :
      (fields : List String) (best : Candidate) (rest : List String)
      → ((f : String) → contains f rest ≡ true → contains f fields ≡ true)
      → IsCandidate fields best
      → IsCandidate fields (max_candidate text key best rest)
  unfolding max_candidate
  max_candidate-IsCandidate fields best [] sub h = h
  max_candidate-IsCandidate fields best (f ∷ rest) sub h =
      let c : Candidate = (similarity text key f, f) in
      max_candidate-IsCandidate fields (if candidate_ltb best c then c else best) rest
        (λ g m. sub g (ground arith))
        (if_keeps (IsCandidate fields) (candidate_ltb best c)
          (refl, sub f (ground (arith, eq_iff f f))) h)

  pub alias-expected :
      (fields : List String) {alias : String}
      → expected_alias text key fields ≡ some alias
      → contains alias fields ≡ true
  unfolding expected_alias
  alias-expected fields {alias} h = ground arith

  best_of :
      (fields : List String) (threshold : Score) {m : String}
      → contains key fields ≡ false
      → expected_alias text key fields ≡ none
      → best_key_match text key fields threshold ≡ some m
      → (contains m fields ≡ true)
        × ((m ≡ key)
            ⊎ (contains key fields ≡ false)
              × ((expected_alias text key fields ≡ some m)
                  ⊎ (expected_alias text key fields ≡ none)
                    × (score_leb threshold (similarity text key m) ≡ true)))
  unfolding best_key_match
  best_of [] threshold away e h = ground arith
  best_of (f ∷ rest) threshold away e h =
      let c =
        max_candidate-IsCandidate (f ∷ rest) (similarity text key f, f) rest (λ g m. ground arith)
          (refl, ground (arith, eq_iff f f)) in
      ground arith

  -- A match is an expected field. It is the key itself exactly when the key is expected; otherwise
  -- it is the expected alias of the key if there is one, and else a field whose similarity with
  -- the key reaches the threshold.
  pub best_key_match_sound :
      (fields : List String) (threshold : Score) (m : String)
      → best_key_match text key fields threshold ≡ some m
      → (contains m fields ≡ true)
        × ((m ≡ key)
            ⊎ (contains key fields ≡ false)
              × ((expected_alias text key fields ≡ some m)
                  ⊎ (expected_alias text key fields ≡ none)
                    × (score_leb threshold (similarity text key m) ≡ true)))
  unfolding best_key_match
  best_key_match_sound fields threshold m h = elim (Bool-cases (contains key fields)) [
    | inl here ↦ ground arith
    | inr away ↦ elim (Option-cases (expected_alias text key fields)) [
      | inr (a, e) ↦ let listed = alias-expected fields e in ground arith
      | inl e ↦ best_of fields threshold away e h
    ]
  ]
