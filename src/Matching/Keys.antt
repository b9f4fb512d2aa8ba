-- ===== src/Matching/Keys.antt =====
-- core/algorithms.py: `best_key_match` and `key_confidence`.
pub mod Choice
use healpipe.Prelude.{
  ℕ, ◌*◌, String, Bool, true, false, not, ◌&&◌, ◌||◌, Option, none, some, List, [], ◌∷◌, ◌==◌,
  nat_eq, string_eq, ltb, leb, if◌then◌else◌, contains,
}
use healpipe.Prelude.Dict.{Dict, get}
use healpipe.Python.{Score, Text, score_leb, score_ltb, codes}
use healpipe.Matching.Similarity.{similarity}

-- DEFAULT_MATCH_THRESHOLD = 0.78
abbrev pub default_match_threshold : Score
default_match_threshold = record { num = 78; den = 100 }

abbrev pub known_field_aliases : Dict String
known_field_aliases =
    ("client_num", "customer_id")
    ∷ ("user_email", "email_address")
    ∷ ("qty_on_hand", "stock_count")
    ∷ ("phone_number", "contact_phone")
    ∷ ("contact_phone", "phone_number")
    ∷ []

-- `KNOWN_FIELD_ALIASES.get(incoming_key.casefold())`, if it is one of the expected fields.
unfoldable pub expected_alias : Text → String → List String → Option String
expected_alias text incoming_key expected_fields =
    elim (get (text.casefold incoming_key) known_field_aliases) [
      | none ↦ none
      | some alias ↦ if contains alias expected_fields then some alias else none
    ]

-- The order of texts by code points, on which Python falls back for equal scores.
unfoldable pub codes_ltb : List ℕ → List ℕ → Bool
codes_ltb [] [] = false
codes_ltb [] (y ∷ ys) = true
codes_ltb (x ∷ xs) [] = false
codes_ltb (x ∷ xs) (y ∷ ys) = ltb x y || (x == y && codes_ltb xs ys)

abbrev pub Candidate : Type 0
Candidate = Score × String

-- `a < b` for the tuples `(score, expected)`
unfoldable pub candidate_ltb : Candidate → Candidate → Bool
candidate_ltb (s, a) (t, b) =
    score_ltb s t || (score_leb s t && (score_leb t s && codes_ltb (codes a) (codes b)))

-- `max` over the candidates that are left: a later one replaces the best only if it is greater.
unfoldable pub max_candidate : Text → String → Candidate → List String → Candidate
max_candidate text key best [] = best
max_candidate text key best (expected ∷ rest) =
    let c : Candidate = (similarity text key expected, expected) in
    max_candidate text key (if candidate_ltb best c then c else best) rest

unfoldable pub best_key_match : Text → String → List String → Score → Option String
best_key_match text incoming_key expected_fields threshold =
    if contains incoming_key expected_fields
    then some incoming_key
    else elim (expected_alias text incoming_key expected_fields) [
      | some alias ↦ some alias
      | none ↦ elim expected_fields [
        | [] ↦ none
        | first ∷ rest ↦
            let best =
              max_candidate text incoming_key (similarity text incoming_key first, first) rest in
            if score_leb threshold best.0 then some best.1 else none
      ]
    ]

unfoldable pub max_similarity : Text → String → Score → List String → Score
max_similarity text key best [] = best
max_similarity text key best (expected ∷ rest) =
    let s = similarity text key expected in
    max_similarity text key (if score_ltb best s then s else best) rest

unfoldable pub key_confidence : Text → String → List String → Score
key_confidence text incoming_key expected_fields =
    if contains incoming_key expected_fields
    then record { num = 1; den = 1 }
    else elim (expected_alias text incoming_key expected_fields) [
      | some alias ↦ default_match_threshold
      | none ↦ elim expected_fields [
        | [] ↦ record { num = 0; den = 1 }
        | first ∷ rest ↦ max_similarity text incoming_key (similarity text incoming_key first) rest
      ]
    ]
