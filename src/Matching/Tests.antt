-- ===== src/Matching/Tests.antt =====
-- The theorems on matching at concrete texts, keys and payloads.
use healpipe.Prelude.{
  ℕ, ◌≤◌, max, String, true, false, none, some, List, [], ◌∷◌, ◌≡◌, ◌≢◌, ◌⊎◌, refl, contains,
  string_eq, length,
}
use mathlib.Core.List.{Perm}
use healpipe.Prelude.Dict.{IsDict, get, put, values}
use healpipe.Database.Schema.{MappingStatus}
use healpipe.Database.Schema.Json.{Value, Payload}
use healpipe.Database.State.{Db}
use healpipe.Python.{score_leb}
use healpipe.Matching.Levenshtein.{levenshtein_distance}
use healpipe.Matching.Levenshtein.Edits.{Edits}
use healpipe.Matching.Levenshtein.Optimal.{
  levenshtein_distance-IsLeast, levenshtein_distance_metric,
}
use healpipe.Matching.Similarity.{similarity}
use healpipe.Matching.Keys.{default_match_threshold, expected_alias, best_key_match}
use healpipe.Matching.Keys.Choice.{best_key_match_sound}
use healpipe.Matching.Payloads.{map_payload_keys, map_entries, map_entry}
use healpipe.Matching.Payloads.Renamings.{map_payload_keys_renames}
use healpipe.Matching.Payloads.Overwritten.{map_payload_keys_overwrites}
use healpipe.Matching.Persisted.{apply_persisted_mappings}
use healpipe.Matching.Persisted.Conserved.{apply_persisted_mappings-values}
use healpipe.Samples.{plain_text, empty_db, client_rule}

-- Two words by their code points.
abbrev kitten : List ℕ
kitten = 107 ∷ 105 ∷ 116 ∷ 116 ∷ 101 ∷ 110 ∷ []

abbrev sitting : List ℕ
sitting = 115 ∷ 105 ∷ 116 ∷ 116 ∷ 105 ∷ 110 ∷ 103 ∷ []

levenshtein_distance-IsLeast_example :
    Edits kitten sitting (levenshtein_distance kitten sitting)
    × ((k : ℕ) → Edits kitten sitting k → levenshtein_distance kitten sitting ≤ k)
levenshtein_distance-IsLeast_example = levenshtein_distance-IsLeast kitten sitting

levenshtein_distance_metric_example :
    (levenshtein_distance kitten sitting ≡ levenshtein_distance sitting kitten)
    × (levenshtein_distance kitten sitting ≡ 0 → kitten ≡ sitting)
    × (levenshtein_distance kitten kitten ≡ 0)
    × (levenshtein_distance kitten sitting ≤ max (length kitten) (length sitting))
levenshtein_distance_metric_example = levenshtein_distance_metric kitten sitting

abbrev expected : List String
expected = "customer_id" ∷ "email_address" ∷ []

aliased :
    best_key_match plain_text "client_num" expected default_match_threshold ≡ some "customer_id"
unfolding best_key_match expected_alias get
aliased = refl

abbrev AliasSound : Type 0
AliasSound =
    (contains "customer_id" expected ≡ true)
    × ((◌≡◌ {A = String} "customer_id" "client_num")
        ⊎ (contains "client_num" expected ≡ false)
          × ((expected_alias plain_text "client_num" expected ≡ some "customer_id")
              ⊎ (expected_alias plain_text "client_num" expected ≡ none)
                × (score_leb default_match_threshold
                      (similarity plain_text "client_num" "customer_id")
                    ≡ true)))

best_key_match_sound_example : AliasSound
best_key_match_sound_example =
    best_key_match_sound plain_text "client_num" expected default_match_threshold "customer_id"
      aliased

abbrev incoming : Payload
incoming = ("client_num", Value.str "c1") ∷ []

renamed :
    get "client_num" (map_payload_keys plain_text incoming expected default_match_threshold).1
    ≡ some "customer_id"
unfolding map_payload_keys map_entries map_entry best_key_match expected_alias get put
renamed = refl

abbrev OnlyRenaming : Type 0
OnlyRenaming =
    (best_key_match plain_text "client_num" expected default_match_threshold ≡ some "customer_id")
    × (◌≢◌ {A = String} "client_num" "customer_id")
    × ((j : String)
        → get j (map_payload_keys plain_text incoming expected default_match_threshold).1
          ≡ some "customer_id"
        → "client_num" ≡ j)

map_payload_keys_renames_example : OnlyRenaming
map_payload_keys_renames_example =
    map_payload_keys_renames plain_text expected default_match_threshold incoming "client_num"
      "customer_id" renamed

abbrev both_fields : Payload
both_fields =
    ("client_num", Value.str "c1")
    ∷ ("email_address", Value.str "a@example.org")
    ∷ ("customer_id", Value.str "c2")
    ∷ []

has_both : IsDict both_fields
has_both = (refl, (refl, (refl, tt)))

field_there : get "customer_id" both_fields ≡ some (Value.str "c2")
unfolding get
field_there = refl

key_renamed :
    get "client_num" (map_payload_keys plain_text both_fields expected default_match_threshold).1
    ≡ some "customer_id"
unfolding map_payload_keys map_entries map_entry best_key_match expected_alias get put
key_renamed = refl

map_payload_keys_overwrites_example :
    (get "customer_id" (map_payload_keys plain_text both_fields expected default_match_threshold).0
      ≡ some (Value.str "c2"))
    × (get "client_num" (map_payload_keys plain_text both_fields expected default_match_threshold).0
        ≡ none)
map_payload_keys_overwrites_example =
    map_payload_keys_overwrites plain_text expected default_match_threshold both_fields "client_num"
      "customer_id" (Value.str "c2") has_both field_there key_renamed

abbrev ruled_db : Db
ruled_db = record empty_db { mapping_rules = client_rule 1 1 MappingStatus.active ∷ [] }

abbrev client_payload : Payload
client_payload = ("client", Value.str "c1") ∷ ("note", Value.null) ∷ []

apply_persisted_mappings-values_example :
    Perm (values (apply_persisted_mappings client_payload 9 ruled_db).0) (values client_payload)
apply_persisted_mappings-values_example = apply_persisted_mappings-values client_payload 9 ruled_db
