-- ===== src/Matching/Payloads.antt =====
-- core/algorithms.py: `map_payload_keys`.
pub mod Overwritten
pub mod Renamings
use healpipe.Prelude.{
  String, Bool, true, false, not, ◌&&◌, ◌||◌, Option, none, some, List, [], ◌∷◌, ◌++◌, ◌==◌,
  string_eq, if◌then◌else◌, contains,
}
use healpipe.Prelude.Dict.{Dict, put}
use healpipe.Database.Schema.Json.{Value, Payload}
use healpipe.Python.{Score, Text}
use healpipe.Matching.Keys.{best_key_match}

-- The variables of the loop. `used_expected` is a set: only membership is asked of it.
pub record Mapping : Type 0 where
  pub mapped_payload : Payload
  pub mappings : Dict String
  pub used_expected : List String

abbrev pub no_mapping : Mapping
no_mapping = record { mapped_payload = []; mappings = []; used_expected = [] }

abbrev pub keep_key : String → Value → Mapping → Mapping
keep_key key value m = record m { mapped_payload = put key value m.mapped_payload }

abbrev pub map_key : String → String → Value → Mapping → Mapping
map_key key target value m = record {
  mapped_payload = put target value m.mapped_payload;
  mappings = if key == target then m.mappings else put key target m.mappings;
  used_expected = target ∷ m.used_expected;
}

-- One round of the loop.
unfoldable pub map_entry : Text → List String → Score → String → Value → Mapping → Mapping
map_entry text expected threshold key value m = elim (best_key_match text key expected threshold) [
  | none ↦ keep_key key value m
  | some target ↦
      if contains target m.used_expected then keep_key key value m else map_key key target value m
]

unfoldable pub map_entries : Text → List String → Score → Payload → Mapping → Mapping
map_entries text expected threshold [] m = m
map_entries text expected threshold ((key, value) ∷ payload) m =
    map_entries text expected threshold payload (map_entry text expected threshold key value m)

unfoldable pub map_payload_keys : Text → Payload → List String → Score → Payload × Dict String
map_payload_keys text payload expected threshold =
    let m = map_entries text expected threshold payload no_mapping in (m.mapped_payload, m.mappings)
