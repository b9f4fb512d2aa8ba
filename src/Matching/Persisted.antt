-- ===== src/Matching/Persisted.antt =====
-- core/algorithms.py: `apply_persisted_mappings`; main.py: the loop of `test_bridge_mapping`.
pub mod Conserved
use healpipe.Prelude.{
  ℕ, String, Bool, true, false, not, ◌&&◌, ◌||◌, Option, none, some, List, [], ◌∷◌, ◌++◌,
  if◌then◌else◌, string_eq,
}
use healpipe.Prelude.Dict.{Dict, get, put, remove, has_key}
use healpipe.Database.Schema.{Uuid}
use healpipe.Database.Schema.Json.{Value, Payload}
use healpipe.Database.State.{Db}
use healpipe.Database.Mapping.{fetch_active_mapping_snapshot}

-- `payload[target] = payload.pop(source)`, for a source that is there.
abbrev pub move : String → String → Value → Payload → Payload
move source target value p = put target value (remove source p)

-- The loop over the stored mappings. A source that is absent, or a target that is present, is
-- passed over.
unfoldable pub apply_mappings : Dict String → Payload → Dict String → Payload × Dict String
apply_mappings [] p applied = (p, applied)
apply_mappings ((source, target) ∷ stored) p applied = elim (get source p) [
  | none ↦ apply_mappings stored p applied
  | some value ↦
      let skip = apply_mappings stored p applied in
      let go = apply_mappings stored (move source target value p) (put source target applied) in
      if has_key target p then skip else go
]

unfoldable pub apply_persisted_mappings : Payload → Uuid → Db → Payload × Dict String × Dict ℕ
apply_persisted_mappings payload b db =
    let (stored, versions) = fetch_active_mapping_snapshot b db in
    let (mapped, applied) = apply_mappings stored payload [] in (mapped, applied, versions)

pub record Change : Type 0 where
  pub source : String
  pub destination : String
  pub value : Value

-- The dry run, with the changes in the order in which they are made.
unfoldable pub dry_run : Dict String → Payload → List Change → Payload × List Change
dry_run [] output changes = (output, changes)
dry_run ((source, destination) ∷ stored) output changes = elim (get source output) [
  | none ↦ dry_run stored output changes
  | some value ↦
      let go =
        dry_run stored (put destination value (remove source output))
          (changes ++ record { source = source; destination = destination; value = value } ∷ []) in
      let skip = dry_run stored output changes in
      if not (has_key destination output) then go else skip
]

unfoldable pub test_bridge_mapping : Payload → Uuid → Db → Payload × List Change × Dict ℕ
test_bridge_mapping payload b db =
    let (stored, versions) = fetch_active_mapping_snapshot b db in
    let (output, changes) = dry_run stored payload [] in (output, changes, versions)
