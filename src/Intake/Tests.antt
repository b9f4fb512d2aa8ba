-- ===== src/Intake/Tests.antt =====
-- The theorems on the intake at concrete bodies.
use healpipe.Prelude.{[], ◌∷◌, ◌≡◌}
use healpipe.Prelude.Dict.{keys}
use healpipe.Database.Schema.Json.{Value, Payload}
use healpipe.Intake.Normalizer.{normalize_payload}
use healpipe.Intake.Normalizer.Idempotent.{normalize_payload-again}
use healpipe.Samples.{plain_text}

abbrev raw : Payload
raw = ("a", Value.str "null") ∷ ("b", Value.str "true") ∷ ("c", Value.str "x") ∷ []

normalize_payload-again_example :
    (keys (normalize_payload plain_text raw) ≡ keys raw)
    × (normalize_payload plain_text (normalize_payload plain_text raw)
        ≡ normalize_payload plain_text raw)
normalize_payload-again_example = normalize_payload-again plain_text raw
