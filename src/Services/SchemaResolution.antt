-- ===== src/Services/SchemaResolution.antt =====
-- core/ai_agent.py: the decision of a language model on one key.
use healpipe.Prelude.{
  String, Option, none, some, List, [], ◌∷◌, ◌==◌, string_eq, if◌then◌else◌, contains,
}
use healpipe.Database.Schema.{AiTelemetry}
use healpipe.Database.Schema.Json.{Payload}
use healpipe.Database.State.{Result, ok, err, runtime_error, value_error}
use healpipe.Python.{Score}

-- VALID_DESTINATION_KEYS
abbrev pub valid_destination_keys : List String
valid_destination_keys =
    "customer_id" ∷ "email_address" ∷ "stock_count" ∷ "phone_number" ∷ "contact_phone" ∷ []

pub record SchemaResolution : Type 0 where
  pub mapped_key : String
  pub confidence : Score

-- What the code takes from its environment and from the libraries: ANTHROPIC_API_KEY, the model's
-- name, the text that the model answers, or the exception that the client raises, and the parsing
-- of that text; none where `model_validate_json` raises.
pub record Claude : Type 0 where
  pub api_key : Option String
  pub model : String
  pub answer : Payload → String → Result String
  pub parse : String → Option SchemaResolution

-- The dict that is returned.
pub record Resolution : Type 0 where
  pub mapped_key : String
  pub confidence : Score
  pub telemetry : AiTelemetry

-- The part after the answer.
unfoldable pub read_answer : Claude → String → Result Resolution
read_answer claude text = elim (claude.parse text) [
  | none ↦ err (value_error "Claude returned an invalid schema resolution")
  | some r ↦
      if contains r.mapped_key valid_destination_keys
      then ok (record {
        mapped_key = r.mapped_key;
        confidence = r.confidence;
        telemetry = record { confidence_score = r.confidence; algorithm = claude.model };
      })
      else err (value_error "Claude returned a destination key outside the allowlist")
]

unfoldable pub resolve_ambiguous_schema : Claude → Payload → String → Result Resolution
resolve_ambiguous_schema claude raw_payload missing_key =
    let asked : Result Resolution = elim (claude.answer raw_payload missing_key) [
      | err e ↦ err e
      | ok text ↦ read_answer claude text
    ] in
    elim claude.api_key [
      | none ↦ err (runtime_error "ANTHROPIC_API_KEY is not configured")
      | some key ↦
          if key == "" then err (runtime_error "ANTHROPIC_API_KEY is not configured") else asked
    ]
