-- ===== src/Services/Outbound.antt =====
-- services/outbound.py: the retry policy and one POST of a payload.
use Prim.Native.Char.{Char, code}
use healpipe.Prelude.{
  ℕ, zero, String, Bool, true, false, ◌&&◌, ◌||◌, Option, none, some, List, [], ◌∷◌, ◌==◌, nat_eq,
  string_eq, leb, if◌then◌else◌,
}
use healpipe.Database.Schema.{AttemptStatus}
use healpipe.Database.Schema.Json.{ℤ}
use healpipe.Database.State.{Result, ok, err, unhandled}
use healpipe.Python.{Text, prefix}

-- DEFAULT_RETRY_BACKOFF_SECONDS
abbrev pub default_retry_backoff_seconds : List ℤ
default_retry_backoff_seconds = ℤ.pos 0 ∷ ℤ.pos 60 ∷ ℤ.pos 300 ∷ ℤ.pos 1800 ∷ ℤ.pos 7200 ∷ []

abbrev pub extend_first : Char → List String → List String
extend_first c [] = String.◌∷◌ c String.[] ∷ []
extend_first c (part ∷ parts) = String.◌∷◌ c part ∷ parts

-- `text.split(",")`
unfoldable pub split_commas : String → List String
split_commas String.[] = String.[] ∷ []
split_commas (String.◌∷◌ c s) =
    let rest = split_commas s in if code c == b',' then String.[] ∷ rest else extend_first c rest

-- `tuple(int(value.strip()) for value in values)`; none for the ValueError.
unfoldable pub parse_all : Text → List String → Option (List ℤ)
parse_all text [] = some []
parse_all text (value ∷ values) =
    let rest = parse_all text values in
    elim (text.parse_int (text.strip value)) [
      | none ↦ none
      | some n ↦ elim rest [ none ↦ none | some ns ↦ some (n ∷ ns) ]
    ]

-- `values if values and values[0] == 0 else DEFAULT_RETRY_BACKOFF_SECONDS`
abbrev pub usable : List ℤ → List ℤ
usable (ℤ.pos zero ∷ rest) = ℤ.pos 0 ∷ rest
usable _ = default_retry_backoff_seconds

-- `configured` is the environment's DELIVERY_RETRY_BACKOFF_SECONDS, none if it is not set.
unfoldable pub retry_backoff_seconds : Text → Option String → List ℤ
retry_backoff_seconds text none = default_retry_backoff_seconds
retry_backoff_seconds text (some configured) =
    let values = parse_all text (split_commas configured) in
    if configured == ""
    then default_retry_backoff_seconds
    else elim values [ none ↦ default_retry_backoff_seconds | some ns ↦ usable ns ]

unfoldable pub is_retryable_response : Option ℕ → Bool
is_retryable_response none = true
is_retryable_response (some status_code) =
    (status_code == 408 || status_code == 429) || (leb 500 status_code && leb status_code 599)

-- What the POST comes to: a response with its status and body; a timeout or a request error, with
-- its text; or an exception of another kind, which `forward_payload` does not catch.
pub data Outcome : Type 0 where
  response : ℕ → String → Outcome
  request_error : String → Outcome
  other_error : String → Outcome

-- What the code takes from httpx: the statuses that `raise_for_status` passes, and the text of the
-- HTTPStatusError that it raises for the others.
pub record Httpx : Type 0 where
  pub is_success : ℕ → Bool
  pub status_error : ℕ → String

-- The callback, with the state that it works on.
abbrev pub OnAttempt : Type 0 → Type 0
OnAttempt S = ℕ → AttemptStatus → Option ℕ → Option String → Option String → S → S

unfoldable pub forward_payload :
    {S : Type 0} → Httpx → Outcome → ℕ → OnAttempt S → S → Result Bool × S
forward_payload httpx (response status body) attempt_number on_attempt s =
    if httpx.is_success status
    then (
      ok true,
      on_attempt attempt_number AttemptStatus.delivered (some status) none (some (prefix 4000 body))
          s,
    )
    else (
      ok false,
      on_attempt attempt_number AttemptStatus.failed (some status)
          (some (httpx.status_error status)) (some (prefix 4000 body)) s,
    )
forward_payload httpx (request_error message) attempt_number on_attempt s =
    (ok false, on_attempt attempt_number AttemptStatus.failed none (some message) none s)
forward_payload httpx (other_error message) attempt_number on_attempt s =
    (err (unhandled message), s)
