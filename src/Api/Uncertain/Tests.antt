-- ===== src/Api/Uncertain/Tests.antt =====
-- The theorems on a parked webhook at a concrete one.
use healpipe.Prelude.{
  String, true, false, some, List, [], ◌∷◌, ◌++◌, string_eq, contains, ◌≡◌, ◌≢◌, refl, ◌⊎◌,
}
use healpipe.Prelude.Table.{any, find, select}
use healpipe.Prelude.Dict.{get, has_key}
use healpipe.Database.Schema.{DeliveryJob}
use healpipe.Database.Schema.Json.{ℤ, Value}
use healpipe.Database.State.{ok}
use healpipe.Database.Events.{promote_ai_healing}
use healpipe.Database.Jobs.{create_delivery_job}
use healpipe.Matching.Keys.{default_match_threshold, expected_alias, max_similarity, key_confidence}
use healpipe.Matching.Levenshtein.{levenshtein_distance, last_of, last_row, next_cells, range_from}
use healpipe.Matching.Similarity.{similarity, share_long_token, find_tokens, levenshtein_ratio}
use healpipe.Python.{score_ltb}
use healpipe.Services.SchemaResolution.{
  Claude, Resolution, read_answer, resolve_ambiguous_schema, valid_destination_keys,
}
use healpipe.Api.State.{Api}
use healpipe.Api.Receive.{uncertain_keys}
use healpipe.Api.Uncertain.{Print, Parked, forward, decide, resolve_and_forward_uncertain}
use healpipe.Api.Uncertain.FailClosed.{Holds, Forwards, forwarded_on_decision}
use healpipe.Api.Uncertain.Others.{other_uncertain_forwarded}
use healpipe.Samples.{sample_event}
use healpipe.Api.Samples.{setting, api}

abbrev parked : Parked
parked = record {
  event_id = 3;
  raw_payload = [];
  healed_payload =
      ("customer_id", Value.str "c1")
      ∷ ("email_address", Value.str "a")
      ∷ ("units", Value.int (ℤ.pos 4))
      ∷ ("colour", Value.str "red")
      ∷ [];
  key_mappings = [];
  uncertain_key = "units";
  target_url = "https://example.org";
  bridge_id = 9;
  account_id = 7;
}

abbrev parked_api : Api
parked_api = record api {
  db = record api.db {
    healing_events = record sample_event { healed_payload = parked.healed_payload } ∷ [];
  };
}

abbrev print : Print
print = record { error_text = λ e. "an error"; two_decimals = λ s. "0.90" }

-- A model that always names "stock_count", with a confidence of 0.9.
abbrev claude : Claude
claude = record {
  api_key = some "key";
  model = "a model";
  answer = λ payload key. ok "an answer";
  parse = λ text.
      some (record { mapped_key = "stock_count"; confidence = record { num = 9; den = 10 } });
}

abbrev forwarded : Api
forwarded = resolve_and_forward_uncertain setting print claude parked parked_api

forwarded_on_decision_example :
    Holds parked_api forwarded
    ⊎ ((r : Resolution) × (resolve_ambiguous_schema claude [] "units" ≡ ok r)
        × (contains r.mapped_key valid_destination_keys ≡ true)
        × Forwards setting parked r parked_api forwarded)
forwarded_on_decision_example = forwarded_on_decision setting print claude parked parked_api

abbrev expected : List String
expected = "customer_id" ∷ "email_address" ∷ []

two_uncertain : uncertain_keys setting expected parked.healed_payload ≡ "units" ∷ "colour" ∷ []
unfolding uncertain_keys select key_confidence expected_alias get max_similarity similarity
    share_long_token any find_tokens levenshtein_ratio levenshtein_distance last_of last_row
    next_cells range_from
two_uncertain = refl

a_job_is_stored : forwarded.db.delivery_jobs ≢ parked_api.db.delivery_jobs
unfolding resolve_and_forward_uncertain resolve_ambiguous_schema read_answer decide get
    promote_ai_healing find forward create_delivery_job
a_job_is_stored h = cc h

other_uncertain_forwarded_example :
    (job : DeliveryJob) × (forwarded.db.delivery_jobs ≡ parked_api.db.delivery_jobs ++ job ∷ [])
    × (get "colour" job.body ≡ get "colour" parked.healed_payload)
    × (has_key "colour" parked.healed_payload ≡ true)
    × (contains "colour" expected ≡ false)
    × (score_ltb (key_confidence setting.text "colour" expected) default_match_threshold ≡ true)
other_uncertain_forwarded_example =
    other_uncertain_forwarded setting print claude parked expected "colour" [] parked_api
      (refl, (refl, (refl, (refl, tt)))) two_uncertain a_job_is_stored
