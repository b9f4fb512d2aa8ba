-- ===== src/Database/Idempotency/Tests.antt =====
-- The theorems on claims at a concrete key.
use healpipe.Prelude.{ℕ, true, ◌&&◌, some, List, [], ◌∷◌, ◌==◌, nat_eq, ltb, ◌≡◌, refl, arith}
use healpipe.Prelude.Table.{count_where, find, any, update_where}
use healpipe.Database.State.{Db}
use healpipe.Database.Idempotency.{has_key, claim_idempotency_key}
use healpipe.Database.Idempotency.Claims.{IsUnique}
use healpipe.Database.Idempotency.Exclusive.{ClaimCall, run_claims, claims_exclusive, claim_held}
use healpipe.Samples.{empty_db, sample_claim}

no_claims-IsUnique : IsUnique empty_db.idempotency_claims
unfolding count_where
no_claims-IsUnique = record { keys = λ b key. ground arith }

abbrev after_claim : Db
after_claim = (claim_idempotency_key 9 3 "order-1" 100 50 empty_db).1

abbrev rivals : List ClaimCall
rivals =
    record { bridge_id = 9; event_id = 5; key = "order-1"; ttl = 100; now = 55 }
    ∷ record { bridge_id = 9; event_id = 6; key = "order-2"; ttl = 100; now = 56 }
    ∷ []

first_claim : (claim_idempotency_key 9 3 "order-1" 100 50 empty_db).0 ≡ true
unfolding claim_idempotency_key find any
first_claim = refl

second_claim : (claim_idempotency_key 9 3 "order-1" 100 60 (run_claims rivals after_claim)).0 ≡ true
unfolding claim_idempotency_key find any update_where run_claims
second_claim = refl

claims_exclusive_example : ◌≡◌ {A = ℕ} 3 3
claims_exclusive_example =
    claims_exclusive 9 3 3 "order-1" 100 100 50 60 rivals empty_db no_claims-IsUnique refl
      first_claim second_claim

abbrev claimed_db : Db
claimed_db = record empty_db { idempotency_claims = sample_claim 150 ∷ [] }

claimed_db-IsUnique : IsUnique claimed_db.idempotency_claims
unfolding count_where
claimed_db-IsUnique = record { keys = λ b key. ground arith }

found_claim : find (has_key 9 "order-1") claimed_db.idempotency_claims ≡ some (sample_claim 150)
unfolding find
found_claim = refl

claim_held_example :
    claim_idempotency_key 9 3 "order-1" 100 200 claimed_db
    ≡ (ltb 200 150 && ◌==◌ {A = ℕ} 3 3, claimed_db)
claim_held_example =
    claim_held 9 3 "order-1" 100 200 claimed_db (sample_claim 150) claimed_db-IsUnique refl
      found_claim
