-- ===== src/Database/Idempotency.antt =====
-- database/repository.py: the claims of idempotency keys and of digest runs, whose unique
-- constraints turn a second insert into an IntegrityError.
pub mod Claims
pub mod Exclusive
mod Tests
use healpipe.Prelude.{
  ℕ, suc, ◌+◌, String, Bool, true, false, ◌&&◌, Option, none, some, List, [], ◌∷◌, ◌++◌, ◌==◌,
  nat_eq, string_eq, ltb, leb, if◌then◌else◌,
}
use healpipe.Prelude.Table.{find, any, update_where}
use healpipe.Database.Schema.{Uuid, Time, IdempotencyClaim, DigestRun, default_account_id}
use healpipe.Database.State.{Db}

-- The columns of uq_idempotency_claim_bridge_key.
abbrev pub has_key : Uuid → String → IdempotencyClaim → Bool
has_key b key c = c.bridge_id == b && c.idempotency_key == key

abbrev pub is_live : Uuid → String → Time → IdempotencyClaim → Bool
is_live b key now c = has_key b key c && ltb now c.expires_at

abbrev pub is_expired : Time → IdempotencyClaim → Bool
is_expired now c = leb c.expires_at now

abbrev pub expire : Time → IdempotencyClaim → IdempotencyClaim
expire now c = record c { expires_at = now }

abbrev pub new_claim : Uuid → Uuid → String → ℕ → Time → Db → IdempotencyClaim
new_claim b event key ttl now db = record {
  claim_id = db.next_id;
  account_id = default_account_id;
  bridge_id = b;
  idempotency_key = key;
  event_id = event;
  expires_at = now + ttl;
}

-- The default of `ttl_seconds`.
abbrev pub claim_ttl : ℕ
claim_ttl = 86400

-- An IntegrityError rolls the whole transaction back, the update of the expired rows too.
unfoldable pub claim_idempotency_key : Uuid → Uuid → String → ℕ → Time → Db → Bool × Db
claim_idempotency_key b event key ttl now db =
    if db.configured
    then elim (find (is_live b key now) db.idempotency_claims) [
      | some existing ↦ (existing.event_id == event, db)
      | none ↦ if any (has_key b key) db.idempotency_claims then (false, db) else (
        true,
        record db {
          next_id = suc db.next_id;
          idempotency_claims =
              update_where (is_expired now) (expire now) db.idempotency_claims
              ++ new_claim b event key ttl now db ∷ [];
        },
      )
    ]
    else (true, db)

-- The columns of uq_digest_run_bridge_period.
abbrev pub is_run_of : Uuid → Time → DigestRun → Bool
is_run_of b start r = r.bridge_id == b && r.period_start == start

abbrev pub new_run : Uuid → Time → Time → Db → DigestRun
new_run b start now db = record {
  digest_id = db.next_id;
  account_id = default_account_id;
  bridge_id = b;
  period_start = start;
  sent_at = now;
}

unfoldable pub claim_digest_run : Uuid → Time → Time → Db → Bool × Db
claim_digest_run b start now db =
    if db.configured
    then (if any (is_run_of b start) db.digest_runs then (false, db) else (
      true,
      record db {
        next_id = suc db.next_id;
        digest_runs = db.digest_runs ++ new_run b start now db ∷ [];
      },
    ))
    else (false, db)
