-- ===== src/Services/Tests.antt =====
-- The theorems on the weekly digest at concrete events.
use healpipe.Prelude.{ℕ, ◌+◌, ◌-◌, ◌*◌, ◌≤◌, true, not, [], ◌∷◌, ◌≡◌, refl, inl, arith, Among}
use healpipe.Prelude.Table.{select, any}
use healpipe.Database.Schema.{Uuid, DataBridge, HealingEventRecord, EventStatus}
use healpipe.Database.State.{Db}
use healpipe.Database.Idempotency.{claim_digest_run}
use healpipe.Services.Digest.{
  period_start, week_seconds, digest_events, is_running, digest_loop, run_validation_digest,
}
use healpipe.Services.Digest.Once.{was_running, digest_once, digest_repeats}
use healpipe.Samples.{empty_db, sample_event}

-- A Tuesday at noon, and an event of an hour before.
abbrev tuesday : ℕ
tuesday = 86400 * 5 + 43200

abbrev healed_event : HealingEventRecord
healed_event = record sample_event { status = EventStatus.healed; created_at = tuesday - 3600 }

abbrev shop : Uuid → DataBridge
shop i = record {
  bridge_id = i;
  account_id = 7;
  bridge_name = "Shop";
  source_platform = "shop";
  target_endpoint_url = "https://example.org";
  signature_secret = "s";
  is_active = true;
  created_at = 1;
}

abbrev digest_db : Db
digest_db = record empty_db { healing_events = healed_event ∷ []; data_bridges = shop 9 ∷ [] }

same_week : period_start (tuesday + 86400) ≡ period_start tuesday
unfolding period_start
same_week = refl

-- A second bridge is created after the first run.
abbrev next_db : Db
next_db = record (run_validation_digest tuesday digest_db).1 { data_bridges = shop 9 ∷ shop 8 ∷ [] }

next_on : next_db.configured ≡ true
unfolding run_validation_digest digest_loop select claim_digest_run any
next_on = refl

digest_once_example :
    run_validation_digest (tuesday + 86400) next_db
    ≡ digest_loop
        (tuesday + 86400)
        (select (λ b. not (was_running digest_db b)) (select is_running next_db.data_bridges))
        next_db
digest_once_example =
    digest_once tuesday (tuesday + 86400) digest_db next_db refl next_on same_week (λ b start h. h)

in_week : period_start tuesday ≤ healed_event.created_at
unfolding period_start
in_week = omega arith

digest_repeats_example :
    Among healed_event (digest_events 9 tuesday digest_db)
    × Among healed_event (digest_events 9 (tuesday + week_seconds) digest_db)
digest_repeats_example =
    digest_repeats 9 tuesday healed_event digest_db (omega arith) (inl refl) refl refl in_week
