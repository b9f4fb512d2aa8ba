-- ===== src/Services/Digest.antt =====
-- services/scheduler.py: the weekly digest. A time is a number of seconds since 1970-01-01, in UTC;
-- nothing is said of the week of that day, which has no Monday.
pub mod Weeks
pub mod Once
use healpipe.Prelude.{
  ℕ, ◌+◌, ◌-◌, ◌*◌, ◌/◌, ◌%◌, Bool, true, false, ◌&&◌, List, [], ◌∷◌, ◌==◌, nat_eq, leb,
  if◌then◌else◌,
}
use healpipe.Prelude.Table.{select}
use healpipe.Database.Schema.{Uuid, Time, DataBridge, HealingEventRecord, EventStatus}
use healpipe.Database.State.{Db}
use healpipe.Database.Idempotency.{claim_digest_run}

abbrev pub day_seconds : ℕ
day_seconds = 86400

abbrev pub week_seconds : ℕ
week_seconds = 604800

-- `now.weekday()`, 0 for a Monday: day 0 is a Thursday.
unfoldable pub weekday : Time → ℕ
weekday now = (now / day_seconds + 3) % 7

-- The midnight with which the week of `now` begins.
unfoldable pub period_start : Time → Time
unfolding weekday
period_start now = (now / day_seconds - weekday now) * day_seconds

unfoldable pub cutoff : Time → Time
unfolding period_start
cutoff now = period_start now - week_seconds

-- `status in ["validated", "healed"]`
abbrev pub is_delivered_status : EventStatus → Bool
is_delivered_status EventStatus.validated = true
is_delivered_status EventStatus.healed = true
is_delivered_status _ = false

abbrev pub is_in_digest : Uuid → Time → HealingEventRecord → Bool
is_in_digest b from e = e.bridge_id == b && (leb from e.created_at && is_delivered_status e.status)

-- The events of one bridge's digest.
unfoldable pub digest_events : Uuid → Time → Db → List HealingEventRecord
unfolding cutoff
digest_events b now db = select (is_in_digest b (cutoff now)) db.healing_events

abbrev pub is_running : DataBridge → Bool
is_running b = b.is_active

-- A digest with no events is not sent.
abbrev pub with_digest :
    List HealingEventRecord → List (List HealingEventRecord) → List (List HealingEventRecord)
with_digest [] sent = sent
with_digest (e ∷ es) sent = (e ∷ es) ∷ sent

-- The loop over the bridges, with the digests that are sent, in their order.
unfoldable pub digest_loop : Time → List DataBridge → Db → List (List HealingEventRecord) × Db
unfolding period_start
digest_loop now [] db = ([], db)
digest_loop now (b ∷ bridges) db =
    let (claimed, db) = claim_digest_run b.bridge_id (period_start now) now db in
    let (sent, after) = digest_loop now bridges db in
    (if claimed then with_digest (digest_events b.bridge_id now db) sent else sent, after)

unfoldable pub run_validation_digest : Time → Db → List (List HealingEventRecord) × Db
run_validation_digest now db =
    if db.configured then digest_loop now (select is_running db.data_bridges) db else ([], db)
