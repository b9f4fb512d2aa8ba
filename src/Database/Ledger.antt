-- ===== src/Database/Ledger.antt =====
-- database/repository.py: the event lifecycle ledger, its reconciliation counters and the counts
-- of events by status.
pub mod Counters
mod Tests
use healpipe.Prelude.{
  ℕ, suc, ◌-◌, String, Bool, true, false, not, ◌&&◌, Option, none, some, List, [], ◌∷◌, ◌++◌, ◌==◌,
  nat_eq, if◌then◌else◌, contains, length,
}
use healpipe.Prelude.Table.{select, find, count_where}
use healpipe.Database.Schema.{
  Uuid, Time, EventLifecycle, LifecycleState, DeliveryJob, HealingEventRecord, EventStatus,
}
use healpipe.Database.State.{Db}
use healpipe.Database.Jobs.{has_job_id}

-- The row of a lifecycle entry; `http_status` is what the metadata holds.
abbrev pub entry :
    Uuid
    → Uuid
    → Uuid
    → Uuid
    → LifecycleState
    → Option Uuid
    → Option ℕ
    → Option String
    → Option ℕ
    → Time
    → EventLifecycle
entry lifecycle_id event b account state job_id attempt_number reason http_status now = record {
  lifecycle_id = lifecycle_id;
  account_id = account;
  bridge_id = b;
  event_id = event;
  job_id = job_id;
  state = state;
  attempt_number = attempt_number;
  reason = reason;
  http_status = http_status;
  occurred_at = now;
}

abbrev pub add_entry : EventLifecycle → Db → Db
add_entry e db = record db {
  next_id = suc db.next_id;
  event_lifecycle = db.event_lifecycle ++ e ∷ [];
}

unfoldable pub append_event_lifecycle :
    Uuid → Uuid → Uuid → LifecycleState → Option Uuid → Option String → Time → Db → Db
append_event_lifecycle event b account state job_id reason now db =
    if db.configured
    then add_entry (entry db.next_id event b account state job_id none reason none now) db
    else db

-- Nothing is written for a job that is not there.
unfoldable pub append_job_lifecycle :
    Uuid → LifecycleState → Option ℕ → Option String → Option ℕ → Time → Db → Db
append_job_lifecycle job_id state attempt_number reason http_status now db =
    if db.configured
    then elim (find (has_job_id job_id) db.delivery_jobs) [
      | none ↦ db
      | some job ↦
          add_entry
            (entry db.next_id job.event_id job.bridge_id job.account_id state (some job.job_id)
              attempt_number reason http_status now)
            db
    ]
    else db

abbrev pub is_state : LifecycleState → LifecycleState → Bool
is_state LifecycleState.received LifecycleState.received = true
is_state LifecycleState.delivered LifecycleState.delivered = true
is_state LifecycleState.delivery_failed LifecycleState.delivery_failed = true
is_state LifecycleState.dead_lettered LifecycleState.dead_lettered = true
is_state _ _ = false

-- The states of the query that the schema allows; "dropped", which it also names, is none.
abbrev pub is_terminal : LifecycleState → Bool
is_terminal LifecycleState.delivered = true
is_terminal LifecycleState.delivery_failed = true
is_terminal LifecycleState.dead_lettered = true
is_terminal LifecycleState.rejected = true
is_terminal LifecycleState.idempotency_blocked = true
is_terminal _ = false

abbrev pub in_scope : Uuid → Uuid → (LifecycleState → Bool) → EventLifecycle → Bool
in_scope account b p e = e.account_id == account && (e.bridge_id == b && p e.state)

-- `count(distinct(event_id))`
unfoldable pub distinct_events : List EventLifecycle → List Uuid
distinct_events [] = []
distinct_events (e ∷ es) =
    let rest = distinct_events es in if contains e.event_id rest then rest else e.event_id ∷ rest

abbrev pub count_distinct : (EventLifecycle → Bool) → List EventLifecycle → ℕ
count_distinct p es = length (distinct_events (select p es))

pub record Reconciliation : Type 0 where
  pub received_count : ℕ
  pub delivered_count : ℕ
  pub failed_count : ℕ
  pub pending_count : ℕ
  pub dead_letter_count : ℕ
  pub unaccounted_count : ℕ

abbrev pub nothing_counted : Reconciliation
nothing_counted = record {
  received_count = 0;
  delivered_count = 0;
  failed_count = 0;
  pending_count = 0;
  dead_letter_count = 0;
  unaccounted_count = 0;
}

-- `max(a - b, 0)` over the integers is `a - b` over the natural numbers.
unfoldable pub fetch_reconciliation : Uuid → Uuid → Db → Reconciliation
fetch_reconciliation b account db =
    let count =
      λ (s : LifecycleState). count_distinct (in_scope account b (is_state s)) db.event_lifecycle in
    let received =
      count_where (in_scope account b (is_state LifecycleState.received)) db.event_lifecycle in
    let terminal = count_distinct (in_scope account b is_terminal) db.event_lifecycle in
    let pending = received - terminal in
    if db.configured
    then record {
      received_count = received;
      delivered_count = count LifecycleState.delivered;
      failed_count = count LifecycleState.delivery_failed;
      pending_count = pending;
      dead_letter_count = count LifecycleState.dead_lettered;
      unaccounted_count = received - terminal - pending;
    }
    else nothing_counted

pub record EventStats : Type 0 where
  pub validated : ℕ
  pub healed : ℕ
  pub rejected : ℕ
  pub uncertain : ℕ
  pub delivery_failed : ℕ
  pub dropped : ℕ
  pub idempotency_blocked : ℕ

abbrev pub status_code : EventStatus → ℕ
status_code EventStatus.validated = 0
status_code EventStatus.healed = 1
status_code EventStatus.rejected = 2
status_code EventStatus.uncertain = 3
status_code EventStatus.delivery_failed = 4
status_code EventStatus.dropped = 5
status_code EventStatus.idempotency_blocked = 6

abbrev pub of_bridge : Option Uuid → HealingEventRecord → Bool
of_bridge none e = true
of_bridge (some b) e = e.bridge_id == b

abbrev pub count_status : Option Uuid → EventStatus → Db → ℕ
count_status b s db =
    if db.configured
    then count_where (λ e. of_bridge b e && status_code e.status == status_code s) db.healing_events
    else 0

-- GROUP BY status, over the statuses that the dict starts with.
unfoldable pub fetch_event_stats : Option Uuid → Db → EventStats
fetch_event_stats b db = record {
  validated = count_status b EventStatus.validated db;
  healed = count_status b EventStatus.healed db;
  rejected = count_status b EventStatus.rejected db;
  uncertain = count_status b EventStatus.uncertain db;
  delivery_failed = count_status b EventStatus.delivery_failed db;
  dropped = count_status b EventStatus.dropped db;
  idempotency_blocked = count_status b EventStatus.idempotency_blocked db;
}
