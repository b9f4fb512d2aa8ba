-- ===== src/Database/Ledger/Counters.antt =====
-- What the reconciliation counters and the statistics add up to.
use healpipe.Prelude.{ℕ, ◌&&◌, Option, List, ◌≡◌, ◌==◌, nat_eq, arith}
use healpipe.Prelude.Table.{count_where}
use healpipe.Database.Schema.{Uuid, HealingEventRecord, EventStatus}
use healpipe.Database.State.{Db}
use healpipe.Database.Ledger.{fetch_reconciliation, of_bridge, status_code}

-- Whatever the ledger holds, the reconciliation reports no unaccounted event: the counter is
-- computed from the pending count in such a way that it is always 0.
pub unaccounted_always_zero :
    (b account : Uuid) (db : Db) → (fetch_reconciliation b account db).unaccounted_count ≡ 0
unfolding fetch_reconciliation
unaccounted_always_zero b account db = ground arith

module _ (b : Option Uuid) where
  abbrev counted : EventStatus → List HealingEventRecord → ℕ
  counted s events =
      count_where (λ e. of_bridge b e && status_code e.status == status_code s) events
