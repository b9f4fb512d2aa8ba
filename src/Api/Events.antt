-- ===== src/Api/Events.antt =====
-- main.py: the routes that list events and their counters, and the audit of an event.
use healpipe.Prelude.{ℕ, ◌||◌, Option, none, some, List, ltb, if◌then◌else◌}
use healpipe.Database.Schema.{Uuid}
use healpipe.Database.State.{Result, ok, err, http_exception}
use healpipe.Database.Ledger.{Reconciliation, EventStats, fetch_reconciliation, fetch_event_stats}
use healpipe.Database.Audit.Events.{ListedEvent, EventAudit, fetch_healing_events}
use healpipe.Database.Audit.Trail.{fetch_event_audit}
use healpipe.Api.State.{Route, Request, Setting, check}
use healpipe.Api.Access.{require_bridge_account}

unfoldable pub get_webhook_events :
    Setting → Request → (limit : ℕ) → Option Uuid → Route (List ListedEvent)
get_webhook_events s request limit bridge_id api =
    if ltb limit 1 || ltb 500 limit
    then (err (http_exception 400 "limit must be between 1 and 500"), api)
    else elim bridge_id [
      | some b ↦
          check (require_bridge_account s request b (some "events:read") api.db)
            (λ _ api. (ok (fetch_healing_events limit (some b) api.db), api)) api
      | none ↦
          if s.account_auth_required
          then (
            err (http_exception 400 "bridge_id is required for account-scoped event queries"),
            api,
          )
          else (ok (fetch_healing_events limit none api.db), api)
    ]

unfoldable pub get_webhook_stats : Setting → Request → Option Uuid → Route EventStats
get_webhook_stats s request bridge_id api = elim bridge_id [
  | none ↦ (ok (fetch_event_stats none api.db), api)
  | some b ↦
      check (require_bridge_account s request b (some "events:read") api.db)
        (λ _ api. (ok (fetch_event_stats (some b) api.db), api)) api
]

unfoldable pub get_reconciliation : Setting → Request → Uuid → Route Reconciliation
get_reconciliation s request bridge_id api =
    check (require_bridge_account s request bridge_id (some "events:read") api.db)
      (λ granted api. (ok (fetch_reconciliation bridge_id granted.0 api.db), api)) api

abbrev pub found_audit : Result (Option EventAudit) → Result EventAudit
found_audit (err e) = err e
found_audit (ok none) = err (http_exception 404 "Event audit was not found")
found_audit (ok (some audit)) = ok audit

unfoldable pub get_event_audit : Setting → Request → Uuid → Uuid → Route EventAudit
get_event_audit s request event_id bridge_id api =
    check (require_bridge_account s request bridge_id (some "events:read") api.db)
      (λ _ api. (found_audit (fetch_event_audit event_id bridge_id api.db), api)) api
