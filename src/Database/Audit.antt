-- ===== src/Database/Audit.antt =====
-- database/repository.py: the audit log, the records of exports, and what an export hides.
mod Complete
pub mod Events
pub mod Redaction
pub mod Trail
mod Tests
use healpipe.Prelude.{ℕ, suc, String, Option, none, some, List, [], ◌∷◌, ◌++◌, if◌then◌else◌}
use healpipe.Database.Schema.{Uuid, Time, AuditLog, AuditExport, ExportFormat}
use healpipe.Database.Schema.Json.{Payload}
use healpipe.Database.State.{Db, Result, ok, err, runtime_error}

-- The callers give no state before, no request and no address.
unfoldable pub write_audit_log :
    Uuid → String → String → String → String → Option Payload → Time → Db → Db
write_audit_log account actor action object_type object_id after_state now db =
    if db.configured
    then record db {
      next_id = suc db.next_id;
      audit_logs =
          db.audit_logs
          ++ record {
            audit_id = db.next_id;
            account_id = account;
            actor_id = actor;
            action = action;
            object_type = object_type;
            object_id = object_id;
            before_state = none;
            after_state = after_state;
            request_id = none;
            ip_address = none;
            created_at = now;
          }
            ∷ [];
    }
    else db

unfoldable pub create_audit_export :
    Uuid → String → ExportFormat → Payload → ℕ → Option String → Time → Db → Result AuditExport × Db
create_audit_export account requested_by export_format filters row_count file_sha256 now db =
    let export : AuditExport = record {
      export_id = db.next_id;
      account_id = account;
      requested_by = requested_by;
      export_format = export_format;
      filters = filters;
      row_count = row_count;
      file_sha256 = file_sha256;
      created_at = now;
    } in
    if db.configured
    then (
      ok export,
      record db { next_id = suc db.next_id; audit_exports = db.audit_exports ++ export ∷ [] },
    )
    else (err (runtime_error "DATABASE_URL is not configured"), db)
