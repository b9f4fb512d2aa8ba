-- ===== src/Lib.antt =====
-- HealPipe receives webhooks of a bridge, renames their keys to those of the destination, and
-- delivers them with retries. This library models its Python back end: who may do what, what is
-- stored, how keys are matched, and how a job is delivered.
--
-- The parts, and the files that model them:
--
-- - database/models.py: Database/Schema.antt has a record for each table that a modelled operation
--   reads or writes, and a data type for each status column with a CHECK constraint;
--   Database/Schema/Json.antt has the JSON values. Database/State.antt has the database as one
--   record of tables, and the exceptions.
-- - database/repository.py: Database/Mapping.antt (create_mapping_rule, approve_mapping_rule,
--   disable_mapping_rule, rollback_mapping_rule, fetch_active_mapping_snapshot,
--   fetch_bridge_inventory_mappings); Database/Idempotency.antt (claim_idempotency_key,
--   claim_digest_run); Database/Jobs.antt (create, update, get, replay and list delivery jobs,
--   record_delivery_attempt, fetch_recoverable_delivery_jobs); Database/Ledger.antt
--   (append_event_lifecycle, append_job_lifecycle, fetch_reconciliation, fetch_event_stats);
--   Database/Events.antt (persist_healing_event and the later changes of an event);
--   Database/Triage.antt (resolve_triage_event); Database/Bridges.antt (the bridges, with the two
--   routes of main.py that change one); Database/Accounts.antt (accounts, Google identities,
--   profiles and API keys); Database/Audit.antt (write_audit_log, create_audit_export),
--   Database/Audit/Redaction.antt (redact_export_value), Database/Audit/Events.antt
--   (fetch_healing_events) and Database/Audit/Trail.antt (fetch_event_audit).
-- - main.py, core/auth.py and database/schemas.py: Api/State.antt has what a route works on: the
--   database, the queue, the tasks that run after its response, the request and the settings.
--   Api/Access.antt has the checks (bearer_session, request_account, require_role,
--   require_bridge_account, require_operator), Api/Webhook.antt the request and the response of a
--   webhook, Api/Receive.antt receive_webhook, which composes Intake, Matching, Database and
--   Worker/Pool.antt, Api/Uncertain.antt the task resolve_and_forward_uncertain that it leaves for
--   an uncertain webhook, Api/Mappings.antt the
--   routes on mapping rules, Api/Deliveries.antt the replays, Api/Triage.antt resolve_triage,
--   Api/Accounts.antt the sign-in and the routes of accounts and keys, and Api/Events.antt the list
--   of the events, their counters and the audit of one.
-- - core/ai_agent.py and services/scheduler.py: Services/SchemaResolution.antt
--   (resolve_ambiguous_schema) and Services/Digest.antt (run_validation_digest).
-- - core/algorithms.py: Matching/Levenshtein.antt, Matching/Similarity.antt, Matching/Keys.antt
--   (best_key_match, key_confidence), Matching/Payloads.antt (map_payload_keys) and
--   Matching/Persisted.antt (apply_persisted_mappings, and the dry run test_bridge_mapping of
--   main.py). These call the snapshot of Database/Mapping.antt.
-- - core/normalizer.py and core/security.py: Intake/Normalizer.antt and Intake/Security.antt.
-- - services/outbound.py: Services/Outbound.antt (retry_backoff_seconds, is_retryable_response,
--   forward_payload).
-- - core/queue_worker.py: Worker/Claims.antt (_claim), Worker/Delivery.antt (_run_job_on_loop, with
--   the calls it makes of the repository and of outbound.py), Worker/Pool.antt (the queue,
--   start_queue_workers, enqueue_delivery, stop_queue_workers, _worker_loop). Worker/Recovery.antt
--   has one round of recovery_loop of worker.py and of delivery_recovery_loop of main.py.
--
-- A component's theorems stand in its child modules. Prelude has what all share: tests on numbers
-- and texts, tables with SELECT, COUNT and UPDATE, and Python's dict as an association list.
-- Samples has the data of the tests.
--
-- How the code is read:
--
-- - A repository function takes the database and the time and returns its result with the database
--   after it. A function that finds no configured DATABASE_URL (`configured` is false) returns what
--   the source returns then. Calls are serial transactions: row locks, lost connections and other
--   failures of the database are not modelled. A unique constraint that an insert would break is a
--   branch, with what the source does on the IntegrityError. So is the index of the active rules,
--   which the commit of an activation breaks by the order of its two UPDATEs: SQLAlchemy documents
--   that a flush writes the rows of a table in the order of their primary keys. The order of UUIDs
--   is a field of Db (sorts_before), of which nothing is asked.
-- - A UUID is a number, and `uuid4` the next unused one: it is taken never to repeat. A datetime is
--   a number of seconds; a call reads the clock once.
-- - A float between 0 and 1 that is a quotient (a score) is kept as its numerator and denominator
--   and compared by cross-multiplication, without rounding; another float is its bit pattern.
-- - Unicode and number parsing (strip, lower, casefold, int, float, SequenceMatcher) are a record of
--   functions, Python.Text, of which one law is asked: stripping twice is stripping once. HMAC,
--   httpx, SHA-256, the session serializer, Google's verification and the language model are
--   functions or records of functions too, and the outcome of a POST is an argument.
-- - A route takes its state and returns a result or an exception with the state after it. What the
--   web framework does to the exception and to the types of a request is not modelled.
-- - Every loop is structural recursion: no definition has fuel.
-- - The worker model runs one job at a time. Its module state is World and Pool; an alert is
--   recorded by its event.
--
-- Not modelled: fetch_export_events and list_mapping_rules with their routes and the files of an
-- export, the routes that list and create bridges, the endless loops of worker.py and of the
-- scheduler around one round, e-mail, the set-up of the connection and the migrations, and the front
-- end under src.
pub mod Api
pub mod Prelude
pub mod Database
pub mod Python
pub mod Matching
pub mod Services
pub mod Worker
pub mod Intake
pub mod Samples
