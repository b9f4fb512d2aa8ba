-- ===== src/Database/State.antt =====
-- The database behind repository.py as one record of tables, and what a repository call returns.
-- `next_id` stands for `uuid4`, which is taken never to repeat a value.
use healpipe.Prelude.{ℕ, String, Bool, List, ◌≡◌, refl, ◌⊎◌, inl, inr}
use healpipe.Database.Schema.{
  Uuid, Account, AccountMember, GoogleIdentity, OnboardingProfile, AuditExport, ApiKey, AuditLog,
  HealingEventRecord, IdempotencyClaim, DigestRun, DeliveryJob, DeliveryAttempt, EventLifecycle,
  InventoryMapping, MappingRule, DataBridge,
}

pub record Db : Type 0 where
  -- `async_session is not None`: a DATABASE_URL is configured.
  pub configured : Bool
  pub next_id : ℕ
  -- The order of the UUIDs that the numbers stand for: it is not that of their creation.
  pub sorts_before : Uuid → Uuid → Bool
  pub accounts : List Account
  pub account_members : List AccountMember
  pub google_identities : List GoogleIdentity
  pub onboarding_profiles : List OnboardingProfile
  pub api_keys : List ApiKey
  pub audit_logs : List AuditLog
  pub audit_exports : List AuditExport
  pub healing_events : List HealingEventRecord
  pub idempotency_claims : List IdempotencyClaim
  pub digest_runs : List DigestRun
  pub delivery_jobs : List DeliveryJob
  pub delivery_attempts : List DeliveryAttempt
  pub event_lifecycle : List EventLifecycle
  pub inventory_mappings : List InventoryMapping
  pub mapping_rules : List MappingRule
  pub data_bridges : List DataBridge

-- The exceptions that the code raises or lets pass, with their texts.
pub data Error : Type 0 where
  runtime_error lookup_error value_error attribute_error type_error : String → Error
  multiple_results_found index_error : Error
  -- An exception that the code neither raises nor catches.
  unhandled : String → Error
  http_exception : ℕ → String → Error

pub data Result {ℓ} (A : Type ℓ) : Type ℓ where
  ok : A → Result A
  err : Error → Result A

-- To split on a computed result and keep the equation.
pub Result-cases {ℓ} :
    {A : Type ℓ} (r : Result A) → ((a : A) × (r ≡ ok a)) ⊎ ((e : Error) × (r ≡ err e))
Result-cases (ok a) = inl (a, refl)
Result-cases (err e) = inr (e, refl)
