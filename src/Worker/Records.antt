-- ===== src/Worker/Records.antt =====
-- The rows of the tables of collections, idempotency keys and audit events (database.py,
-- repositories.py).
use hass_clips_manager.Prelude.{ℕ, String, Option, List}
use hass_clips_manager.Worker.Domain.{CollectionCreate, CollectionPatch, CollectionRecord}

-- A row of `collections`
pub record Row : Type 0 where
  pub collection : CollectionRecord
  pub created_at : String
  pub updated_at : String

pub data Payload : Type 0 where
  creation : CollectionCreate → Payload
  changes : CollectionPatch → Payload
  demotion : (replaced_by : String) → (prior_revision : ℕ) → Payload

-- What `_fingerprint` digests
pub record Material : Type 0 where
  pub actor : String
  pub operation : String
  pub target : String
  pub revision : Option ℕ
  pub payload : Payload

-- A row of `idempotency_records`
pub record Remembered : Type 0 where
  pub request_id : String
  pub actor : String
  pub operation : String
  pub response : CollectionRecord
  pub created_at : String
  pub fingerprint : String

-- A row of `audit_events`
pub record AuditEvent : Type 0 where
  pub action : String
  pub target : String
  pub actor : String
  pub request_id : String
  pub payload : Payload
  pub occurred_at : String

pub record Tables : Type 0 where
  pub collections : List Row
  pub profile_ids : List String
  pub remembered : List Remembered
  pub audit : List AuditEvent

pub data RepositoryError : Type 0 where
  optimistic_conflict idempotency_conflict value_error : RepositoryError
  resource_not_found key_error : String → RepositoryError

-- Who asks, under which request id, and when
pub record Caller : Type 0 where
  pub actor : String
  pub request_id : String
  pub now : String
