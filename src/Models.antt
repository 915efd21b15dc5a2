-- ===== src/Models.antt =====
-- models.py: the enumerations, the capability object and the attempt response. The event's
-- validation stands in `Event`, its regular expressions in `Pattern`, and the other wire messages in
-- `Message`.
pub mod Pattern
pub mod Event
pub mod Message
use auditable_mcp_sdk_python.Base.{ℕ, Option, Str, text}
use auditable_mcp_sdk_python.Reasons.{Reason}

pub data Outcome : Type 0 where
  attempted success failed aborted : Outcome

-- The value of the enumeration, as it stands on the wire.
abbrev pub outcome_value : Outcome → Str
outcome_value attempted = text "attempted"
outcome_value success = text "success"
outcome_value failed = text "failed"
outcome_value aborted = text "aborted"

pub data Level : Type 0 where
  l1 l2 : Level

pub data Countersign : Type 0 where
  no_countersign host_countersign : Countersign

-- SPEC_VERSION
abbrev pub spec_version : Str
spec_version = text "auditable-mcp/0.4"

-- `attempt` has the one value 'request', so it is no field here.
pub record AuditCapability : Type 0 where
  pub version : Str
  pub level : Level
  pub countersign : Countersign

pub record AcceptResponse : Type 0 where
  pub seq : ℕ
  pub record_hash : Str
  pub host_ts : Str
  pub previous_hash : Str
  pub host_signature : Option Str
  pub host_key_id : Option Str
  pub log_id : Option Str

pub data AttemptResponse : Type 0 where
  accepted : AcceptResponse → AttemptResponse
  rejected : Reason → AttemptResponse
  unavailable : AttemptResponse
