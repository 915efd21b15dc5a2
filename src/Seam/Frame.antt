-- ===== src/Seam/Frame.antt =====
-- mcp/seam.py: JSON-RPC messages, and what the seam reads in them.
use auditable_mcp_sdk_python.Base.{
  ◌≡◌, ◌↔◌, ap, ℕ, Bool, true, false, not, Option, none, some, List, [], ◌∷◌, Str, text, nat_eq,
  nat_eq_iff, str_eq, str_eq_iff, arith, Str_eq, if◌then◌else◌,
}
use auditable_mcp_sdk_python.Base.Equality.{Eq}
use auditable_mcp_sdk_python.Base.Lists.{member}
use auditable_mcp_sdk_python.Json.{
  ℤ, pos, negsuc, Json, int, str, obj, Items, nil, cons, Fields, end, get, is_str,
}
use auditable_mcp_sdk_python.Fields
use auditable_mcp_sdk_python.Capability.{NegotiationResult, no_session, negotiate, is_negotiated}
use auditable_mcp_sdk_python.Models.{AuditCapability, AttemptResponse, unavailable}
use auditable_mcp_sdk_python.Models.Message.{read_attempt_response}
use auditable_mcp_sdk_python.Declaration.{capability_of}

-- A JSON-RPC id. Two are one call's only with one type and one value, as `_key` has it.
pub data RequestId : Type 0 where
  number : ℤ → RequestId
  name : Str → RequestId

abbrev pub int_eq : ℤ → ℤ → Bool
int_eq (pos a) (pos b) = nat_eq a b
int_eq (negsuc a) (negsuc b) = nat_eq a b
int_eq _ _ = false

int_eq_iff : (a b : ℤ) → (int_eq a b ≡ true) ↔ (a ≡ b)
int_eq_iff (pos a) (pos b) =
    (λ h. ground (arith, nat_eq_iff a b), λ h. ground (arith, nat_eq_iff a b))
int_eq_iff (negsuc a) (negsuc b) =
    (λ h. ground (arith, nat_eq_iff a b), λ h. ground (arith, nat_eq_iff a b))
int_eq_iff (pos a) (negsuc b) = (λ h. cc, λ h. cc)
int_eq_iff (negsuc a) (pos b) = (λ h. cc, λ h. cc)

abbrev pub id_eq : RequestId → RequestId → Bool
id_eq (number a) (number b) = int_eq a b
id_eq (name s) (name t) = str_eq s t
id_eq _ _ = false

pub id_eq_iff : (a b : RequestId) → (id_eq a b ≡ true) ↔ (a ≡ b)
id_eq_iff (number a) (number b) =
    (λ h. ap number ((int_eq_iff a b).0 h), λ h. (int_eq_iff a b).1 cc)
id_eq_iff (name s) (name t) = (λ h. ap name ((str_eq_iff s t).0 h), λ h. (str_eq_iff s t).1 cc)
id_eq_iff (number a) (name t) = (λ h. cc, λ h. cc)
id_eq_iff (name s) (number b) = (λ h. cc, λ h. cc)

instance abbrev pub RequestId_eq : Eq RequestId
RequestId_eq = record { beq = id_eq; beq_iff = id_eq_iff }

-- The key of a value that is a request's id; a value of another type has a key of its own, which is
-- that of no request.
unfoldable pub key : Option Json → Option RequestId
key (some (int z)) = some (number z)
key (some (str s)) = some (name s)
key _ = none

abbrev pub id_json : RequestId → Json
id_json (number z) = int z
id_json (name s) = str s

pub record ErrorData : Type 0 where
  pub error_code : ℤ
  pub message : Str
  pub details : Option Json

-- The body of a JSONRPCResponse or of a JSONRPCError.
pub data Body : Type 0 where
  result : Fields → Body
  error : ErrorData → Body

pub data Frame : Type 0 where
  request : RequestId → Str → Option Fields → Frame
  notification : Str → Option Fields → Frame
  answer : RequestId → Body → Frame

abbrev pub attempt_method : Str
attempt_method = text "audit/attempt"

abbrev pub outcome_method : Str
outcome_method = text "audit/outcome"

abbrev pub tools_call_method : Str
tools_call_method = text "tools/call"

abbrev pub cancelled_method : Str
cancelled_method = text "notifications/cancelled"

abbrev pub initialize_method : Str
initialize_method = text "initialize"

abbrev pub discover_method : Str
discover_method = text "server/discover"

abbrev pub result_type : Str
result_type = text "resultType"

abbrev pub input_required : Str
input_required = text "input_required"

abbrev pub request_state : Str
request_state = text "requestState"

abbrev pub meta : Str
meta = text "_meta"

abbrev pub request_id : Str
request_id = text "requestId"

abbrev pub task : Str
task = text "task"

abbrev pub events : Str
events = text "events"

abbrev pub capabilities : Str
capabilities = text "capabilities"

-- What the official MCP packages name, and what the regular expressions' engine takes for a digit.
pub record Protocol : Type 0 where
  pub protocol_version_key : Str
  pub client_capabilities_key : Str
  pub modern_versions : List Str
  pub invalid_params : ℤ
  pub is_digit : ℕ → Bool

-- A member that is an object, and otherwise an empty one.
abbrev pub object_at : Str → Fields → Fields
object_at k fs = elim (get k fs) [ some (obj gs) ↦ gs | _ ↦ end ]

-- `_meta_of`; the params are an object or absent
unfoldable pub meta_of : Option Fields → Fields
meta_of none = end
meta_of (some params) = object_at meta params

abbrev pub one_of : Option Json → List Str → Bool
one_of (some (str s)) ss = member s ss
one_of _ ss = false

unfoldable pub is_modern : Protocol → Option Fields → Bool
is_modern p params = one_of (get p.protocol_version_key (meta_of params)) p.modern_versions

unfoldable pub concludes : Body → Bool
concludes (error e) = true
concludes (result fs) = not (is_str (get result_type fs) input_required)

unfoldable pub is_attempt : Fields → Bool
is_attempt event = is_str (get Fields.outcome event) (text "attempted")

unfoldable pub read_response : Protocol → Json → AttemptResponse
read_response p v = elim (read_attempt_response p.is_digit v) [ none ↦ unavailable | some r ↦ r ]

unfoldable pub decision : Protocol → Body → AttemptResponse
unfolding read_response
decision p (error e) = unavailable
decision p (result fs) = read_response p (obj fs)

unfoldable pub without_session : NegotiationResult → NegotiationResult
without_session r = if is_negotiated r.outcome then record r { outcome = no_session } else r

unfoldable pub negotiate_unaudited : Protocol → Option Fields → AuditCapability → NegotiationResult
negotiate_unaudited p params offered =
    let declared = capability_of p.is_digit (get p.client_capabilities_key (meta_of params)) in
    without_session (negotiate declared offered)

-- The events as a JSON list.
unfoldable pub event_items : List Fields → Items
event_items [] = nil
event_items (e ∷ es) = cons (obj e) (event_items es)
