-- ===== src/Models/Event.antt =====
-- The event models of models.py, as tables of members: what Pydantic accepts of an event under each.
-- A model is closed and strict, and on wire input a declared member that is null is refused.
use auditable_mcp_sdk_python.Base.{
  ℕ, Bool, true, false, not, ◌&&◌, ◌||◌, Option, none, some, List, [], ◌∷◌, leb, Str, text, str_eq,
  if◌then◌else◌, is_none, is_some, Str_eq,
}
use auditable_mcp_sdk_python.Base.Lists.{member}
use auditable_mcp_sdk_python.Json.{
  pos, integral, Json, bool, int, float, str, obj, Fields, end, field, get, is_str,
}
use auditable_mcp_sdk_python.Fields
use auditable_mcp_sdk_python.Canonical.{max_safe_integer, has_lone_surrogate}
use auditable_mcp_sdk_python.Models.Pattern.{
  Pattern, matches, session_id_pattern, uuid_pattern, earlier_uuid_pattern, datetime_pattern,
  earlier_datetime_pattern, context_hash_pattern, signature_pattern, salted_hash_pattern,
  earlier_signature_pattern,
}

-- What a member's value must be.
pub data Shape : Type 0 where
  text_of : Pattern → Shape
  non_empty any_text boolean count object target : Shape
  one_of : List Str → Shape

pub record Member : Type 0 where
  pub name : Str
  pub required : Bool
  pub shape : Shape

abbrev pub must : Str → Shape → Member
must n s = record { name = n; required = true; shape = s }

abbrev pub may : Str → Shape → Member
may n s = record { name = n; required = false; shape = s }

-- `_integral`, then a strict `int` with `ge=0` and `le=MAX_SAFE_INTEGER`
abbrev pub json_count : Json → Option ℕ
json_count (int (pos n)) = if leb n max_safe_integer then some n else none
json_count (float (integral (pos n))) = if leb n max_safe_integer then some n else none
json_count _ = none

abbrev find_member : Str → List Member → Option Member
find_member k [] = none
find_member k (m ∷ ms) = if str_eq k m.name then some m else find_member k ms

-- No required member is missing.
complete : List Member → Fields → Bool
complete [] fs = true
complete (m ∷ ms) fs = (not m.required || is_some (get m.name fs)) && complete ms fs

-- Every member is declared, and has the declared shape; null has none.
closed : (Shape → Json → Bool) → List Member → Fields → Bool
closed check ms end = true
closed check ms (field k v fs) =
    elim (find_member k ms) [ none ↦ false | some m ↦ check m.shape v ] && closed check ms fs

abbrev non_empty_text : Json → Bool
non_empty_text (str (_ ∷ _)) = true
non_empty_text _ = false

-- TargetResource
target_members : List Member
target_members =
    must Fields.kind non_empty ∷ must Fields.ref non_empty ∷ may Fields.scope_hint any_text ∷ []

leaf_has_shape : (ℕ → Bool) → Shape → Json → Bool
leaf_has_shape d (text_of p) (str s) = matches d p s
leaf_has_shape d non_empty v = non_empty_text v
leaf_has_shape d any_text (str s) = true
leaf_has_shape d boolean (bool b) = true
leaf_has_shape d count v = is_some (json_count v)
leaf_has_shape d object (obj fs) = true
leaf_has_shape d (one_of ss) (str s) = member s ss
leaf_has_shape d _ _ = false

has_shape : (ℕ → Bool) → Shape → Json → Bool
unfolding leaf_has_shape complete closed target_members
has_shape d target (obj fs) =
    complete target_members fs && closed (leaf_has_shape d) target_members fs
has_shape d s v = leaf_has_shape d s v

abbrev outcomes : Shape
outcomes = one_of (text "attempted" ∷ text "success" ∷ text "failed" ∷ text "aborted" ∷ [])

-- AbortReason
abbrev abort_reasons : Shape
abort_reasons = one_of (
    text "hash-mismatch"
    ∷ text "host-rejected"
    ∷ text "host-unavailable"
    ∷ text "host-uncountersigned"
    ∷ text "host-signature-invalid"
    ∷ [])

-- _SessionAuditEvent, with the pattern of `ts`
session_members : Pattern → List Member
session_members ts =
    must Fields.id (text_of uuid_pattern)
    ∷ must Fields.ts (text_of ts)
    ∷ must Fields.session_id (text_of session_id_pattern)
    ∷ may Fields.traceparent any_text
    ∷ must Fields.action_type non_empty
    ∷ must Fields.mutates boolean
    ∷ must Fields.egress boolean
    ∷ must Fields.target_resource target
    ∷ must Fields.outcome outcomes
    ∷ may Fields.reason abort_reasons
    ∷ may Fields.action_context object
    ∷ may Fields.action_context_hash (text_of context_hash_pattern)
    ∷ may Fields.signer_seq count
    ∷ may Fields.key_id non_empty
    ∷ may Fields.signature (text_of signature_pattern)
    ∷ []

-- AuditEvent
audit_event_members : List Member
audit_event_members =
    must Fields.spec_version (one_of (text "auditable-mcp/0.4" ∷ []))
    ∷ may Fields.action_context_salted_hash (text_of salted_hash_pattern)
    ∷ session_members datetime_pattern

-- SealedAuditEventV03
sealed_v03_members : List Member
sealed_v03_members =
    must Fields.spec_version (one_of (text "auditable-mcp/0.3" ∷ []))
    ∷ session_members earlier_datetime_pattern

-- The members that SealedAuditEventV01 and EarlierSealedAuditEvent share.
call_members : List Member
call_members =
    must Fields.id (text_of earlier_uuid_pattern)
    ∷ must Fields.ts (text_of earlier_datetime_pattern)
    ∷ must Fields.call_id non_empty
    ∷ may Fields.traceparent any_text
    ∷ must Fields.action_type non_empty
    ∷ must Fields.mutates boolean
    ∷ must Fields.egress boolean
    ∷ must Fields.target_resource target
    ∷ must Fields.outcome outcomes
    ∷ may Fields.action_context object
    ∷ may Fields.action_context_hash (text_of context_hash_pattern)
    ∷ []

-- SealedAuditEventV01
sealed_v01_members : List Member
sealed_v01_members =
    must Fields.spec_version (one_of (text "auditable-mcp/0.1" ∷ []))
    ∷ may Fields.reason any_text
    ∷ may Fields.sequence count
    ∷ may Fields.key_id any_text
    ∷ may Fields.signature any_text
    ∷ call_members

-- EarlierSealedAuditEvent
earlier_sealed_members : List Member
earlier_sealed_members =
    must Fields.spec_version (one_of (text "auditable-mcp/0.1.1" ∷ text "auditable-mcp/0.2" ∷ []))
    ∷ may Fields.reason
        (one_of (text "hash-mismatch" ∷ text "host-rejected" ∷ text "host-unavailable" ∷ []))
    ∷ may Fields.signer_seq count
    ∷ may Fields.key_id non_empty
    ∷ may Fields.signature (text_of earlier_signature_pattern)
    ∷ call_members

-- `_require_reason_when_aborted`
reason_when_aborted : Fields → Bool
reason_when_aborted fs =
    not (is_str (get Fields.outcome fs) (text "aborted")) || is_some (get Fields.reason fs)

-- `_level_2_fields_travel_together`
level_2_together : Fields → Bool
level_2_together fs =
    let n = is_none (get Fields.signer_seq fs) in
    let k = is_none (get Fields.key_id fs) in
    let s = is_none (get Fields.signature fs) in n && k && s || not n && not k && not s

module _ (d : ℕ → Bool) where
  -- The declared members, all of them and no other, with no lone surrogate.
  unfoldable pub of_model : List Member → Fields → Bool
  unfolding complete closed has_shape
  of_model ms fs = not (has_lone_surrogate (obj fs)) && complete ms fs && closed (has_shape d) ms fs

  -- `AuditEvent.model_validate(event, context=WIRE)` succeeds: `first_validation_error` is None.
  unfoldable pub is_audit_event : Fields → Bool
  unfolding of_model audit_event_members session_members reason_when_aborted level_2_together
  is_audit_event fs =
      of_model audit_event_members fs && reason_when_aborted fs && level_2_together fs

  sealed_v03 : Fields → Bool
  unfolding of_model sealed_v03_members session_members reason_when_aborted level_2_together
  sealed_v03 fs = of_model sealed_v03_members fs && reason_when_aborted fs && level_2_together fs

  sealed_v01 : Fields → Bool
  unfolding of_model sealed_v01_members call_members
  sealed_v01 fs = of_model sealed_v01_members fs

  earlier_sealed : Fields → Bool
  unfolding of_model earlier_sealed_members call_members reason_when_aborted
  earlier_sealed fs = of_model earlier_sealed_members fs && reason_when_aborted fs

  is_sealed_fields : Fields → Bool
  unfolding is_audit_event sealed_v03 sealed_v01 earlier_sealed
  is_sealed_fields fs =
      let version = get Fields.spec_version fs in
      if is_str version (text "auditable-mcp/0.1")
      then sealed_v01 fs
      else if is_str version (text "auditable-mcp/0.3")
      then sealed_v03 fs
      else if is_str version (text "auditable-mcp/0.1.1")
          || is_str version (text "auditable-mcp/0.2")
      then earlier_sealed fs
      else is_audit_event fs

  -- `first_sealed_validation_error` is None.
  unfoldable pub is_sealed_event : Json → Bool
  unfolding is_sealed_fields
  is_sealed_event (obj fs) = is_sealed_fields fs
  is_sealed_event _ = false
