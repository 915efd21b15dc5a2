-- ===== src/Models/Message.antt =====
-- The wire models of models.py besides the events: the capability, the attempt response and the
-- metadata of a request, read from JSON as `model_validate(value, context=WIRE)` does. `none` stands
-- for a ValidationError.
use auditable_mcp_sdk_python.Base.{
  ℕ, Bool, ◌&&◌, ◌||◌, not, Option, none, some, List, [], ◌∷◌, Str, text, str_eq, if◌then◌else◌,
  is_none, Str_eq,
}
use auditable_mcp_sdk_python.Base.Dict.{Dict}
use auditable_mcp_sdk_python.Json.{Json, str, obj, Fields, end, field, get, get_str, is_str}
use auditable_mcp_sdk_python.Fields
use auditable_mcp_sdk_python.Reasons.{
  Reason, code, schema_invalid, replay_detected, signature_invalid, l2_unsigned, unknown_key,
}
use auditable_mcp_sdk_python.Models.{
  Level, l1, l2, Countersign, no_countersign, host_countersign, AuditCapability, AttemptResponse,
  accepted, rejected, unavailable,
}
use auditable_mcp_sdk_python.Models.Pattern.{
  matches, session_id_pattern, uuid_pattern, chain_hash_pattern, datetime_pattern,
  signature_pattern,
}
use auditable_mcp_sdk_python.Models.Event.{
  Member, must, may, text_of, non_empty, count, object, one_of, of_model, json_count,
}

-- The names of the members that no event has.
abbrev pub status : Str
status = text "status"

abbrev pub level : Str
level = text "level"

abbrev pub attempt : Str
attempt = text "attempt"

abbrev pub countersign : Str
countersign = text "countersign"

abbrev pub responses : Str
responses = text "responses"

-- EXTENSION_ID
abbrev pub extension_id : Str
extension_id = text "com.timberlandchapel/auditable-mcp"

-- AuditCapability
capability_members : List Member
capability_members =
    must Fields.spec_version non_empty
    ∷ must level (one_of (text "L1" ∷ text "L2" ∷ []))
    ∷ must attempt (one_of (text "request" ∷ []))
    ∷ must countersign (one_of (text "none" ∷ text "host" ∷ []))
    ∷ []

abbrev level_value : Level → Str
level_value l1 = text "L1"
level_value l2 = text "L2"

abbrev countersign_value : Countersign → Str
countersign_value no_countersign = text "none"
countersign_value host_countersign = text "host"

abbrev level_of : Str → Level
level_of s = if str_eq s (text "L2") then l2 else l1

abbrev countersign_of : Str → Countersign
countersign_of s = if str_eq s (text "host") then host_countersign else no_countersign

-- `to_wire` of an AuditCapability
unfoldable pub capability_to_wire : AuditCapability → Fields
capability_to_wire c = field Fields.spec_version (str c.version) (
    field level (str (level_value c.level)) (
      field attempt (str (text "request"))
        (field countersign (str (countersign_value c.countersign)) end)))

-- The text of a member that the validation has found to be one.
abbrev text_at : Str → Fields → Str
text_at k fs = elim (get_str k fs) [ none ↦ [] | some s ↦ s ]

abbrev count_at : Str → Fields → ℕ
count_at k fs = elim (get k fs) [
  | none ↦ 0
  | some v ↦ elim (json_count v) [ none ↦ 0 | some n ↦ n ]
]

-- AcceptResponse, RejectResponse and UnavailableResponse, whose `status` the union reads first
accept_members : List Member
accept_members =
    must status (one_of (text "accept" ∷ []))
    ∷ must Fields.seq count
    ∷ must Fields.record_hash (text_of chain_hash_pattern)
    ∷ must Fields.host_ts (text_of datetime_pattern)
    ∷ must Fields.previous_hash (text_of chain_hash_pattern)
    ∷ may Fields.host_signature (text_of signature_pattern)
    ∷ may Fields.host_key_id non_empty
    ∷ may Fields.log_id non_empty
    ∷ []

-- RejectReason
abbrev reject_codes : List Str
reject_codes =
    code schema_invalid
    ∷ code replay_detected
    ∷ code signature_invalid
    ∷ code l2_unsigned
    ∷ code unknown_key
    ∷ []

reject_members : List Member
reject_members =
    must status (one_of (text "reject" ∷ [])) ∷ must Fields.reason (one_of reject_codes) ∷ []

unavailable_members : List Member
unavailable_members =
    must status (one_of (text "unavailable" ∷ []))
    ∷ may Fields.reason (one_of (text "internal-error" ∷ []))
    ∷ []

-- AuditRequestMeta
request_meta_members : List Member
request_meta_members =
    must Fields.session_id (text_of session_id_pattern) ∷ may responses object ∷ []

-- Absent responses are none, which is how their one reader takes them.
pub record AuditRequestMeta : Type 0 where
  pub session_id : Str
  pub answers : Dict Str AttemptResponse

abbrev responses_in : Option Json → Fields
responses_in (some (obj fs)) = fs
responses_in _ = end

-- The reason that a text of `reject_codes` names.
named_reason : Str → Reason
named_reason s =
    if str_eq s (code schema_invalid)
    then schema_invalid
    else if str_eq s (code replay_detected)
    then replay_detected
    else if str_eq s (code signature_invalid)
    then signature_invalid
    else if str_eq s (code l2_unsigned)
    then l2_unsigned
    else unknown_key

-- `_countersignature_fields_travel_together`
together : Fields → Bool
together fs =
    let s = is_none (get Fields.host_signature fs) in
    let k = is_none (get Fields.host_key_id fs) in
    let l = is_none (get Fields.log_id fs) in s && k && l || not s && not k && not l

module _ (d : ℕ → Bool) where
  -- AuditCapability.model_validate(value, context=WIRE)
  unfoldable pub read_capability : Json → Option AuditCapability
  unfolding capability_members
  read_capability (obj fs) =
      if of_model d capability_members fs
      then some (record {
        version = text_at Fields.spec_version fs;
        level = level_of (text_at level fs);
        countersign = countersign_of (text_at countersign fs);
      })
      else none
  read_capability _ = none

  read_accept : Fields → Option AttemptResponse
  unfolding accept_members together
  read_accept fs =
      if of_model d accept_members fs && together fs
      then some (
          accepted (record {
            seq = count_at Fields.seq fs;
            record_hash = text_at Fields.record_hash fs;
            host_ts = text_at Fields.host_ts fs;
            previous_hash = text_at Fields.previous_hash fs;
            host_signature = get_str Fields.host_signature fs;
            host_key_id = get_str Fields.host_key_id fs;
            log_id = get_str Fields.log_id fs;
          }))
      else none

  read_reject : Fields → Option AttemptResponse
  unfolding reject_members named_reason
  read_reject fs =
      if of_model d reject_members fs
      then some (rejected (named_reason (text_at Fields.reason fs)))
      else none

  read_unavailable : Fields → Option AttemptResponse
  unfolding unavailable_members
  read_unavailable fs = if of_model d unavailable_members fs then some unavailable else none

  -- AttemptResponse, the union discriminated on `status`
  unfoldable pub read_attempt_response : Json → Option AttemptResponse
  unfolding read_accept read_reject read_unavailable
  read_attempt_response (obj fs) =
      if is_str (get status fs) (text "accept")
      then read_accept fs
      else if is_str (get status fs) (text "reject")
      then read_reject fs
      else if is_str (get status fs) (text "unavailable")
      then read_unavailable fs
      else none
  read_attempt_response _ = none

  -- The `responses` member: answers by the id of the attempt.
  read_responses : Fields → Option (Dict Str AttemptResponse)
  unfolding read_attempt_response
  read_responses end = some []
  read_responses (field k v fs) =
      let rest = read_responses fs in
      if matches d uuid_pattern k
      then elim (read_attempt_response v) [
        | none ↦ none
        | some r ↦ elim rest [ none ↦ none | some rs ↦ some ((k, r) ∷ rs) ]
      ]
      else none

  -- AuditRequestMeta.model_validate(value, context=WIRE)
  unfoldable pub read_request_meta : Option Json → Option AuditRequestMeta
  unfolding request_meta_members read_responses
  read_request_meta (some (obj fs)) =
      if of_model d request_meta_members fs
      then elim (read_responses (responses_in (get responses fs))) [
        | none ↦ none
        | some rs ↦ some (record { session_id = text_at Fields.session_id fs; answers = rs })
      ]
      else none
  read_request_meta _ = none
