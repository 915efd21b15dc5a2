-- ===== src/Tool/Emission.antt =====
-- session.py: the numbering of a session, and how an action's event is built and sent.
use auditable_mcp_sdk_python.Base.{ℕ, ◌+◌, not, Option, none, some, Str, if◌then◌else◌}
use auditable_mcp_sdk_python.Json.{Json, bool, str, obj, Fields, end, field}
use auditable_mcp_sdk_python.Fields
use auditable_mcp_sdk_python.Reasons.{Reason, code}
use auditable_mcp_sdk_python.Models.{Outcome, aborted, outcome_value, spec_version}
use auditable_mcp_sdk_python.Models.Event.{is_audit_event}
use auditable_mcp_sdk_python.Tool.World.{
  cancellation, value_error, Ended, returned, failed, Call, Seams, ◌>>=◌, Method,
}
use auditable_mcp_sdk_python.Tool.Session.{AmcpSession, TargetResource, AuditedAction}

-- After an emission under the lock: the number it was given is used, unless it raised.
abbrev pub advance : {A : Type 0} → ℕ → Ended A → ℕ
advance n (returned _) = n + 1
advance n (failed _) = n

-- `async with _numbering(session) as signer_seq: body`
unfoldable pub numbering : {W A : Type 0} → AmcpSession → (Option ℕ → Call W A) → Method W A
numbering session body n w =
    if session.has_signer
    then (let (r, w') = body (some n) w in (r, advance n r, w'))
    else let (r, w') = body none w in (r, n, w')

-- A member that is present where the model's value is not None.
abbrev pub optional : Str → Option Json → Fields → Fields
optional k none fs = fs
optional k (some v) fs = field k v fs

abbrev pub text_json : Option Str → Option Json
text_json none = none
text_json (some s) = some (str s)

abbrev pub object_json : Option Fields → Option Json
object_json none = none
object_json (some fs) = some (obj fs)

abbrev pub reason_json : Option Reason → Option Json
reason_json none = none
reason_json (some r) = some (str (code r))

unfoldable pub target_fields : TargetResource → Fields
target_fields t =
    field Fields.kind (str t.kind)
      (field Fields.ref (str t.ref) (optional Fields.scope_hint (text_json t.scope_hint) end))

-- The `AuditEvent` of an action, as its members, absent optionals omitted.
unfoldable pub event_fields :
    AmcpSession → AuditedAction → Outcome → Option Reason → Str → Option Fields → Fields
event_fields session a outcome reason time context = field Fields.id (str a.id) (
    field Fields.ts (str time) (
      field Fields.session_id (str session.session_id) (
        field Fields.action_type (str a.action_type) (
          field Fields.mutates (bool a.mutates) (
            field Fields.egress (bool a.egress) (
              field Fields.target_resource (obj (target_fields a.target)) (
                field Fields.outcome (str (outcome_value outcome)) (
                  optional Fields.reason (reason_json reason) (
                    optional Fields.action_context (object_json context) (
                      optional Fields.action_context_hash (text_json a.commit_hash) (
                        field Fields.spec_version (str spec_version) (
                          optional Fields.action_context_salted_hash (text_json a.salted_hash)
                            end))))))))))))

abbrev pub dumped : (Fields → Fields) → Option Fields → Option Fields
dumped dump none = none
dumped dump (some fs) = some (dump fs)

-- `except Exception` around an emission; a cancellation is none and goes on.
abbrev pub forgiven : Ended (Unit {0}) → Ended (Unit {0})
forgiven (returned u) = returned u
forgiven (failed cancellation) = failed cancellation
forgiven (failed _) = returned tt

module _ {W : Type 0} (seams : Seams W) (session : AmcpSession) where
  -- `_stamp`
  unfoldable pub stamp : Fields → Option ℕ → Call W Fields
  stamp event none w = (returned event, w)
  stamp event (some n) w = if session.has_signer then seams.sign event n w else (returned event, w)

  -- `_build`; Pydantic's `ValidationError` is a `ValueError`.
  unfoldable pub build : AuditedAction → Outcome → Option Reason → Option ℕ → Call W Fields
  build a outcome reason number w =
      let (time, w') = seams.now w in
      if not (is_audit_event seams.digit (event_fields session a outcome reason time a.disclose))
      then (failed value_error, w')
      else stamp (event_fields session a outcome reason time (dumped seams.dump a.disclose)) number
          w'

  -- An outcome, built and sent in one section.
  unfoldable pub emit : AuditedAction → Outcome → Option Reason → Method W (Unit {0})
  emit a outcome reason =
      numbering session (λ number. build a outcome reason number >>= seams.send_outcome)

  -- `_emit_aborted`
  unfoldable pub emit_aborted : AuditedAction → Reason → Method W (Unit {0})
  emit_aborted a reason = emit a aborted (some reason)

  -- `_emit_aborted_best_effort`
  unfoldable pub emit_aborted_best_effort : AuditedAction → Reason → Method W (Unit {0})
  emit_aborted_best_effort a reason n w =
      let (r, n', w') = emit_aborted a reason n w in (forgiven r, n', w')
