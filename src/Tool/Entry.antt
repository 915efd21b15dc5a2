-- ===== src/Tool/Entry.antt =====
-- session.py: `__aenter__`, which clears an action or aborts it.
use auditable_mcp_sdk_python.Base.{
  not, ◌&&◌, Option, none, some, Str, str_eq, if◌then◌else◌, is_none,
}
use auditable_mcp_sdk_python.Json.{Fields}
use auditable_mcp_sdk_python.Hashing.{compute_record_hash, countersignature_payload}
use auditable_mcp_sdk_python.Reasons.{
  Reason, hash_mismatch, host_rejected, host_unavailable, host_uncountersigned,
  host_signature_invalid,
}
use auditable_mcp_sdk_python.Models.{
  attempted, AcceptResponse, AttemptResponse, accepted, rejected, unavailable,
}
use auditable_mcp_sdk_python.Tool.World.{
  usage_error, aborted_error, value_error, cancellation, Ended, returned, failed, Verdict, verified,
  unverified, cannot_check, Call, Seams, ◌>>=◌, Method, fail, calling, ◌>=>◌,
}
use auditable_mcp_sdk_python.Tool.Session.{AmcpSession, AuditedAction}
use auditable_mcp_sdk_python.Tool.Emission.{numbering, build, emit_aborted_best_effort}

-- How the sending of an attempt ended: the host's answer, or a fault of the transport.
pub data Sent : Type 0 where
  answered : AttemptResponse → Sent
  faulted : Sent

-- The `except` clauses: a usage error and a cancellation go on, another exception is a fault.
abbrev pub caught : Fields → Ended AttemptResponse → Ended (Fields × Sent)
caught attempt (returned r) = returned (attempt, answered r)
caught attempt (failed usage_error) = failed usage_error
caught attempt (failed cancellation) = failed cancellation
caught attempt (failed _) = returned (attempt, faulted)

module _ {W : Type 0} (seams : Seams W) where
  -- The verdict on a countersignature with the key and the log that it names.
  unfoldable pub verify_countersignature :
      AcceptResponse → Str → Option Str → Option Str → Call W Verdict
  verify_countersignature r signature (some key) (some log) w =
      elim (countersignature_payload seams.jcs r.seq r.host_ts log r.previous_hash r.record_hash) [
        | none ↦ (failed value_error, w)
        | some payload ↦ seams.verify key signature payload w
      ]
  verify_countersignature r signature _ _ w = (returned unverified, w)

module _ {W : Type 0} (seams : Seams W) (session : AmcpSession) (a : AuditedAction) where
  -- The attempt with how its sending ended.
  unfoldable pub try_attempt : Fields → Call W (Fields × Sent)
  try_attempt attempt w = let (r, w') = seams.send_attempt attempt w in (caught attempt r, w')

  unfoldable pub send : Method W (Fields × Sent)
  send = numbering session (λ number. build seams session a attempted none number >>= try_attempt)

  -- The aborted outcome and `AmcpAbortedError`.
  unfoldable pub abort : Reason → Method W AcceptResponse
  abort reason =
      emit_aborted_best_effort seams session a reason
      >=> (λ _. fail (aborted_error a.action_type a.target.ref reason))

  -- By the hash that is recomputed; `none` where the canonical form raises.
  unfoldable pub compare_hash : AcceptResponse → Option Str → Method W AcceptResponse
  compare_hash r none n w = (failed value_error, n, w)
  compare_hash r (some expected) n w =
      if not (str_eq expected r.record_hash) then abort hash_mismatch n w else (returned r, n, w)

  -- Polluted Stop
  unfoldable pub check_hash : Fields → AcceptResponse → Method W AcceptResponse
  check_hash attempt r n w =
      if session.polluted_stop
      then compare_hash r (compute_record_hash seams.jcs attempt r.seq r.host_ts r.previous_hash) n
          w
      else (returned r, n, w)

  unfoldable pub act_on : Fields → AcceptResponse → Verdict → Method W AcceptResponse
  act_on attempt r cannot_check = abort host_unavailable
  act_on attempt r unverified = abort host_signature_invalid
  act_on attempt r verified = check_hash attempt r

  unfoldable pub check_signature : Fields → AcceptResponse → Option Str → Method W AcceptResponse
  check_signature attempt r none n w = check_hash attempt r n w
  check_signature attempt r (some signature) n w =
      if session.has_verifier
      then (calling (verify_countersignature seams r signature r.host_key_id r.log_id)
            >=> act_on attempt r)
          n w
      else check_hash attempt r n w

  unfoldable pub check_accept : Fields → AcceptResponse → Method W AcceptResponse
  check_accept attempt r n w =
      if session.require_countersign && is_none r.host_signature
      then abort host_uncountersigned n w
      else check_signature attempt r r.host_signature n w

  unfoldable pub judge : Fields × Sent → Method W AcceptResponse
  judge (attempt, faulted) = abort host_unavailable
  judge (attempt, answered (rejected _)) = abort host_rejected
  judge (attempt, answered unavailable) = abort host_unavailable
  judge (attempt, answered (accepted r)) = check_accept attempt r

  -- `__aenter__`; what it returns is the accept that it sets.
  unfoldable pub enter : Method W AcceptResponse
  enter = send >=> judge
