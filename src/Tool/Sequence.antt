-- ===== src/Tool/Sequence.antt =====
-- session.py: the events of a signing session are numbered one after the other.
use auditable_mcp_sdk_python.Base.{
  ℕ, ◌≡◌, refl, List, true, not, ◌&&◌, Option, none, some, Str, str_eq, is_none,
}
use auditable_mcp_sdk_python.Json.{Fields}
use auditable_mcp_sdk_python.Hashing.{compute_record_hash, countersignature_payload}
use auditable_mcp_sdk_python.Reasons.{
  Reason, hash_mismatch, host_rejected, host_unavailable, host_uncountersigned,
  host_signature_invalid,
}
use auditable_mcp_sdk_python.Models.{
  Outcome, attempted, aborted, AcceptResponse, accepted, rejected, unavailable,
}
use auditable_mcp_sdk_python.Tool.World.{
  aborted_error, value_error, Ended, returned, failed, Verdict, verified, unverified, cannot_check,
  Seams, Method, fail, calling, ◌>=>◌,
}
use auditable_mcp_sdk_python.Tool.Session.{AmcpSession, AuditedAction}
use auditable_mcp_sdk_python.Tool.Emission.{emit, emit_aborted, emit_aborted_best_effort}
use auditable_mcp_sdk_python.Tool.Entry.{
  Sent, answered, faulted, try_attempt, send, abort, compare_hash, check_hash, act_on,
  verify_countersignature, check_signature, check_accept, judge, enter,
}
use auditable_mcp_sdk_python.Tool.Lifecycle.{terminal, exit, finish, with_action}
use auditable_mcp_sdk_python.Tool.Recorded.{Sending, recorded, Keeps, Keeps-chain, Keeps-if}
use auditable_mcp_sdk_python.Tool.Numbered.{IsStamping, Numbered, section_numbered}

module _ {W : Type 0} (seams : Seams W) (session : AmcpSession) (stamping : IsStamping seams)
    (signs : session.has_signer ≡ true) (a : AuditedAction) (start : ℕ) where
  emit_numbered :
      (o : Outcome) (reason : Option Reason)
      → Keeps (Numbered start) (emit (recorded seams) session a o reason)
  unfolding emit
  emit_numbered o reason =
      section_numbered seams session stamping signs a o reason start (recorded seams).send_outcome
        (λ e v. refl)

  send_numbered : Keeps (Numbered start) (send (recorded seams) session a)
  unfolding send try_attempt
  send_numbered =
      section_numbered seams session stamping signs a attempted none start
        (try_attempt (recorded seams) session a) (λ e v. refl)

  abort_numbered :
      (reason : Reason) → Keeps (Numbered start) (abort (recorded seams) session a reason)
  unfolding abort emit_aborted_best_effort emit_aborted
  abort_numbered reason =
      Keeps-chain (Numbered start) (emit_aborted_best_effort (recorded seams) session a reason)
        (λ u. fail (aborted_error a.action_type a.target.ref reason))
        (emit_numbered aborted (some reason)) (λ u n v p. p)

  compare_hash_numbered :
      (r : AcceptResponse) (hash : Option Str)
      → Keeps (Numbered start) (compare_hash (recorded seams) session a r hash)
  unfolding compare_hash
  compare_hash_numbered r none n v p = p
  compare_hash_numbered r (some hash) n v p =
      Keeps-if (Numbered start) (not (str_eq hash r.record_hash))
        (abort (recorded seams) session a hash_mismatch) (λ n v. (returned r, n, v))
        (abort_numbered hash_mismatch) (λ n v p. p) n v p

  check_hash_numbered :
      (e : Fields) (r : AcceptResponse)
      → Keeps (Numbered start) (check_hash (recorded seams) session a e r)
  unfolding check_hash
  check_hash_numbered e r =
      let hash = compute_record_hash seams.jcs e r.seq r.host_ts r.previous_hash in
      Keeps-if (Numbered start) session.polluted_stop
        (compare_hash (recorded seams) session a r hash) (λ n v. (returned r, n, v))
        (compare_hash_numbered r hash) (λ n v p. p)

  act_on_numbered :
      (e : Fields) (r : AcceptResponse) (verdict : Verdict)
      → Keeps (Numbered start) (act_on (recorded seams) session a e r verdict)
  unfolding act_on
  act_on_numbered e r verified = check_hash_numbered e r
  act_on_numbered e r unverified = abort_numbered host_signature_invalid
  act_on_numbered e r cannot_check = abort_numbered host_unavailable

  -- Verification sends nothing.
  verify_numbered :
      (r : AcceptResponse) (signature : Str) (key log : Option Str)
      → Keeps
          (Numbered start)
          (calling (verify_countersignature (recorded seams) r signature key log))
  unfolding verify_countersignature
  verify_numbered r signature none log n v p = p
  verify_numbered r signature (some key) none n v p = p
  verify_numbered r signature (some key) (some log) n v p =
      of (countersignature_payload seams.jcs r.seq r.host_ts log r.previous_hash r.record_hash)
    where
      of :
          (payload : Option Str)
          → let t : Ended Verdict × (List Sending × W) = elim payload [
            | none ↦ (failed value_error, v)
            | some s ↦ (recorded seams).verify key signature s v
          ] in
            Numbered start n t.1.0
      of none = p
      of (some s) = p

  check_signature_numbered :
      (e : Fields) (r : AcceptResponse) (signature : Option Str)
      → Keeps (Numbered start) (check_signature (recorded seams) session a e r signature)
  unfolding check_signature
  check_signature_numbered e r none = check_hash_numbered e r
  check_signature_numbered e r (some signature) =
      let verdict : Method (List Sending × W) Verdict =
        calling (verify_countersignature (recorded seams) r signature r.host_key_id r.log_id) in
      Keeps-if (Numbered start) session.has_verifier
        (verdict >=> act_on (recorded seams) session a e r)
        (check_hash (recorded seams) session a e r)
        (Keeps-chain (Numbered start) verdict (act_on (recorded seams) session a e r)
          (verify_numbered r signature r.host_key_id r.log_id) (act_on_numbered e r))
        (check_hash_numbered e r)

  judge_numbered :
      (e : Fields) (sent : Sent)
      → Keeps (Numbered start) (judge (recorded seams) session a (e, sent))
  unfolding judge check_accept
  judge_numbered e faulted = abort_numbered host_unavailable
  judge_numbered e (answered unavailable) = abort_numbered host_unavailable
  judge_numbered e (answered (rejected x)) = abort_numbered host_rejected
  judge_numbered e (answered (accepted r)) =
      Keeps-if (Numbered start) (session.require_countersign && is_none r.host_signature)
        (abort (recorded seams) session a host_uncountersigned)
        (check_signature (recorded seams) session a e r r.host_signature)
        (abort_numbered host_uncountersigned) (check_signature_numbered e r r.host_signature)

  finish_numbered :
      {A : Type 0} (body : Method (List Sending × W) A)
      → Keeps (Numbered start) body
      → Keeps (Numbered start) (λ n. λ v. finish (recorded seams) session a (body n v))
  unfolding finish exit
  finish_numbered body k n v p =
      let (r, n', v') = body n v in emit_numbered (terminal r) none n' v' (k n v p)

  -- In a signing session whose signer puts the number on the event, the events that an action hands to
  -- the transport carry consecutive numbers from the session's first: each carries the number after
  -- the last one used, and the number of an event is used unless the sending of an outcome raised, or
  -- that of an attempt raised a usage error or a cancellation. The code in between may hand over events of other actions, as long as it keeps this.
  pub with_action-Numbered :
      {A : Type 0} (body : AcceptResponse → Method (List Sending × W) A)
      → ((r : AcceptResponse) → Keeps (Numbered start) (body r))
      → (n : ℕ) (sendings : List Sending) (w : W) → Numbered start n sendings
      → let (_, n', v') = with_action (recorded seams) session a body n (sendings, w) in
        Numbered start n' v'.0
  unfolding with_action enter
  with_action-Numbered body k n sendings w p =
      Keeps-chain (Numbered start) (enter (recorded seams) session a)
        (λ r. λ n. λ v. finish (recorded seams) session a (body r n v))
        (Keeps-chain (Numbered start) (send (recorded seams) session a)
          (judge (recorded seams) session a) send_numbered (λ x. judge_numbered x.0 x.1))
        (λ r. finish_numbered (body r) (k r)) n (sendings, w) p
