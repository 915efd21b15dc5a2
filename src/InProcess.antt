-- ===== src/InProcess.antt =====
-- in_process.py: the transport of a tool that embeds the host. A session's world is then the host
-- beside what both call.
pub mod Recorded
use auditable_mcp_sdk_python.Base.{ℕ, Bool, Option, none, some, Str}
use auditable_mcp_sdk_python.Base.Result.{
  Exception, value_error, type_error, canonicalization_error, runtime_error, repository_error,
  other_error, cancelled, Result, ok, raised,
}
use auditable_mcp_sdk_python.Json.{Fields}
use auditable_mcp_sdk_python.Models.{AuditCapability, AttemptResponse}
use auditable_mcp_sdk_python.Capability.{NegotiationResult, negotiate}
use auditable_mcp_sdk_python.Host.State.{Host}
use auditable_mcp_sdk_python.Host.World.{World}
use auditable_mcp_sdk_python.Host.Attempt.{handle_attempt}
use auditable_mcp_sdk_python.Host.Outcome.{record_outcome}
use auditable_mcp_sdk_python.Tool.World.{Error, Ended, returned, failed, cancellation, Call, Seams}
use auditable_mcp_sdk_python.Tool.World

-- What an exception of the host is to the session: a `CanonicalizationError` is a `ValueError`.
abbrev pub error_of : Exception → Error
error_of value_error = World.value_error
error_of canonicalization_error = World.value_error
error_of cancelled = cancellation
error_of type_error = World.other_error
error_of runtime_error = World.other_error
error_of repository_error = World.other_error
error_of other_error = World.other_error

abbrev pub ended_of : {A : Type 0} → Result A → Ended A
ended_of (ok a) = returned a
ended_of (raised e) = failed (error_of e)

abbrev pub without_value : {A : Type 0} → Ended A → Ended (Unit {0})
without_value (returned a) = returned tt
without_value (failed e) = failed e

-- A call that leaves the host alone.
abbrev pub beside : {W A : Type 0} → (W → A × W) → Host × W → A × (Host × W)
beside f (h, w) = let (a, w') = f w in (a, (h, w'))

module _ {W : Type 0} (env : World W) where
  -- `InProcessTransport.send_attempt`
  unfoldable pub send_attempt : Fields → Call (Host × W) AttemptResponse
  send_attempt event (h, w) =
      let (r, h', w') = handle_attempt env event none none h w in (ended_of r, (h', w'))

  -- `InProcessTransport.send_outcome`, through `AuditHost.handle_outcome`
  unfoldable pub send_outcome : Fields → Call (Host × W) (Unit {0})
  send_outcome event (h, w) =
      let (r, h', w') = record_outcome env event none h w in (without_value (ended_of r), (h', w'))

  -- The session's world over the host: the transport is the one in process.
  unfoldable pub in_process : Seams W → Seams (Host × W)
  unfolding send_attempt send_outcome
  in_process own = record {
    jcs = own.jcs;
    packages = own.packages;
    digit = own.digit;
    dump = own.dump;
    new_id = beside own.new_id;
    now = beside own.now;
    token_bytes = beside own.token_bytes;
    sign = λ e n. beside (own.sign e n);
    send_attempt = send_attempt;
    send_outcome = send_outcome;
    verify = λ k s p. beside (own.verify k s p);
  }

-- `InProcessTransport.negotiate`
unfoldable pub negotiate_with : Host → AuditCapability → NegotiationResult
negotiate_with h offered = negotiate (some h.capability) offered
