-- ===== src/InProcess/Recorded.antt =====
-- An action over the in-process transport: what the host keeps when the code runs.
use auditable_mcp_sdk_python.Base.{
  ℕ, ◌≡◌, ◌⊎◌, ◌∙◌, ap, inl, inr, Option, none, some, Str, Str_eq, arith,
}
use auditable_mcp_sdk_python.Base.Dict.{lookup}
use auditable_mcp_sdk_python.Base.Result.{Result, ok, raised}
use auditable_mcp_sdk_python.Json.{obj, Fields}
use auditable_mcp_sdk_python.Canonical.{canonicalize}
use auditable_mcp_sdk_python.Models.{attempted, AcceptResponse, AttemptResponse, accepted}
use auditable_mcp_sdk_python.Ledger.{SealedRecord}
use auditable_mcp_sdk_python.Host.State.{Host, event_id, accept_of}
use auditable_mcp_sdk_python.Host.World.{World}
use auditable_mcp_sdk_python.Host.Attempt.{handle_attempt}
use auditable_mcp_sdk_python.Host.Accepts.{IsBacked, handle_attempt-IsBacked}
use auditable_mcp_sdk_python.Tool.World.{
  Error, usage_error, aborted_error, value_error, other_error, cancellation, Ended, returned,
  failed, Verdict, verified, Seams, Method,
}
use auditable_mcp_sdk_python.Tool.Session.{AmcpSession, AuditedAction}
use auditable_mcp_sdk_python.Tool.Emission.{build}
use auditable_mcp_sdk_python.Tool.Entry.{answered, caught, verify_countersignature}
use auditable_mcp_sdk_python.Tool.Lifecycle.{finish, with_action}
use auditable_mcp_sdk_python.Tool.Clearance.{IsVouched}
use auditable_mcp_sdk_python.Tool.Audited.{IsCleared, number_at, with_action-IsAudited}
use auditable_mcp_sdk_python.InProcess.{ended_of, send_attempt, in_process}

caught_accept :
    (e d : Fields) (x : Ended AttemptResponse) (r : AcceptResponse)
    → caught e x ≡ returned (d, answered (accepted r))
    → x ≡ returned (accepted r)
caught_accept e d (returned y) r h = cc
caught_accept e d (failed usage_error) r h = cc
caught_accept e d (failed cancellation) r h = cc
caught_accept e d (failed (aborted_error x y z)) r h = cc
caught_accept e d (failed value_error) r h = cc
caught_accept e d (failed other_error) r h = cc

ended_accept :
    (x : Result AttemptResponse) (r : AcceptResponse)
    → ended_of x ≡ returned (accepted r)
    → x ≡ ok (accepted r)
ended_accept (ok y) r h = cc
ended_accept (raised e) r h = cc

module _ {W : Type 0} (env : World W) (own : Seams W) (session : AmcpSession)
    (a : AuditedAction) where
  -- The verifier of countersignatures leaves the host alone.
  verified-host :
      (r : AcceptResponse) (s : Str) (k l : Option Str) (v : Verdict) (w w' : Host × W)
      → verify_countersignature (in_process env own) r s k l w ≡ (returned v, w')
      → w'.0 ≡ w.0
  unfolding verify_countersignature in_process
  verified-host r s (some k) (some l) v w w' h = ground arith
  verified-host r s none l v w w' h = ground arith
  verified-host r s (some k) none v w w' h = ground arith

  vouched-host :
      (r : AcceptResponse) (w w' : Host × W)
      → IsVouched (in_process env own) session r w w'
      → w'.0 ≡ w.0
  vouched-host r w w' (inl (_, _, e)) = ap (λ (p : Host × W). p.0) e
  vouched-host r w w' (inr (s, _, inl (_, e))) = ap (λ (p : Host × W). p.0) e
  vouched-host r w w' (inr (s, _, inr (_, j))) =
      verified-host r s r.host_key_id r.log_id verified w w' j

  -- The tool built an attempt, and the host keeps a sealed record of it, which gave the accept its
  -- fields.
  abbrev pub IsRecorded : ℕ → Host × W → AcceptResponse → Host → Type 0
  IsRecorded n w r g =
      (attempt : Fields) × (u : Host × W) × (build (in_process env own) session a attempted none
          (number_at session n) w
        ≡ (returned attempt, u))
      × (sealed : SealedRecord) × (lookup (event_id attempt) g.sealed_attempts ≡ some sealed)
      × (accept_of sealed ≡ r)
      × (canonicalize env.jcs (obj sealed.event) ≡ canonicalize env.jcs (obj attempt))

  sent-IsBacked :
      (attempt : Fields) (u : Host × W) (r : AcceptResponse)
      → (send_attempt env attempt u).0 ≡ returned (accepted r)
      → IsBacked env.jcs attempt (ok (accepted r)) (send_attempt env attempt u).1.0
  unfolding send_attempt
  sent-IsBacked attempt u r h =
      let q = ended_accept (handle_attempt env attempt none none u.0 u.1).0 r h in
      rw q at (handle_attempt-IsBacked env attempt none none u.0 u.1)

  cleared-IsRecorded :
      (n : ℕ) (w : Host × W) (r : AcceptResponse) (n' : ℕ) (w' : Host × W)
      → IsCleared (in_process env own) session a n w r n' w'
      → IsRecorded n w r w'.0
  unfolding in_process
  cleared-IsRecorded n w r n' w' (attempt, u', (u, built, sent, left), vouched, bound, m) =
      let (sealed, kept, fields, same) =
        sent-IsBacked attempt u r
          (caught_accept attempt attempt (send_attempt env attempt u).0 r sent) in
      let here : w'.0 ≡ (send_attempt env attempt u).1.0 =
        vouched-host r u' w' vouched ∙ ap (λ (p : Host × W). p.0) left in
      (attempt, u, built, sealed, rw here kept, fields, same)

  -- The code ran on an accept whose attempt the host keeps, and its outcome followed, or what happened
  -- is the same for any other code.
  abbrev pub ActsRecorded :
      {A : Type 0} → (AcceptResponse → Method (Host × W) A) → ℕ → Host × W → Type 0
  ActsRecorded {A} body n w =
      ((r : AcceptResponse) × (n' : ℕ) × (g : Host) × (v : W) × IsRecorded n w r g
        × (with_action (in_process env own) session a body n w
            ≡ finish (in_process env own) session a (body r n' (g, v))))
      ⊎ ((x : Error) × (n' : ℕ) × (w' : Host × W) × ((other : AcceptResponse → Method (Host × W) A)
            → with_action (in_process env own) session a other n w ≡ (failed x, n', w')))

  -- Audit before act, end to end. A tool embeds the host, whatever the host's clock, verifier,
  -- countersigner and store and the tool's signer do. Then either its code runs, and the host it runs
  -- beside keeps a sealed record of the attempt that the tool built for it: the record stands under
  -- the attempt's id, its event has the attempt's canonical form, and the accept that the code gets has
  -- its fields. Or the code does not run, and what happens is the same for any other code.
  pub with_action-ActsRecorded :
      {A : Type 0} (body : AcceptResponse → Method (Host × W) A) (n : ℕ) (w : Host × W)
      → ActsRecorded body n w
  with_action-ActsRecorded body n w =
      elim (with_action-IsAudited (in_process env own) session a body n w) [
        | inl (r, n', w', cleared, runs) ↦
            inl (r, n', w'.0, w'.1, cleared-IsRecorded n w r n' w' cleared, runs)
        | inr (x, n', w', refusal, same) ↦ inr (x, n', w', same)
      ]
