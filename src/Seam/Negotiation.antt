-- ===== src/Seam/Negotiation.antt =====
-- mcp/seam.py, McpAuditCall.negotiate: when a call becomes audit-negotiated (§6.1 to §6.3).
use auditable_mcp_sdk_python.Base.{
  ◌≡◌, ◌↔◌, ◌⊎◌, refl, Bool, true, false, ◌&&◌, ◌||◌, some, inl, inr, arith, str_eq_iff,
  if◌then◌else◌, Bool-cases, Option-cases, and_true,
}
use auditable_mcp_sdk_python.Models.{
  AuditCapability, Level, l1, l2, Countersign, no_countersign, host_countersign,
}
use auditable_mcp_sdk_python.Capability.{
  NegotiationResult, NegotiationOutcome, negotiated, negotiate, is_negotiated, level_rank,
  countersign_rank,
}
use auditable_mcp_sdk_python.Degradation.{Fits, negotiate_iff}
use auditable_mcp_sdk_python.Seam.Frame.{without_session}
use auditable_mcp_sdk_python.Seam.State.{AuditSession, ToolCall, Seam, state_of}
use auditable_mcp_sdk_python.Seam.Exchange.{same_capability, is_audited, negotiate_call}

level_rank_inj : (a b : Level) → level_rank a ≡ level_rank b → a ≡ b
level_rank_inj l1 l1 h = refl
level_rank_inj l1 l2 h = absurd (omega (arith, h))
level_rank_inj l2 l1 h = absurd (omega (arith, h))
level_rank_inj l2 l2 h = refl

countersign_rank_inj : (a b : Countersign) → countersign_rank a ≡ countersign_rank b → a ≡ b
countersign_rank_inj no_countersign no_countersign h = refl
countersign_rank_inj no_countersign host_countersign h = absurd (omega (arith, h))
countersign_rank_inj host_countersign no_countersign h = absurd (omega (arith, h))
countersign_rank_inj host_countersign host_countersign h = refl

same_capability_iff : (a b : AuditCapability) → (same_capability a b ≡ true) ↔ (a ≡ b)
unfolding same_capability
same_capability_iff a b = (
  λ h. ground (
    arith,
    str_eq_iff a.version b.version,
    level_rank_inj a.level b.level,
    countersign_rank_inj a.countersign b.countersign,
  ),
  λ h. ground (arith, str_eq_iff a.version b.version),
)

without_session-outcome :
    (r : NegotiationResult) → is_negotiated (without_session r).outcome ≡ false
unfolding without_session
without_session-outcome r = ground arith

is_audited_iff :
    (c : ToolCall)
    → (is_audited c ≡ true)
      ↔ (((a : AuditSession) × (c.audit ≡ some a)) × (c.task_augmented ≡ false))
is_audited_iff c = elim (Option-cases c.audit) [
  | inl e ↦ (λ h. ground arith, λ (found, plain). ground arith)
  | inr (a, e) ↦ (λ h. ((a, e), ground arith), λ (found, plain). ground arith)
]

is_negotiated_iff : (o : NegotiationOutcome) → (is_negotiated o ≡ true) ↔ (o ≡ negotiated)
is_negotiated_iff o = (λ h. ground arith, λ h. ground arith)

session_kept :
    (b : Bool) (r : NegotiationResult)
    → is_negotiated (if b then r else without_session r).outcome ≡ (b && is_negotiated r.outcome)
session_kept true r = refl
session_kept false r = without_session-outcome r

negotiate_call-negotiated :
    (offered : AuditCapability) (c : ToolCall) (s : Seam)
    → (state_of c s).negotiated ≡ false
    → (state_of c (negotiate_call offered c s).1).negotiated ≡ (
        same_capability offered s.declares
        && ((c.modern || s.handshake_seen)
            && (is_audited c && is_negotiated (negotiate c.host_capability offered).outcome)))
unfolding negotiate_call
negotiate_call-negotiated offered c s before =
    elim (Bool-cases (same_capability offered s.declares)) [
      | inl e ↦ ground (arith, session_kept (is_audited c) (negotiate c.host_capability offered))
      | inr e ↦ ground arith
    ]

-- A call that was not negotiated becomes so exactly where the handler offers the capability that the
-- seam declares on the wire, the call is a modern one or the handshake has been seen, the host issued
-- an audit session for the call, the call is not augmented with a task, and the host's declaration
-- for the call fits the tool's.
pub negotiate_call_iff :
    (offered : AuditCapability) (c : ToolCall) (s : Seam)
    → (state_of c s).negotiated ≡ false
    → ((state_of c (negotiate_call offered c s).1).negotiated ≡ true) ↔ (
        (offered ≡ s.declares)
        × ((c.modern ≡ true) ⊎ (s.handshake_seen ≡ true))
        × ((a : AuditSession) × (c.audit ≡ some a))
        × (c.task_augmented ≡ false)
        × Fits c.host_capability offered)
negotiate_call_iff offered c s before =
    let same = same_capability_iff offered s.declares in
    let audited = is_audited_iff c in
    let fits = negotiate_iff c.host_capability offered in
    rw (negotiate_call-negotiated offered c s before) (
      λ h.
          let (a, rest) = and_true (same_capability offered s.declares) _ h in
          let (b, rest') = and_true (c.modern || s.handshake_seen) _ rest in
          let (d, e) = and_true (is_audited c) _ rest' in
          (
            same.0 a,
            ground arith,
            (audited.0 d).0,
            (audited.0 d).1,
            fits.0 ((is_negotiated_iff _).0 e),
          ),
      λ (a, b, found, plain, fit).
          let e =
            (is_negotiated_iff (negotiate c.host_capability offered).outcome).1 (fits.1 fit) in
          ground (arith, same.1 a, audited.1 (found, plain)),
    )
