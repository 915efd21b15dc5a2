-- ===== src/Degradation.antt =====
-- degradation.py: which transport a tool may use for a call, or that it must not serve it (§6.2).
use auditable_mcp_sdk_python.Base.{
  ◌≡◌, refl, ◌↔◌, ◌⊎◌, inl, inr, Option, none, some, arith, if◌then◌else◌, str_eq_iff,
}
use auditable_mcp_sdk_python.Models.{
  l1, l2, Countersign, no_countersign, host_countersign, AuditCapability,
}
use auditable_mcp_sdk_python.Capability.{
  NegotiationOutcome, negotiated, NegotiationResult, is_negotiated, negotiate,
}

pub data Posture : Type 0 where
  degraded mandatory : Posture

-- A transport, or the exception raised.
pub data Served (T : Type 0) : Type 0 where
  serve_over : T → Served T
  unnegotiated_call : Served T
  value_error : Served T

abbrev over_fallback : {T : Type 0} → Option T → Served T
over_fallback none = value_error
over_fallback (some f) = serve_over f

abbrev degrade : {T : Type 0} → Countersign → Option T → Served T
degrade host_countersign fallback = value_error
degrade no_countersign fallback = over_fallback fallback

abbrev by_posture : {T : Type 0} → Posture → Countersign → Option T → Served T
by_posture mandatory c fallback = unnegotiated_call
by_posture degraded c fallback = degrade c fallback

unfoldable pub transport_for : {T : Type 0} → NegotiationResult → T → Option T → Posture → Served T
transport_for n over fallback posture =
    if is_negotiated n.outcome
    then serve_over over
    else by_posture posture n.tool.countersign fallback

-- The tool's declaration meets the host's: the same version, a level at least the one required by
-- the host, and a countersignature where the tool requires one.
abbrev pub Fits : Option AuditCapability → AuditCapability → Type 0
Fits none tool = ⊥
Fits (some host) tool =
    (tool.version ≡ host.version)
    × ((host.level ≡ l1) ⊎ (tool.level ≡ l2))
    × ((tool.countersign ≡ no_countersign) ⊎ (host.countersign ≡ host_countersign))

-- A call is audit-negotiated exactly when the host declared a capability that fits the tool's.
pub negotiate_iff :
    (host : Option AuditCapability) (tool : AuditCapability)
    → ((negotiate host tool).outcome ≡ negotiated) ↔ Fits host tool
unfolding negotiate
negotiate_iff none tool = (λ h. cc, λ h. elim h [ ])
negotiate_iff (some host) tool = (
  λ h. ground (arith, str_eq_iff tool.version host.version),
  λ h. ground (arith, str_eq_iff tool.version host.version),
)

-- What may become of a call.
abbrev pub Permitted :
    {T : Type 0}
    → Option AuditCapability
    → AuditCapability
    → T
    → Option T
    → Posture
    → Served T
    → Type 0
Permitted host tool over fallback posture (serve_over t) =
    (Fits host tool × (t ≡ over))
    ⊎ (¬ (Fits host tool)
        × (some t ≡ fallback)
        × (posture ≡ degraded)
        × (tool.countersign ≡ no_countersign))
Permitted host tool over fallback posture unnegotiated_call =
    ¬ (Fits host tool) × (posture ≡ mandatory)
Permitted host tool over fallback posture value_error =
    ¬ (Fits host tool)
    × (posture ≡ degraded)
    × ((tool.countersign ≡ host_countersign) ⊎ (fallback ≡ none))

tool-negotiate :
    (host : Option AuditCapability) (tool : AuditCapability) → (negotiate host tool).tool ≡ tool
unfolding negotiate
tool-negotiate none tool = cc
tool-negotiate (some host) tool = cc

decided :
    {T : Type 0} (host : Option AuditCapability) (tool : AuditCapability) (over : T)
    (fallback : Option T) (posture : Posture) (o : NegotiationOutcome) (c : Countersign)
    → (o ≡ negotiated) ↔ Fits host tool
    → tool.countersign ≡ c
    → Permitted host tool over fallback posture
        (if is_negotiated o then serve_over over else by_posture posture c fallback)
decided host tool over fallback posture negotiated c fit e = inl (fit.0 refl, refl)
decided host tool over fallback mandatory _ c fit e = (λ f. cc (fit.1 f), refl)
decided host tool over none degraded _ no_countersign fit e = (λ f. cc (fit.1 f), refl, inr refl)
decided host tool over (some t) degraded _ no_countersign fit e =
    inr (λ f. cc (fit.1 f), refl, refl, e)
decided host tool over fallback degraded _ host_countersign fit e = (λ f. cc (fit.1 f), refl, inl e)

-- Where a call goes over the transport to the host, the declarations fit; where it goes over the
-- tool's own audit host, they do not, the posture is degraded, and the tool requires no
-- countersignature. A call is refused only where they do not fit:
-- in the mandatory posture as not negotiated, and in the degraded one where the tool requires a
-- countersignature or has no audit host of its own.
pub transport_for-Permitted :
    {T : Type 0} (host : Option AuditCapability) (tool : AuditCapability) (over : T)
    (fallback : Option T) (posture : Posture)
    → Permitted host tool over fallback posture
        (transport_for (negotiate host tool) over fallback posture)
unfolding transport_for
transport_for-Permitted host tool over fallback posture = rw tool-negotiate (
    decided host tool over fallback posture (negotiate host tool).outcome tool.countersign
      (negotiate_iff host tool) refl)
