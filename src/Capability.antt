-- ===== src/Capability.antt =====
-- capability.py: does a host's declaration fit a tool's (§6.1)?
use auditable_mcp_sdk_python.Base.{ℕ, Bool, true, false, ◌&&◌, Option, none, some, leb, str_eq}
use auditable_mcp_sdk_python.Models.{
  Level, l1, l2, Countersign, no_countersign, host_countersign, AuditCapability,
}

pub data NegotiationOutcome : Type 0 where
  negotiated undeclared mismatch no_session : NegotiationOutcome

pub record NegotiationResult : Type 0 where
  pub tool : AuditCapability
  pub host : Option AuditCapability
  pub outcome : NegotiationOutcome
  pub version_match : Bool
  pub level_fit : Bool
  pub countersign_fit : Bool

-- `NegotiationResult.negotiated`
abbrev pub is_negotiated : NegotiationOutcome → Bool
is_negotiated negotiated = true
is_negotiated _ = false

-- _LEVEL_RANK
abbrev pub level_rank : Level → ℕ
level_rank l1 = 1
level_rank l2 = 2

-- _COUNTERSIGN_RANK
abbrev pub countersign_rank : Countersign → ℕ
countersign_rank no_countersign = 1
countersign_rank host_countersign = 2

unfoldable pub level_satisfies : AuditCapability → AuditCapability → Bool
level_satisfies tool host = leb (level_rank host.level) (level_rank tool.level)

unfoldable pub countersign_satisfies : AuditCapability → AuditCapability → Bool
countersign_satisfies host tool =
    leb (countersign_rank tool.countersign) (countersign_rank host.countersign)

abbrev pub outcome_of : Bool → NegotiationOutcome
outcome_of true = negotiated
outcome_of false = mismatch

unfoldable pub negotiate : Option AuditCapability → AuditCapability → NegotiationResult
unfolding level_satisfies countersign_satisfies
negotiate none tool = record {
  tool = tool;
  host = none;
  outcome = undeclared;
  version_match = false;
  level_fit = false;
  countersign_fit = false;
}
negotiate (some host) tool =
    let version_match = str_eq tool.version host.version in
    let level_fit = level_satisfies tool host in
    let countersign_fit = countersign_satisfies host tool in
    record {
      tool = tool;
      host = some host;
      outcome = outcome_of (version_match && level_fit && countersign_fit);
      version_match = version_match;
      level_fit = level_fit;
      countersign_fit = countersign_fit;
    }
