-- ===== src/Reasons.antt =====
-- reasons.py: the Tier-1 codes. One type holds the three code spaces, which share some codes.
use auditable_mcp_sdk_python.Base.{ℕ, Bool, Str, text, nat_eq}

pub data Reason : Type 0 where
  schema_invalid replay_detected signature_invalid l2_unsigned unknown_key internal_error : Reason
  hash_mismatch host_rejected host_unavailable host_uncountersigned : Reason
  host_signature_invalid record_hash_mismatch digest_mismatch principal_mismatch : Reason
  seq_gap signer_seq_gap orphaned_outcome unresolved_attempt unreported_egress : Reason

-- A number for each code, by which codes are compared.
abbrev pub ordinal : Reason → ℕ
ordinal schema_invalid = 0
ordinal replay_detected = 1
ordinal signature_invalid = 2
ordinal l2_unsigned = 3
ordinal unknown_key = 4
ordinal internal_error = 5
ordinal hash_mismatch = 6
ordinal host_rejected = 7
ordinal host_unavailable = 8
ordinal host_uncountersigned = 9
ordinal host_signature_invalid = 10
ordinal record_hash_mismatch = 11
ordinal digest_mismatch = 12
ordinal principal_mismatch = 13
ordinal seq_gap = 14
ordinal signer_seq_gap = 15
ordinal orphaned_outcome = 16
ordinal unresolved_attempt = 17
ordinal unreported_egress = 18

unfoldable pub is_reason : Reason → Reason → Bool
is_reason a b = nat_eq (ordinal a) (ordinal b)

-- The text of the code, as it stands on the wire.
abbrev pub code : Reason → Str
code schema_invalid = text "schema-invalid"
code replay_detected = text "replay-detected"
code signature_invalid = text "signature-invalid"
code l2_unsigned = text "l2-unsigned"
code unknown_key = text "unknown-key"
code internal_error = text "internal-error"
code hash_mismatch = text "hash-mismatch"
code host_rejected = text "host-rejected"
code host_unavailable = text "host-unavailable"
code host_uncountersigned = text "host-uncountersigned"
code host_signature_invalid = text "host-signature-invalid"
code record_hash_mismatch = text "record-hash-mismatch"
code digest_mismatch = text "digest-mismatch"
code principal_mismatch = text "principal-mismatch"
code seq_gap = text "seq-gap"
code signer_seq_gap = text "signer-seq-gap"
code orphaned_outcome = text "orphaned-outcome"
code unresolved_attempt = text "unresolved-attempt"
code unreported_egress = text "unreported-egress"
