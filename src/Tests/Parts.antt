-- ===== src/Tests/Parts.antt =====
-- Concrete inputs for the parts that a verification and a host use.
use auditable_mcp_sdk_python.Base.{arith, ◌<◌, ◌≡◌, refl, ◌↔◌, true, some, List, [], ◌∷◌, text}
use auditable_mcp_sdk_python.Json.{pos, Json, int, arr, obj, nil, cons, end, field}
use auditable_mcp_sdk_python.Canonical.{
  outside_canonical_domain, canonicalize, has_unsafe_number, unsafe_fields, unsafe_float,
  has_lone_surrogate, surrogate_fields, surrogate_in, sha256_hex,
}
use auditable_mcp_sdk_python.Canonical.Domain.{Occurs, Outside, outside_canonical_domain_iff}
use auditable_mcp_sdk_python.Ledger.{SealedRecord, seal, commit, new_ledger}
use auditable_mcp_sdk_python.Models.{
  l1, l2, no_countersign, host_countersign, AuditCapability, spec_version,
}
use auditable_mcp_sdk_python.Capability.{negotiated, negotiate}
use auditable_mcp_sdk_python.Degradation.{Fits, negotiate_iff}
use auditable_mcp_sdk_python.Storage.{Store, read_all, append}
use auditable_mcp_sdk_python.Ledger
use auditable_mcp_sdk_python.Storage.Laws.{Numbered, append-Numbered}
use auditable_mcp_sdk_python.Reconcile.{EgressObservation, reconcile}
use auditable_mcp_sdk_python.Reconcile.Exact.{Reconciled, reconcile_lem}
use auditable_mcp_sdk_python.Verify.Accounting.{Run, missing_runs, account}
use auditable_mcp_sdk_python.Verify.Runs.{
  InRuns, IsMissing, missing_runs_iff, IsSmallest, account_iff,
}
use auditable_mcp_sdk_python.Tests.Chains.{first_record, second_record}
use auditable_mcp_sdk_python.Base.Dict.{get_or, lookup}
use auditable_mcp_sdk_python.Base.Equality.{str_eq}
use auditable_mcp_sdk_python.Hashing.{compute_record_hash, genesis_hash}
use auditable_mcp_sdk_python.Tests.Framing.{body, members}

missing_runs_iff_example : InRuns 3 (missing_runs (5 ∷ 1 ∷ 0 ∷ [])) ↔ IsMissing 3 (5 ∷ 1 ∷ 0 ∷ [])
missing_runs_iff_example = missing_runs_iff 3 (5 ∷ 1 ∷ 0 ∷ [])

abbrev two_runs : List Run
two_runs = (1, 2) ∷ (4, 6) ∷ []

account_iff_example :
    InRuns 1 (account two_runs 5) ↔ (InRuns 1 two_runs × ¬ (IsSmallest 1 two_runs × (1 < 5)))
account_iff_example =
    account_iff 1 5 two_runs (omega arith, omega arith, (omega arith, omega arith, tt))

abbrev sent : List EgressObservation
sent =
    record { session_id = text "s1"; destination = text "mail" }
    ∷ record { session_id = text "s2"; destination = text "web" }
    ∷ []

reconcile_lem_example :
    Reconciled
      (first_record ∷ [])
      sent
      (text "s1")
      (text "mail")
      (reconcile (first_record ∷ []) sent (text "s1"))
reconcile_lem_example = reconcile_lem (first_record ∷ []) sent (text "s1") (text "mail")

abbrev strict_tool : AuditCapability
strict_tool = record { version = spec_version; level = l2; countersign = host_countersign }

abbrev plain_host : AuditCapability
plain_host = record { version = spec_version; level = l1; countersign = no_countersign }

negotiate_iff_example :
    ((negotiate (some plain_host) strict_tool).outcome ≡ negotiated)
    ↔ Fits (some plain_host) strict_tool
negotiate_iff_example = negotiate_iff (some plain_host) strict_tool

abbrev one_stored : Store
one_stored = (text "a", first_record ∷ []) ∷ []

one_stored-Numbered : Numbered 0 (read_all one_stored (text "a"))
unfolding read_all get_or lookup str_eq Ledger.append seal commit new_ledger compute_record_hash
    canonicalize has_unsafe_number unsafe_fields unsafe_float has_lone_surrogate surrogate_fields
    surrogate_in sha256_hex body members genesis_hash
one_stored-Numbered = (refl, tt)

append-Numbered_example :
    Numbered 0 (read_all (append one_stored (text "a") second_record).1 (text "a"))
append-Numbered_example =
    append-Numbered one_stored (text "a") (text "a") second_record one_stored-Numbered

abbrev nested : Json
nested = arr (cons (obj (field (text "n") (int (pos 9007199254740992)) end)) nil)

outside_canonical_domain_iff_example :
    (outside_canonical_domain nested ≡ true) ↔ ((w : Json) × Occurs w nested × Outside w)
outside_canonical_domain_iff_example = outside_canonical_domain_iff nested
