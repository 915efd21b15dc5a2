-- ===== src/Verify.antt =====
-- verify.py: the verification of a sealed ledger.
pub mod Value
pub mod Accounting
pub mod Report
pub mod Record
pub mod Runs
pub mod Round
pub mod Intact
pub mod Totality
pub mod Tamper
use auditable_mcp_sdk_python.Base.{
  ℕ, zero, suc, ◌+◌, Bool, true, false, not, ◌&&◌, ◌||◌, Option, none, some, List, [], ◌∷◌, ◌++◌,
  map, Str, text, str_eq, nat_eq, ltb, if◌then◌else◌, Eq, ℕ_eq, Option_eq, option_eq,
}
use auditable_mcp_sdk_python.Base.Lists.{length, member}
use auditable_mcp_sdk_python.Base.Result.{Result, ok, raised, value_error, ◌>>=◌}
use auditable_mcp_sdk_python.Json.{Json, null, str, arr, obj, Fields, get, get_str}
use auditable_mcp_sdk_python.Fields
use auditable_mcp_sdk_python.Reasons.{schema_invalid, digest_mismatch, signer_seq_gap, is_reason}
use auditable_mcp_sdk_python.Canonical.{Jcs, outside_canonical_domain}
use auditable_mcp_sdk_python.Hashing.{genesis_hash}
use auditable_mcp_sdk_python.Ledger.{SealedRecord}
use auditable_mcp_sdk_python.Models.Event.{is_sealed_event}
use Value.{Key}
use Accounting.{Number, UnaccountedSignerSeq, unaccounted_signer_seq}
use Report.{
  Detail, gap, anchored_differs, invalid_event, outside_domain, version_regressed, VerifyIssue,
  Check, countersignature, level_2_signature, VerifyReport, RecordAdapter, Checks,
}
use Record.{
  order_issues, rehash, correlate, number_issues, principal_issues, signature_issues,
  countersignature_issues, identity_issues,
}

-- What the loop over the records carries.
pub record Scan : Type 0 where
  pub issues : List VerifyIssue
  pub attempts : List Key
  pub numbered : List Number
  pub prev : Str
  pub countersignature_unchecked : Bool
  pub l2_unchecked : Bool

abbrev pub start : Scan
start = record {
  issues = [];
  attempts = [];
  numbered = [];
  prev = genesis_hash;
  countersignature_unchecked = false;
  l2_unchecked = false;
}

-- One round of the loop.
unfoldable pub check_record : Jcs → Checks → ℕ → SealedRecord → Scan → Result Scan
check_record c k index r s =
    let h = rehash c r s.prev in
    correlate k.adapter r s.attempts >>= λ found.
    let numbers = number_issues k.adapter r s.numbered in
    let signed = signature_issues k r h.hashable in
    let confirmed = countersignature_issues c k r h.hashable in
    ok (record {
      issues =
          s.issues
          ++ (order_issues index r
              ++ (h.issues
                  ++ (found.0
                      ++ (numbers.0
                          ++ (principal_issues k r
                              ++ (signed.0 ++ (confirmed.0 ++ identity_issues k r)))))));
      attempts = found.1;
      numbered = numbers.1;
      prev = h.recomputed;
      countersignature_unchecked = s.countersignature_unchecked || confirmed.1;
      l2_unchecked = s.l2_unchecked || signed.1;
    })

unfoldable pub scan : Jcs → Checks → ℕ → List SealedRecord → Scan → Result Scan
scan c k index [] s = ok s
scan c k index (r ∷ rs) s = check_record c k index r s >>= λ s'. scan c k (index + 1) rs s'

unfoldable pub gap_issues : List UnaccountedSignerSeq → List VerifyIssue
gap_issues [] = []
gap_issues (g ∷ gs) = record { seq = none; kind = signer_seq_gap; detail = gap g } ∷ gap_issues gs

unfoldable pub digest_issues : Option Str → Str → List VerifyIssue
digest_issues none computed = []
digest_issues (some anchored) computed =
    if str_eq anchored computed
    then []
    else record { seq = none; kind = digest_mismatch; detail = anchored_differs anchored computed }
      ∷ []

unfoldable pub unchecked_of : Scan → List Check
unchecked_of s =
    (if s.countersignature_unchecked then countersignature ∷ [] else [])
    ++ (if s.l2_unchecked then level_2_signature ∷ [] else [])

-- A list, a dict or, as None, no expectation: only a primitive is compared.
abbrev pub structured : Option Json → Bool
structured (some (arr _)) = true
structured (some (obj _)) = true
structured _ = false

unfoldable pub events_of : RecordAdapter → List SealedRecord → List Json
events_of a rs = map (λ r. a.event_of r.event) rs

unfoldable pub report_of : ℕ → Option Str → Scan → List UnaccountedSignerSeq → VerifyReport
report_of count anchored s gaps = record {
  count = count;
  computed_digest = s.prev;
  issues = s.issues ++ (gap_issues gaps ++ digest_issues anchored s.prev);
  unchecked = unchecked_of s;
}

unfoldable pub verify_chain : Jcs → List SealedRecord → Option Str → Checks → Result VerifyReport
verify_chain c rs anchored k =
    if structured k.expected_principal
    then raised value_error
    else (scan c k 0 rs start >>= λ s. unaccounted_signer_seq (events_of k.adapter rs) >>= λ gaps.
        ok (report_of (length rs) anchored s gaps))

-- `_VERSION_RANK`
unfoldable pub version_rank : Json → Option ℕ
version_rank (str v) =
    if str_eq v (text "auditable-mcp/0.1")
    then some 0
    else if str_eq v (text "auditable-mcp/0.1.1")
    then some 1
    else if str_eq v (text "auditable-mcp/0.2")
    then some 2
    else if str_eq v (text "auditable-mcp/0.3")
    then some 3
    else if str_eq v (text "auditable-mcp/0.4")
    then some 4
    else none
version_rank _ = none

abbrev pub rank_of : Json → Option ℕ
rank_of (obj inner) = elim (get Fields.spec_version inner) [ none ↦ none | some v ↦ version_rank v ]
rank_of _ = none

-- `_version_regressions`; `latest` is one more than the highest rank so far, 0 before any.
unfoldable pub version_regressions : RecordAdapter → ℕ → List SealedRecord → List VerifyIssue
version_regressions a latest [] = []
version_regressions a latest (r ∷ rs) = elim (rank_of (a.event_of r.event)) [
  | none ↦ version_regressions a latest rs
  | some rank ↦
      let later = version_regressions a latest rs in
      let raised_to = version_regressions a (rank + 1) rs in
      if ltb (rank + 1) latest
      then record { seq = some r.seq; kind = schema_invalid; detail = version_regressed } ∷ later
      else raised_to
]

unfoldable pub sealed_error : (ℕ → Bool) → Json → Option Detail
sealed_error d event =
    if not (is_sealed_event d event)
    then some invalid_event
    else if outside_canonical_domain event
    then some outside_domain
    else none

-- `issue.seq for issue in report.issues if issue.kind == SCHEMA_INVALID`
unfoldable pub already : List VerifyIssue → List (Option ℕ)
already [] = []
already (i ∷ is) =
    let rest = already is in if is_reason i.kind schema_invalid then i.seq ∷ rest else rest

unfoldable pub schema_issues :
    (ℕ → Bool) → RecordAdapter → List (Option ℕ) → List SealedRecord → List VerifyIssue
schema_issues d a known [] = []
schema_issues d a known (r ∷ rs) =
    let rest = schema_issues d a known rs in
    if member (some r.seq) known then rest else elim (sealed_error d (a.event_of r.event)) [
      | none ↦ rest
      | some e ↦ record { seq = some r.seq; kind = schema_invalid; detail = e } ∷ rest
    ]

unfoldable pub verify_ledger :
    (ℕ → Bool) → Jcs → List SealedRecord → Option Str → Checks → Result VerifyReport
verify_ledger d c rs anchored k = verify_chain c rs anchored k >>= λ report. ok (record report {
  issues =
      report.issues
      ++ (schema_issues d k.adapter (already report.issues) rs
          ++ version_regressions k.adapter 0 rs);
})
