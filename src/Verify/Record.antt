-- ===== src/Verify/Record.antt =====
-- verify.py: the body of `verify_chain`'s loop, check by check.
use auditable_mcp_sdk_python.Base.{
  ℕ, ◌+◌, Bool, true, false, not, ◌&&◌, ◌||◌, Option, none, some, List, [], ◌∷◌, ◌++◌, Str, str_eq,
  nat_eq, if◌then◌else◌, is_some, Str_eq, Pair_eq, ℕ_eq,
}
use auditable_mcp_sdk_python.Base.Lists.{member, add}
use auditable_mcp_sdk_python.Base.Result.{Result, ok, raised, type_error}
use auditable_mcp_sdk_python.Json.{Json, null, obj, get, is_str}
use auditable_mcp_sdk_python.Fields
use auditable_mcp_sdk_python.Reasons.{
  Reason, schema_invalid, replay_detected, signature_invalid, host_signature_invalid,
  record_hash_mismatch, principal_mismatch, seq_gap, orphaned_outcome,
}
use auditable_mcp_sdk_python.Canonical.{Jcs, outside_canonical_domain}
use auditable_mcp_sdk_python.Hashing.{compute_record_hash, countersignature_payload}
use auditable_mcp_sdk_python.Ledger.{SealedRecord}
use auditable_mcp_sdk_python.Models.{outcome_value, aborted}
use auditable_mcp_sdk_python.Verify.Value.{Key, key_in, hashable_key, scalar_eq, or_null}
use auditable_mcp_sdk_python.Verify.Accounting.{Number, numbered_of}
use auditable_mcp_sdk_python.Verify.Report.{
  Detail, expected_seq, not_canonicalizable, broken_link, stored_hash_differs, no_matching_attempt,
  sealed_twice, principal_differs, event_signature_fails, uncountersigned, partial_triple,
  countersignature_fails, no_binding, log_id_differs, host_key_differs, VerifyIssue,
  ExpectedIdentity, RecordAdapter, Checks,
}

abbrev pub issue : SealedRecord → Reason → Detail → List VerifyIssue
issue r kind detail = record { seq = some r.seq; kind = kind; detail = detail } ∷ []

abbrev pub issue_if : Bool → SealedRecord → Reason → Detail → List VerifyIssue
issue_if b r kind detail = if b then issue r kind detail else []

unfoldable pub order_issues : ℕ → SealedRecord → List VerifyIssue
order_issues index r = issue_if (not (nat_eq r.seq index)) r seq_gap (expected_seq index r.seq)

-- The issues of the hash checks, whether the record could be hashed, and the link to the next.
pub record Rehashed : Type 0 where
  pub issues : List VerifyIssue
  pub hashable : Bool
  pub recomputed : Str

unfoldable pub rehash : Jcs → SealedRecord → Str → Rehashed
rehash c r prev = elim (compute_record_hash c r.event r.seq r.host_ts prev) [
  | none ↦ record {
    issues = issue r schema_invalid not_canonicalizable;
    hashable = false;
    recomputed = r.record_hash;
  }
  | some h ↦ record {
    issues =
        issue_if (not (str_eq r.previous_hash prev)) r record_hash_mismatch broken_link
        ++ issue_if (not (str_eq r.record_hash h)) r record_hash_mismatch stored_hash_differs;
    hashable = true;
    recomputed = h;
  }
]

-- `isinstance(inner, Mapping) and inner.get(OUTCOME) == Outcome.ABORTED`
abbrev pub is_refusal : Json → Bool
is_refusal (obj inner) = is_str (get Fields.outcome inner) (outcome_value aborted)
is_refusal _ = false

-- The issues, and the attempts so far.
unfoldable pub correlate :
    RecordAdapter → SealedRecord → List Key → Result (List VerifyIssue × List Key)
correlate a r attempts = elim (a.id_of r.event) [
  | none ↦ ok ([], attempts)
  | some k ↦
      if not (hashable_key k)
      then raised type_error
      else if a.is_attempt r.event
      then ok ([], k ∷ attempts)
      else ok (
        issue_if (not (key_in k attempts) && not (is_refusal (a.event_of r.event))) r
            orphaned_outcome (no_matching_attempt k),
        attempts,
      )
]

abbrev number_in : Json → Option Number
number_in (obj inner) = numbered_of inner
number_in _ = none

unfoldable pub number_issues :
    RecordAdapter → SealedRecord → List Number → List VerifyIssue × List Number
number_issues a r numbered = elim (number_in (a.event_of r.event)) [
  | none ↦ ([], numbered)
  | some n ↦ (issue_if (member n numbered) r replay_detected (sealed_twice n), add n numbered)
]

-- `expected_principal is not None`
abbrev pub given : Option Json → Option Json
given (some null) = none
given p = p

unfoldable pub principal_issues : Checks → SealedRecord → List VerifyIssue
principal_issues k r = elim (given k.expected_principal) [
  | none ↦ []
  | some p ↦
      issue_if (not (scalar_eq (k.adapter.principal_of r.event) p)) r principal_mismatch
        principal_differs
]

-- The event's own signature: the issues, and whether it went unchecked.
unfoldable pub signature_issues : Checks → SealedRecord → Bool → List VerifyIssue × Bool
signature_issues k r hashable = elim (k.adapter.event_of r.event) [
  | obj inner ↦
      if hashable && not (scalar_eq (or_null (get Fields.signature inner)) null)
      then elim k.signature_checker [
        | none ↦ ([], true)
        | some check ↦ (
          issue_if (outside_canonical_domain (obj inner) || not (check inner)) r signature_invalid
              event_signature_fails,
          false,
        )
      ]
      else ([], false)
  | _ ↦ ([], false)
]

abbrev pub count_present : Option Str → Option Str → Option Str → ℕ
count_present a b c =
    (if is_some a then 1 else 0) + (if is_some b then 1 else 0) + (if is_some c then 1 else 0)

abbrev pub payload_verifies : Option Str → (Str → Bool) → Bool
payload_verifies none check = false
payload_verifies (some payload) check = check payload

-- Of a record with the whole triple.
abbrev check_countersignature :
    Jcs → Checks → SealedRecord → Bool → Str → Str → Str → List VerifyIssue × Bool
check_countersignature c k r hashable signature key_id log_id =
    if not hashable then ([], false) else elim k.countersignature_checker [
      | none ↦ ([], true)
      | some check ↦ (
        issue_if
            (not (
              payload_verifies
                (countersignature_payload c r.seq r.host_ts log_id r.previous_hash r.record_hash)
                (check key_id signature)))
            r host_signature_invalid (countersignature_fails key_id),
        false,
      )
    ]

abbrev by_triple :
    Jcs
    → Checks
    → SealedRecord
    → Bool
    → Option Str
    → Option Str
    → Option Str
    → List VerifyIssue × Bool
by_triple c k r hashable none none none =
    (issue_if k.countersignature_required r host_signature_invalid uncountersigned, false)
by_triple c k r hashable (some signature) (some key_id) (some log_id) =
    check_countersignature c k r hashable signature key_id log_id
by_triple c k r hashable _ _ _ = (issue r host_signature_invalid partial_triple, false)

-- The countersignature: the issues, and whether it went unchecked.
unfoldable pub countersignature_issues :
    Jcs → Checks → SealedRecord → Bool → List VerifyIssue × Bool
countersignature_issues c k r hashable =
    by_triple c k r hashable r.host_signature r.host_key_id r.log_id

-- `_identity_mismatch`
abbrev mismatch_of : ExpectedIdentity → Option Str → Option Str → Option Str → Option Detail
mismatch_of expected (some _) (some key_id) (some log_id) =
    if not (str_eq log_id expected.log_id)
    then some log_id_differs
    else if member key_id expected.host_key_ids
    then none
    else some host_key_differs
mismatch_of expected _ _ _ = some no_binding

unfoldable pub identity_mismatch : SealedRecord → ExpectedIdentity → Option Detail
identity_mismatch r expected = mismatch_of expected r.host_signature r.host_key_id r.log_id

unfoldable pub identity_issues : Checks → SealedRecord → List VerifyIssue
identity_issues k r = elim k.expected_identity [
  | none ↦ []
  | some expected ↦ elim (identity_mismatch r expected) [
    | none ↦ []
    | some detail ↦ issue r principal_mismatch detail
  ]
]
