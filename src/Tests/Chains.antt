-- ===== src/Tests/Chains.antt =====
-- Two records that a ledger sealed, their verification, and the stores they stand in.
use auditable_mcp_sdk_python.Base.{
  ◌≡◌, refl, false, Option, none, some, [], ◌∷◌, Str, text, ◌↔◌, ◌++◌,
}
use auditable_mcp_sdk_python.Base.Result.{ok}
use auditable_mcp_sdk_python.Json.{str, Fields, end, field, get, get_str}
use auditable_mcp_sdk_python.Fields
use auditable_mcp_sdk_python.Hashing.{genesis_hash, compute_record_hash}
use auditable_mcp_sdk_python.Ledger.{SealedRecord, Ledger, new_ledger, commit, append, digest, seal}
use auditable_mcp_sdk_python.Ledger.Wire.{to_dict, from_dict, from_dict-to_dict}
use auditable_mcp_sdk_python.Ledger.Chain.{
  IsChain, tail_of, IsValid, new_ledger-IsValid, append-IsValid,
}
use auditable_mcp_sdk_python.Verify.Report.{
  VerifyReport, default_adapter, is_ok, Checks, top_level_id,
}
use auditable_mcp_sdk_python.Verify.{
  verify_chain, scan, check_record, digest_issues, events_of, gap_issues, report_of, unchecked_of,
}
use auditable_mcp_sdk_python.Verify.Round.{Untampered}
use auditable_mcp_sdk_python.Verify.Intact.{verify_chain-intact_iff, verify_chain-clean}
use auditable_mcp_sdk_python.Verify.Tamper.{SameRecords, verify_chain-tamper_evident}
use auditable_mcp_sdk_python.Tests.Framing.{body, members, framing, framing-IsBinding}
use auditable_mcp_sdk_python.Canonical.{
  canonicalize, has_unsafe_number, has_lone_surrogate, surrogate_in, sha256_hex,
  outside_canonical_domain, unsafe_float, unsafe_fields, surrogate_fields,
}
use auditable_mcp_sdk_python.Verify.Record.{
  correlate, countersignature_issues, identity_issues, number_issues, order_issues,
  principal_issues, rehash, signature_issues,
}
use auditable_mcp_sdk_python.Base.Dict.{get_or, insert, lookup}
use auditable_mcp_sdk_python.Base.Equality.{pair_eq, str_eq}
use auditable_mcp_sdk_python.Base.Lists.{add, insert_sorted, member, sort, All}
use auditable_mcp_sdk_python.Verify.Accounting.{
  account, account_all, account_groups, add_to_group, count_of, gaps_of, group, missing_runs,
  numbered_of, present_in, refusal_reason, refusals, runs_from, unaccounted_signer_seq,
}
use auditable_mcp_sdk_python.Verify.Value.{hashable, key_in, scalar_eq, Key}
use auditable_mcp_sdk_python.Verify.Totality.{Returns, IsReadable, verify_chain-Returns}

abbrev pub attempt_event : Fields
attempt_event =
    field Fields.id (str (text "e1")) (field Fields.outcome (str (text "attempted")) end)

abbrev pub success_event : Fields
success_event = field Fields.id (str (text "e1")) (field Fields.outcome (str (text "success")) end)

abbrev pub host_time : Str
host_time = text "2026-01-02T03:04:05Z"

abbrev or_given : Ledger → Option (SealedRecord × Ledger) → Ledger
or_given l none = l
or_given l (some (_, l')) = l'

abbrev appended : Ledger → Fields → Ledger
appended l e = or_given l (append framing l e host_time)

abbrev pub empty_ledger : Ledger
empty_ledger = new_ledger (text "partition")

abbrev pub two_records : Ledger
two_records = appended (appended empty_ledger attempt_event) success_event

abbrev pub plain_checks : Checks
plain_checks = record {
  adapter = default_adapter;
  expected_principal = none;
  countersignature_checker = none;
  signature_checker = none;
  expected_identity = none;
  countersignature_required = false;
}

abbrev clean_report : VerifyReport
clean_report = record {
  count = 2;
  computed_digest = digest two_records;
  issues = [];
  unchecked = [];
}

two_records-verified :
    verify_chain framing two_records.records (some (digest two_records)) plain_checks
    ≡ ok clean_report
unfolding verify_chain scan append seal compute_record_hash canonicalize has_unsafe_number
    new_ledger has_lone_surrogate surrogate_in genesis_hash commit digest sha256_hex body members
    check_record correlate top_level_id get get_or insert lookup pair_eq str_eq add insert_sorted
    member sort outside_canonical_domain unsafe_float unsafe_fields surrogate_fields get_str account
    account_all account_groups add_to_group count_of gaps_of group missing_runs numbered_of
    present_in refusal_reason refusals runs_from unaccounted_signer_seq countersignature_issues
    identity_issues number_issues order_issues principal_issues rehash signature_issues hashable
    key_in scalar_eq digest_issues events_of gap_issues report_of unchecked_of
two_records-verified = refl

abbrev one_record : Ledger
one_record = appended empty_ledger attempt_event

abbrev first_of : Option (SealedRecord × Ledger) → Option SealedRecord
first_of none = none
first_of (some (r, _)) = some r

abbrev pub given : SealedRecord → Option SealedRecord → SealedRecord
given r none = r
given _ (some r) = r

abbrev blank : SealedRecord
blank = record {
  event = end;
  seq = 0;
  host_ts = [];
  previous_hash = [];
  record_hash = [];
  host_signature = none;
  host_key_id = none;
  log_id = none;
}

abbrev pub first_record : SealedRecord
first_record = given blank (first_of (append framing empty_ledger attempt_event host_time))

abbrev pub second_record : SealedRecord
second_record = given blank (first_of (append framing one_record success_event host_time))

two_records-IsValid : IsValid framing 0 genesis_hash two_records
unfolding append seal commit new_ledger compute_record_hash canonicalize has_unsafe_number
    unsafe_fields unsafe_float has_lone_surrogate surrogate_fields surrogate_in sha256_hex body
    members genesis_hash digest
two_records-IsValid = record {
  chain = (refl, refl, refl, (refl, refl, refl, tt));
  counted = refl;
  tailed = refl;
}

first-appended :
    append framing empty_ledger attempt_event host_time ≡ some (first_record, one_record)
unfolding append seal commit new_ledger compute_record_hash canonicalize has_unsafe_number
    unsafe_fields unsafe_float has_lone_surrogate surrogate_fields surrogate_in sha256_hex body
    members genesis_hash digest
first-appended = refl

verify_chain-tamper_evident_example : SameRecords framing two_records.records two_records.records
verify_chain-tamper_evident_example =
    verify_chain-tamper_evident framing two_records two_records.records plain_checks clean_report
      framing-IsBinding two_records-IsValid two_records-verified (unfold is_ok in refl)

verify_chain-intact_iff_example :
    Untampered clean_report.issues ↔ IsChain framing 0 genesis_hash two_records.records
verify_chain-intact_iff_example =
    verify_chain-intact_iff framing two_records.records (some (digest two_records)) plain_checks
      clean_report two_records-verified

verify_chain-clean_example :
    IsChain framing 0 genesis_hash two_records.records
    × (digest two_records ≡ tail_of genesis_hash two_records.records)
verify_chain-clean_example =
    verify_chain-clean framing two_records.records (digest two_records) plain_checks clean_report
      two_records-verified (unfold is_ok in refl)

append-IsValid_example :
    IsValid framing 0 genesis_hash one_record
    × (one_record.records ≡ empty_ledger.records ++ first_record ∷ [])
    × (first_record.event ≡ attempt_event)
    × (first_record.host_ts ≡ host_time)
    × (one_record.tail_hash ≡ first_record.record_hash)
append-IsValid_example =
    append-IsValid framing 0 genesis_hash empty_ledger attempt_event host_time first_record
      one_record (new_ledger-IsValid framing (text "partition")) first-appended

from_dict-to_dict_example : from_dict (to_dict second_record) ≡ some second_record
from_dict-to_dict_example = from_dict-to_dict second_record

some_key : {a b : Key} → some a ≡ some b → a ≡ b
some_key e = cc

two_records-IsReadable : All (IsReadable default_adapter) two_records.records
unfolding append seal commit new_ledger compute_record_hash canonicalize has_unsafe_number
    unsafe_fields unsafe_float has_lone_surrogate surrogate_fields surrogate_in sha256_hex body
    members genesis_hash top_level_id get str_eq hashable
two_records-IsReadable = (
  (λ k e. rw (← some_key e) refl, (refl, refl)),
  ((λ k e. rw (← some_key e) refl, (refl, refl)), tt),
)

verify_chain-Returns_example :
    Returns (verify_chain framing two_records.records (some (digest two_records)) plain_checks)
verify_chain-Returns_example =
    verify_chain-Returns framing two_records.records (some (digest two_records)) plain_checks refl
      two_records-IsReadable
