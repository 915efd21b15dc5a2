-- ===== src/Verify/Report.antt =====
-- verify.py: what a verification reports, and what it is asked to check.
use auditable_mcp_sdk_python.Base.{
  ℕ, Bool, true, false, ◌&&◌, Option, none, some, List, [], ◌∷◌, Str,
}
use auditable_mcp_sdk_python.Json.{Json, null, obj, Fields, get}
use auditable_mcp_sdk_python.Fields
use auditable_mcp_sdk_python.Reasons.{Reason}
use auditable_mcp_sdk_python.Verify.Value.{Key, or_null}
use auditable_mcp_sdk_python.Verify.Accounting.{UnaccountedSignerSeq, Number, is_attempt}

-- The `detail` texts, each with the values that the text shows.
pub data Detail : Type 0 where
  expected_seq : ℕ → ℕ → Detail
  not_canonicalizable broken_link stored_hash_differs : Detail
  no_matching_attempt : Key → Detail
  sealed_twice : Number → Detail
  principal_differs event_signature_fails uncountersigned partial_triple : Detail
  countersignature_fails : Str → Detail
  no_binding log_id_differs host_key_differs : Detail
  gap : UnaccountedSignerSeq → Detail
  anchored_differs : Str → Str → Detail
  invalid_event outside_domain version_regressed : Detail

pub record VerifyIssue : Type 0 where
  pub seq : Option ℕ
  pub kind : Reason
  pub detail : Detail

pub data Check : Type 0 where
  countersignature level_2_signature : Check

pub record VerifyReport : Type 0 where
  pub count : ℕ
  pub computed_digest : Str
  pub issues : List VerifyIssue
  pub unchecked : List Check

abbrev pub is_empty : {A : Type 0} → List A → Bool
is_empty [] = true
is_empty (_ ∷ _) = false

-- `VerifyReport.ok`, which the code sets to `len(issues) == 0`
unfoldable pub is_ok : VerifyReport → Bool
is_ok r = is_empty r.issues

-- `VerifyReport.complete`
unfoldable pub is_complete : VerifyReport → Bool
unfolding is_ok
is_complete r = is_ok r && is_empty r.unchecked

pub record ExpectedIdentity : Type 0 where
  pub log_id : Str
  pub host_key_ids : List Str

-- `RecordAdapter`; `none` is the key that exempts a record, and null a missing principal.
pub record RecordAdapter : Type 0 where
  pub id_of : Fields → Option Key
  pub is_attempt : Fields → Bool
  pub event_of : Fields → Json
  pub principal_of : Fields → Json

abbrev scope_of : Option Json → Option Json → Json
scope_of none call = or_null call
scope_of (some s) call = s

-- `event_id is None`
abbrev key_of : Json → Option Json → Option Key
key_of scope none = none
key_of scope (some null) = none
key_of scope (some v) = some (scope, v)

-- `_top_level_id`
unfoldable pub top_level_id : Fields → Option Key
top_level_id event =
    key_of (scope_of (get Fields.session_id event) (get Fields.call_id event)) (get Fields.id event)

-- DEFAULT_ADAPTER
abbrev pub default_adapter : RecordAdapter
default_adapter = record {
  id_of = top_level_id;
  is_attempt = is_attempt;
  event_of = λ event. obj event;
  principal_of = λ event. null;
}

-- The keyword arguments of `verify_chain`.
pub record Checks : Type 0 where
  pub adapter : RecordAdapter
  pub expected_principal : Option Json
  pub countersignature_checker : Option (Str → Str → Str → Bool)
  pub signature_checker : Option (Fields → Bool)
  pub expected_identity : Option ExpectedIdentity
  pub countersignature_required : Bool
