-- ===== src/Host/State.antt =====
-- host.py: the state of an `AuditHost` and the steps on it that nothing outside takes part in.
use auditable_mcp_sdk_python.Base.{
  ℕ, Bool, true, false, Option, none, some, List, [], ◌∷◌, ◌++◌, Str, text, leb, if◌then◌else◌,
  Str_eq, ℕ_eq,
}
use auditable_mcp_sdk_python.Base.Lists.{add}
use auditable_mcp_sdk_python.Base.Dict.{Dict, lookup, insert, get_or}
use auditable_mcp_sdk_python.Json.{pos, integral, Json, int, float, Fields, get, get_str, is_str}
use auditable_mcp_sdk_python.Fields
use auditable_mcp_sdk_python.Canonical.{max_safe_integer}
use auditable_mcp_sdk_python.Reasons.{Reason, signature_invalid, l2_unsigned, unknown_key}
use auditable_mcp_sdk_python.Models.{
  l1, l2, AuditCapability, AcceptResponse, outcome_value, attempted,
}
use auditable_mcp_sdk_python.Ledger.{SealedRecord, Ledger}

-- The `detail` texts, each with the values that the text shows.
pub data Note : Type 0 where
  invalid_shape not_an_attempt not_an_outcome not_canonicalizable : Note
  wrong_session : Option Str → Note
  unsigned verification_failed : Note
  unexpected_seq : ℕ → ℕ → Note
  decided_seq : ℕ → Note
  sealed_differently concluded second_outcome orphan_of_rejected orphan : Note
  call_ended host_restarted : Str → Note

pub record IntegrityAnomaly : Type 0 where
  pub id : Str
  pub kind : Reason
  pub detail : Note

-- `_Session`
pub record Session : Type 0 where
  pub decided : Dict Str (List ℕ)
  pub received : Dict Str ℕ
  pub accepted : List Str
  pub resolved : List Str
  pub outcomes : Dict Str Str

abbrev pub new_session : Session
new_session = record { decided = []; received = []; accepted = []; resolved = []; outcomes = [] }

pub record Host : Type 0 where
  pub capability : AuditCapability
  pub partition : Str
  pub log_id : Str
  -- The `key_id` of the countersigner, where the host holds one.
  pub countersigner : Option Str
  pub has_verifier : Bool
  pub has_repository : Bool
  pub persistence_available : Bool
  pub ledger : Ledger
  pub sessions : Dict Str Session
  pub issued : List Str
  pub tail_uncertain : Bool
  pub sealed_attempts : Dict Str SealedRecord
  pub sealed_digests : List Str
  pub rejected_ids : List Str
  pub anomalies : List IntegrityAnomaly

-- `_ANOMALY_KIND_OF.get(kind, kind)`
abbrev pub anomaly_kind : Reason → Reason
anomaly_kind l2_unsigned = signature_invalid
anomaly_kind unknown_key = signature_invalid
anomaly_kind kind = kind

-- `_flag`
unfoldable pub flag : Str → Reason → Note → Host → Host
flag id kind note h = record h {
  anomalies = h.anomalies ++ record { id = id; kind = anomaly_kind kind; detail = note } ∷ [];
}

abbrev pub or_unknown : Option Str → Str
or_unknown none = text "<unknown>"
or_unknown (some s) = s

-- `_event_id`
unfoldable pub event_id : Fields → Str
event_id event = or_unknown (get_str Fields.id event)

-- `_signer_seq`; a negative number, which no valid event has, is left out.
unfoldable pub seq_of : Option Json → Option ℕ
seq_of (some (int (pos n))) = some n
seq_of (some (float (integral (pos n)))) = if leb n max_safe_integer then some n else none
seq_of _ = none

unfoldable pub signer_seq : Fields → Option ℕ
signer_seq event = seq_of (get Fields.signer_seq event)

-- The key and the number, where the event carries both.
unfoldable pub key_and_seq : Fields → Option (Str × ℕ)
key_and_seq event = elim (get_str Fields.key_id event) [
  | none ↦ none
  | some k ↦ elim (signer_seq event) [ none ↦ none | some n ↦ some (k, n) ]
]

abbrev pub is_level_2 : Host → Bool
is_level_2 h = elim h.capability.level [ l1 ↦ false | l2 ↦ true ]

abbrev pub is_attempt : Fields → Bool
is_attempt event = is_str (get Fields.outcome event) (outcome_value attempted)

-- A change to an open session, which the program makes through a reference to it.
unfoldable pub update_session : Str → (Session → Session) → Host → Host
update_session sid f h = elim (lookup sid h.sessions) [
  | none ↦ h
  | some s ↦ record h { sessions = insert sid (f s) h.sessions }
]

abbrev pub note_decided : Str → ℕ → Session → Session
note_decided k n s = record s { decided = insert k (add n (get_or k [] s.decided)) s.decided }

abbrev pub note_accepted : Str → Session → Session
note_accepted id s = record s { accepted = add id s.accepted }

abbrev pub note_resolved : Str → Session → Session
note_resolved id s = record s { resolved = add id s.resolved }

abbrev pub note_outcome : Str → Str → Session → Session
note_outcome id digest s = record s { outcomes = insert id digest s.outcomes }

abbrev pub note_received : Str → ℕ → Session → Session
note_received k n s = record s { received = insert k n s.received }

-- `_decide`
unfoldable pub decide : Fields → Str → Host → Host
decide event sid h =
    if is_level_2 h
    then elim (key_and_seq event) [
      | none ↦ h
      | some (k, n) ↦ update_session sid (note_decided k n) h
    ]
    else h

unfoldable pub reject_id : Str → Host → Host
reject_id id h = record h { rejected_ids = add id h.rejected_ids }

-- `_accept_of`
unfoldable pub accept_of : SealedRecord → AcceptResponse
accept_of r = record {
  seq = r.seq;
  record_hash = r.record_hash;
  host_ts = r.host_ts;
  previous_hash = r.previous_hash;
  host_signature = r.host_signature;
  host_key_id = r.host_key_id;
  log_id = r.log_id;
}
