-- ===== src/Tests/Hosts.antt =====
-- A host that lost an acknowledgement, and events for it.
use auditable_mcp_sdk_python.Base.{
  List, map, ℕ, ◌+◌, arith, ◌≡◌, refl, true, false, none, some, [], ◌∷◌, Str, text, if◌then◌else◌,
  Str_eq, ◌++◌, leb, ◌&&◌,
}
use auditable_mcp_sdk_python.Base.Result.{ok}
use auditable_mcp_sdk_python.Json.{bool, str, obj, Fields, end, field}
use auditable_mcp_sdk_python.Fields
use auditable_mcp_sdk_python.Hashing.{genesis_hash, compute_record_hash}
use auditable_mcp_sdk_python.Ledger.{SealedRecord, new_ledger, append, seal, commit}
use auditable_mcp_sdk_python.Ledger.Chain.{new_ledger-IsValid}
use auditable_mcp_sdk_python.Models.{l1, no_countersign, spec_version}
use auditable_mcp_sdk_python.Host.State.{call_ended, new_session, Host}
use auditable_mcp_sdk_python.Host.World.{World}
use auditable_mcp_sdk_python.Host.Attempt.{handle_attempt}
use auditable_mcp_sdk_python.Host.Outcome.{record_outcome}
use auditable_mcp_sdk_python.Host.Seals.{IsWhole, IsHonest}
use auditable_mcp_sdk_python.Host.Accepts.{IsBacked, handle_attempt-IsBacked}
use auditable_mcp_sdk_python.Host.Hashed.{IsHashed}
use auditable_mcp_sdk_python.Host.Bound.{IsCompositional, IsAttested, handle_attempt-IsAttested}
use auditable_mcp_sdk_python.Host.Chain.{handle_attempt-IsWhole, record_outcome-IsWhole}
use auditable_mcp_sdk_python.Tests.Framing.{framing, body, members}
use auditable_mcp_sdk_python.Tests.Chains.{empty_ledger, first_record, host_time}
use auditable_mcp_sdk_python.Canonical.{
  canonicalize, has_unsafe_number, unsafe_fields, unsafe_float, has_lone_surrogate,
  surrogate_fields, surrogate_in, sha256_hex,
}
use auditable_mcp_sdk_python.Base.Equality.{str_eq}
use auditable_mcp_sdk_python.Base.Dict.{lookup}
use auditable_mcp_sdk_python.Host.Lifecycle.{close_session, open_session}
use auditable_mcp_sdk_python.Host.Sessions.{
  IsLeftOpen, anomaly_of, close_session_lem, Opened, open_session_lem,
}

abbrev session : Str
session = text "018f0000-0000-4000-8000-000000000001"

abbrev event_with : Str → Str → Fields
event_with id outcome = field Fields.spec_version (str spec_version) (
    field Fields.id (str id) (
      field Fields.ts (str host_time) (
        field Fields.session_id (str session) (
          field Fields.action_type (str (text "write")) (
            field Fields.mutates (bool true) (
              field Fields.egress (bool false) (
                field Fields.target_resource
                  (obj
                    (field Fields.kind (str (text "file")) (field Fields.ref (str (text "a")) end)))
                  (field Fields.outcome (str outcome) end))))))))

abbrev attempt_id : Str
attempt_id = text "01890000-0000-7000-8000-000000000001"

abbrev aborted_event : Fields
aborted_event =
    field Fields.reason (str (text "host-unavailable")) (event_with attempt_id (text "aborted"))

-- The store gives back the first record; whatever is stored after it is refused by nothing.
abbrev pub recording : World ℕ
recording = record {
  jcs = framing;
  digit = λ c. leb 48 c && leb c 57;
  now = λ w. (host_time, w + 1);
  current_time = λ w. (w, w + 1);
  verify = λ e w. (ok none, w);
  sign = λ s w. (ok s, w);
  store = λ p r w. (ok tt, w + 1);
  load_tail = λ p w. (ok (some first_record), w);
}

abbrev pub uncertain : Host
uncertain = record {
  capability = record { version = spec_version; level = l1; countersign = no_countersign };
  partition = text "partition";
  log_id = text "log";
  countersigner = none;
  has_verifier = false;
  has_repository = true;
  persistence_available = true;
  ledger = empty_ledger;
  sessions = (session, new_session) ∷ [];
  issued = session ∷ [];
  tail_uncertain = true;
  sealed_attempts = [];
  sealed_digests = [];
  rejected_ids = [];
  anomalies = [];
}

given_first :
    {tail : SealedRecord} → (ok (some first_record)) ≡ ok (some tail) → first_record ≡ tail
given_first e = cc

first_record-hash :
    compute_record_hash framing first_record.event first_record.seq first_record.host_ts
      first_record.previous_hash
    ≡ some first_record.record_hash
unfolding append seal commit new_ledger compute_record_hash canonicalize has_unsafe_number
    unsafe_fields unsafe_float has_lone_surrogate surrogate_fields surrogate_in sha256_hex body
    members genesis_hash
first_record-hash = refl

recording-IsHonest : IsHonest recording
recording-IsHonest p w tail e = rw (← given_first e) first_record-hash

handle_attempt-IsWhole_example :
    IsWhole framing
      (handle_attempt recording
        (event_with attempt_id (text "attempted"))
        (some session)
        (some 9)
        uncertain
        0).1.ledger
handle_attempt-IsWhole_example =
    handle_attempt-IsWhole recording recording-IsHonest (event_with attempt_id (text "attempted"))
      (some session) (some 9) uncertain 0
      (0, genesis_hash, new_ledger-IsValid framing (text "partition"))

record_outcome-IsWhole_example :
    IsWhole framing (record_outcome recording aborted_event (some session) uncertain 0).1.ledger
record_outcome-IsWhole_example =
    record_outcome-IsWhole recording recording-IsHonest aborted_event (some session) uncertain 0
      (0, genesis_hash, new_ledger-IsValid framing (text "partition"))

handle_attempt-IsBacked_example :
    let (result, g, _) =
      handle_attempt recording
        (event_with attempt_id (text "attempted"))
        (some session)
        (some 9)
        uncertain
        0 in
    IsBacked framing (event_with attempt_id (text "attempted")) result g
handle_attempt-IsBacked_example =
    handle_attempt-IsBacked recording (event_with attempt_id (text "attempted")) (some session)
      (some 9) uncertain 0

-- A host with one accepted attempt in its session.
abbrev busy : Host
busy = record uncertain {
  sessions = (session, record new_session { accepted = attempt_id ∷ [] }) ∷ [];
}

close_session_lem_example :
    let g = close_session session busy in
    (lookup session g.sessions
      ≡ (if str_eq session session then none else lookup session busy.sessions))
    × ((ids : List Str) × IsLeftOpen (lookup session busy.sessions) ids
        × (g.anomalies ≡ busy.anomalies ++ map (anomaly_of call_ended) ids))
    × (g.issued ≡ busy.issued)
    × (g.ledger ≡ busy.ledger)
close_session_lem_example = close_session_lem session session busy

open_session_lem_example : Opened (text "s2") session busy (open_session (text "s2") busy)
open_session_lem_example = open_session_lem (text "s2") session busy

framing-IsCompositional : IsCompositional framing
unfolding canonicalize compute_record_hash has_unsafe_number unsafe_fields unsafe_float
    has_lone_surrogate surrogate_fields surrogate_in body members sha256_hex
framing-IsCompositional e d n t h q = ground arith

nothing-IsHashed : IsHashed framing uncertain.sealed_attempts
unfolding lookup
nothing-IsHashed id r q = cc

handle_attempt-IsAttested_example :
    let (result, g, _) =
      handle_attempt recording
        (event_with attempt_id (text "attempted"))
        (some session)
        (some 9)
        uncertain
        0 in
    IsAttested recording (event_with attempt_id (text "attempted")) result
    × IsHashed framing g.sealed_attempts
handle_attempt-IsAttested_example =
    handle_attempt-IsAttested recording recording-IsHonest framing-IsCompositional
      (event_with attempt_id (text "attempted")) (some session) (some 9) uncertain 0
      nothing-IsHashed
