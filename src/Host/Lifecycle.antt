-- ===== src/Host/Lifecycle.antt =====
-- host.py: construction, the sessions' life, and `resume`.
use auditable_mcp_sdk_python.Base.{
  ℕ, Bool, true, false, not, ◌&&◌, ◌||◌, Option, none, some, List, [], ◌∷◌, Str, ltb, if◌then◌else◌,
  Str_eq, ℕ_eq, Pair_eq,
}
use auditable_mcp_sdk_python.Base.Order.{str_leb}
use auditable_mcp_sdk_python.Base.Lists.{member, add, keep, sort, last?}
use auditable_mcp_sdk_python.Base.Dict.{Dict, lookup, insert, erase, get_or}
use auditable_mcp_sdk_python.Base.Result.{Result, ok, raised, value_error, ◌>>=◌}
use auditable_mcp_sdk_python.Json.{Fields, get, get_str, is_str}
use auditable_mcp_sdk_python.Fields
use auditable_mcp_sdk_python.Canonical.{Jcs}
use auditable_mcp_sdk_python.Reasons.{unresolved_attempt}
use auditable_mcp_sdk_python.Models.{
  Level, l2, Countersign, no_countersign, host_countersign, AuditCapability, spec_version,
}
use auditable_mcp_sdk_python.Ledger.{SealedRecord, new_ledger, resume_from}
use auditable_mcp_sdk_python.Host.State.{
  Note, call_ended, host_restarted, Session, new_session, Host, flag, event_id, key_and_seq,
  is_attempt, note_accepted, note_decided,
}
use auditable_mcp_sdk_python.Host.Sealing.{digest_of, remember, conclude, or_raised}

abbrev needs_verifier : Level → Bool → Bool
needs_verifier l2 false = true
needs_verifier _ _ = false

abbrev mismatched_signer : Countersign → Option Str → Bool
mismatched_signer host_countersign none = true
mismatched_signer no_countersign (some _) = true
mismatched_signer _ _ = false

abbrev or_partition : Option Str → Str → Str
or_partition none partition = partition
or_partition (some s) partition = s

-- `AuditHost(...)`, of a capability that is complete
unfoldable pub new_host :
    Str → AuditCapability → Bool → Option Str → Option Str → Bool → Result Host
new_host partition capability has_verifier countersigner log_id has_repository =
    if needs_verifier capability.level has_verifier
    then raised value_error
    else if mismatched_signer capability.countersign countersigner
    then raised value_error
    else ok (record {
      capability = capability;
      partition = partition;
      log_id = or_partition log_id partition;
      countersigner = countersigner;
      has_verifier = has_verifier;
      has_repository = has_repository;
      persistence_available = true;
      ledger = new_ledger partition;
      sessions = [];
      issued = [];
      tail_uncertain = false;
      sealed_attempts = [];
      sealed_digests = [];
      rejected_ids = [];
      anomalies = [];
    })

-- `open_session`, with the id that is given or was minted
unfoldable pub open_session : Str → Host → Result Host
open_session sid h =
    if member sid h.issued
    then raised value_error
    else ok (record h { issued = add sid h.issued; sessions = insert sid new_session h.sessions })

unfoldable pub flag_all : (Str → Note) → List Str → Host → Host
flag_all note [] h = h
flag_all note (id ∷ ids) h = flag_all note ids (flag id unresolved_attempt (note id) h)

-- `session.accepted - session.resolved`
unfoldable pub unresolved : Session → List Str
unresolved s = keep (λ id. not (member id s.resolved)) s.accepted

-- `close_session`, under the partition's lock
unfoldable pub close_session : Str → Host → Host
close_session sid h = elim (lookup sid h.sessions) [
  | none ↦ h
  | some s ↦
      flag_all call_ended (sort str_leb (unresolved s))
        (record h { sessions = erase sid h.sessions })
]

-- `OpenSession`, with the tracker kept for it
pub record OpenSession : Type 0 where
  pub session_id : Str
  pub decided : Dict Str (List ℕ)
  pub received : Dict Str ℕ

abbrev higher : ℕ → Option ℕ → ℕ
higher n none = n
higher n (some m) = if ltb m n then n else m

abbrev pub is_current : Fields → Bool
is_current event = is_str (get Fields.spec_version event) spec_version

abbrev count_seq : Option (Str × ℕ) → Session → Session
count_seq none s = s
count_seq (some (k, n)) s = record (note_decided k n s) {
  received = insert k (higher n (lookup k s.received)) s.received;
}

-- One record of `_restored_session`, with its digest.
unfoldable pub restore_record : SealedRecord → Str → Session → Session
restore_record r digest s =
    let counted = count_seq (key_and_seq r.event) s in
    if is_attempt r.event
    then note_accepted (event_id r.event) counted
    else conclude (event_id r.event) digest counted

-- `_restored_session`
unfoldable pub restored_session : Jcs → Str → List SealedRecord → Session → Result Session
restored_session c sid [] s = ok s
restored_session c sid (r ∷ rs) s =
    let skip = restored_session c sid rs s in
    let take = or_raised (digest_of c r.event) >>= λ digest.
    restored_session c sid rs (restore_record r digest s) in
    if is_str (get Fields.session_id r.event) sid && is_current r.event then take else skip

add_all : List ℕ → List ℕ → List ℕ
add_all [] ms = ms
add_all (n ∷ ns) ms = add_all ns (add n ms)

merge_decided : Dict Str (List ℕ) → Dict Str (List ℕ) → Dict Str (List ℕ)
unfolding add_all
merge_decided [] d = d
merge_decided ((k, ns) ∷ more) d = merge_decided more (insert k (add_all ns (get_or k [] d)) d)

merge_received : Dict Str ℕ → Dict Str ℕ → Dict Str ℕ
merge_received [] d = d
merge_received ((k, n) ∷ more) d = merge_received more (insert k (higher n (lookup k d)) d)

unfoldable pub with_tracker : OpenSession → Session → Session
unfolding merge_decided merge_received
with_tracker o s = record s {
  decided = merge_decided o.decided s.decided;
  received = merge_received o.received s.received;
}

abbrev issue_named : Fields → Host → Host
issue_named event h = elim (get_str Fields.session_id event) [
  | none ↦ h
  | some sid ↦ record h { issued = add sid h.issued }
]

-- The loop of `resume` over the stored records.
unfoldable pub remember_all : Jcs → List SealedRecord → Host → Result Host
remember_all c [] h = ok h
remember_all c (r ∷ rs) h = or_raised (digest_of c r.event) >>= λ digest.
    remember_all c rs (issue_named r.event (remember r digest h))

unfoldable pub restore_sessions : Jcs → List SealedRecord → List OpenSession → Host → Result Host
restore_sessions c rs [] h = ok h
restore_sessions c rs (o ∷ os) h = restored_session c o.session_id rs new_session >>= λ s.
    restore_sessions c rs os (record h {
      issued = add o.session_id h.issued;
      sessions = insert o.session_id (with_tracker o s) h.sessions;
    })

-- The attempts of ended sessions that no outcome behind them resolves, as `_flag_unresolved`
-- collects them.
unfoldable pub open_attempts :
    List Str → List SealedRecord → Dict (Str × Str) Str → Dict (Str × Str) Str
open_attempts live [] d = d
open_attempts live (r ∷ rs) d = open_attempts live rs (elim (get_str Fields.session_id r.event) [
  | none ↦ d
  | some sid ↦
      if not (is_current r.event) || member sid live
      then d
      else if is_attempt r.event
      then insert (sid, event_id r.event) (event_id r.event) d
      else erase (sid, event_id r.event) d
])

values : Dict (Str × Str) Str → List Str
values [] = []
values ((k, v) ∷ d) = v ∷ values d

names : List OpenSession → List Str
names [] = []
names (o ∷ os) = o.session_id ∷ names os

-- `resume`, of a host newly built and the records that the store gave
unfoldable pub resume : Jcs → List SealedRecord → List OpenSession → Host → Result Host
unfolding values names
resume c rs os h =
    remember_all c rs (record h { ledger = resume_from h.ledger (last? rs) }) >>= λ known.
    restore_sessions c rs os known >>= λ restored.
    ok (flag_all host_restarted (values (open_attempts (names os) rs [])) restored)
