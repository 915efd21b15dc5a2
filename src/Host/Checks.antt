-- ===== src/Host/Checks.antt =====
-- host.py: the checks that an event passes before it is sealed (§7.1 steps 1 to 5).
use auditable_mcp_sdk_python.Base.{
  ℕ, ◌+◌, Bool, true, false, not, ◌||◌, Option, none, some, List, [], Str, ltb, str_eq,
  if◌then◌else◌, Str_eq, ℕ_eq, is_none,
}
use auditable_mcp_sdk_python.Base.Lists.{member}
use auditable_mcp_sdk_python.Base.Dict.{lookup, get_or}
use auditable_mcp_sdk_python.Base.Result.{runtime_error}
use auditable_mcp_sdk_python.Json.{obj, Fields, get, get_str, truthy}
use auditable_mcp_sdk_python.Fields
use auditable_mcp_sdk_python.Canonical.{outside_canonical_domain}
use auditable_mcp_sdk_python.Reasons.{
  Reason, schema_invalid, replay_detected, signer_seq_gap, l2_unsigned,
}
use auditable_mcp_sdk_python.Models.Event.{is_audit_event}
use auditable_mcp_sdk_python.Host.State.{
  Note, invalid_shape, not_an_attempt, not_an_outcome, not_canonicalizable, wrong_session, unsigned,
  verification_failed, unexpected_seq, decided_seq, Host, flag, event_id, key_and_seq, is_level_2,
  is_attempt, update_session, note_received,
}
use auditable_mcp_sdk_python.Host.World.{World, M, pure, raise, ask, step, ◌>>=◌}

-- The open session, or the reason for the refusal.
pub data Admission : Type 0 where
  admitted : Str → Admission
  refused : Reason → Admission

abbrev other_than : Option Str → Option Str → Bool
other_than none sid = false
other_than (some expected) none = true
other_than (some expected) (some sid) = not (str_eq sid expected)

-- `_session_of`
unfoldable pub session_of : Fields → Option Str → Host → Admission × Host
session_of event expected h =
    let named = get_str Fields.session_id event in
    let no_session : Admission × Host =
      (refused replay_detected, flag (event_id event) replay_detected (wrong_session named) h) in
    elim named [
      | none ↦ no_session
      | some sid ↦
          if is_none (lookup sid h.sessions) || other_than expected (some sid)
          then no_session
          else (admitted sid, h)
    ]

abbrev same : Bool → Bool → Bool
same true b = b
same false b = not b

abbrev misplaced : Bool → Note
misplaced true = not_an_attempt
misplaced false = not_an_outcome

-- `_admit`; `d` is what the pattern engine's `\d` takes.
unfoldable pub admit : (ℕ → Bool) → Fields → Option Str → Bool → Host → Admission × Host
admit d event expected attempt h =
    let invalid : Note → Admission × Host =
      λ n. (refused schema_invalid, flag (event_id event) schema_invalid n h) in
    if not (is_audit_event d event)
    then invalid invalid_shape
    else if not (same (is_attempt event) attempt)
    then invalid (misplaced attempt)
    else if outside_canonical_domain (obj event)
    then invalid not_canonicalizable
    else session_of event expected h

-- What counting an event as received changes: a flag for a number that skips ahead, and the
-- highest number received.
abbrev expected_after : Option ℕ → ℕ
expected_after none = 0
expected_after (some r) = r + 1

abbrev is_higher : ℕ → Option ℕ → Bool
is_higher n none = true
is_higher n (some r) = ltb r n

abbrev received_of : Str → Str → Host → Option ℕ
received_of sid k h = elim (lookup sid h.sessions) [ none ↦ none | some s ↦ lookup k s.received ]

unfoldable pub receive : Fields → Str → Str → ℕ → Host → Host
receive event sid k n h =
    let received = received_of sid k h in
    let expected = expected_after received in
    let flagged =
      if ltb expected n
      then flag (event_id event) signer_seq_gap (unexpected_seq expected n) h
      else h in
    if is_higher n received then update_session sid (note_received k n) flagged else flagged

-- `_check_replay`
abbrev decided_of : Str → Str → Host → List ℕ
decided_of sid k h = elim (lookup sid h.sessions) [ none ↦ [] | some s ↦ get_or k [] s.decided ]

unfoldable pub is_decided : Fields → Str → Host → Option ℕ
is_decided event sid h =
    if is_level_2 h
    then elim (key_and_seq event) [
      | none ↦ none
      | some (k, n) ↦ if member n (decided_of sid k h) then some n else none
    ]
    else none

unfoldable pub check_replay : Fields → Str → Host → Option Reason × Host
check_replay event sid h = elim (is_decided event sid h) [
  | none ↦ (none, h)
  | some n ↦ (some replay_detected, flag (event_id event) replay_detected (decided_seq n) h)
]

module _ {W : Type 0} (env : World W) where
  -- After the verifier's answer.
  unfoldable pub judge : Fields → Str → Str → ℕ → Option Reason → Host → Option Reason × Host
  judge event sid k n (some reason) h =
      (some reason, flag (event_id event) reason verification_failed h)
  judge event sid k n none h = (none, receive event sid k n h)

  unfoldable pub verify_numbered : Fields → Str → Str → ℕ → M W (Option Reason)
  verify_numbered event sid k n h w =
      if h.has_verifier
      then (ask (env.verify event) >>= λ reason. step (judge event sid k n reason)) h w
      else raise runtime_error h w

  -- `_verify_signature`
  unfoldable pub verify_signature : Fields → Str → M W (Option Reason)
  verify_signature event sid h w =
      if not (is_level_2 h)
      then pure none h w
      else let refuse =
          step (λ g. (some l2_unsigned, flag (event_id event) l2_unsigned unsigned g)) h w in
        if not (truthy (get Fields.signature event)) then refuse else elim (key_and_seq event) [
          | none ↦ refuse
          | some (k, n) ↦ verify_numbered event sid k n h w
        ]
