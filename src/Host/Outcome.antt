-- ===== src/Host/Outcome.antt =====
-- host.py: `record_outcome` and `handle_outcome`.
use auditable_mcp_sdk_python.Base.{
  Bool, true, false, not, ◌&&◌, ◌||◌, Option, none, some, Str, str_eq, if◌then◌else◌, is_some,
  Str_eq,
}
use auditable_mcp_sdk_python.Base.Lists.{member}
use auditable_mcp_sdk_python.Base.Dict.{lookup}
use auditable_mcp_sdk_python.Json.{Fields, get, is_str}
use auditable_mcp_sdk_python.Fields
use auditable_mcp_sdk_python.Reasons.{Reason, replay_detected, orphaned_outcome}
use auditable_mcp_sdk_python.Models.{outcome_value, aborted}
use auditable_mcp_sdk_python.Ledger.{SealedRecord}
use auditable_mcp_sdk_python.Host.State.{
  second_outcome, orphan, orphan_of_rejected, Host, flag, event_id, update_session, decide,
}
use auditable_mcp_sdk_python.Host.World.{World, M, pure, lift, step, modify, ◌>>=◌, ◌>>◌}
use auditable_mcp_sdk_python.Host.Checks.{
  Admission, admitted, refused, admit, check_replay, verify_signature,
}
use auditable_mcp_sdk_python.Host.Sealing.{or_raised, digest_of, conclude, settle_tail, seal_event}

pub data OutcomeDisposition : Type 0 where
  sealed repeat refused_outcome not_recorded : OutcomeDisposition

-- `session.outcomes.get(event_id)`
abbrev pub outcome_sealed : Str → Str → Host → Option Str
outcome_sealed id sid h = elim (lookup sid h.sessions) [
  | none ↦ none
  | some s ↦ lookup id s.outcomes
]

-- `event_id in session.accepted`
abbrev pub is_accepted : Str → Str → Host → Bool
is_accepted id sid h = elim (lookup sid h.sessions) [ none ↦ false | some s ↦ member id s.accepted ]

abbrev is_the : Option Str → Str → Bool
is_the none digest = false
is_the (some d) digest = str_eq d digest

abbrev pub is_repeat : Str → Str → Str → Host → Bool
is_repeat id sid digest h =
    is_the (outcome_sealed id sid h) digest || member digest h.sealed_digests

abbrev pub is_aborted : Fields → Bool
is_aborted event = is_str (get Fields.outcome event) (outcome_value aborted)

unfoldable pub refuse_second : Fields → Str → Host → Host
refuse_second event sid h =
    flag (event_id event) replay_detected second_outcome (decide event sid h)

unfoldable pub refuse_orphan : Fields → Str → Host → Host
refuse_orphan event sid h =
    flag (event_id event) orphaned_outcome
      (if member (event_id event) h.rejected_ids then orphan_of_rejected else orphan)
      (decide event sid h)

module _ {W : Type 0} (env : World W) where
  unfoldable pub report_sealed : Fields → Str → Str → Option SealedRecord → M W OutcomeDisposition
  report_sealed event sid digest none = pure not_recorded
  report_sealed event sid digest (some r) = do
    modify (λ h. update_session sid (conclude (event_id event) digest) (decide event sid h))
    pure sealed

  unfoldable pub seal_outcome : Fields → Str → Str → M W OutcomeDisposition
  seal_outcome event sid digest h w =
      if not h.persistence_available
      then pure not_recorded h w
      else let (time, w') = env.now w in
        (seal_event env event time >>= report_sealed event sid digest) h w'

  -- Correlation, of an outcome that no replay check refused.
  unfoldable pub correlate : Fields → Str → Str → M W OutcomeDisposition
  correlate event sid digest h w =
      if not (is_accepted (event_id event) sid h) && not (is_aborted event)
      then (do modify (refuse_orphan event sid); pure refused_outcome) h w
      else seal_outcome event sid digest h w

  -- After `_check_replay`.
  unfoldable pub record_replay : Fields → Str → Str → Option Reason → M W OutcomeDisposition
  record_replay event sid digest (some r) = pure refused_outcome
  record_replay event sid digest none = correlate event sid digest

  unfoldable pub record_new : Fields → Str → Str → M W OutcomeDisposition
  record_new event sid digest h w =
      if is_repeat (event_id event) sid digest h
      then pure repeat h w
      else if is_some (outcome_sealed (event_id event) sid h)
      then (do modify (refuse_second event sid); pure refused_outcome) h w
      else (step (check_replay event sid) >>= record_replay event sid digest) h w

  -- After `_verify_signature`.
  unfoldable pub record_signature : Fields → Str → Option Reason → M W OutcomeDisposition
  record_signature event sid (some r) = pure refused_outcome
  record_signature event sid none =
      lift (or_raised (digest_of env.jcs event)) >>= record_new event sid

  -- After `_admit`.
  unfoldable pub record_admission : Fields → Admission → M W OutcomeDisposition
  record_admission event (refused r) = pure refused_outcome
  record_admission event (admitted sid) =
      verify_signature env event sid >>= record_signature event sid

  -- `_handle_outcome`
  unfoldable pub outcome : Fields → Option Str → M W OutcomeDisposition
  outcome event expected = step (admit env.digit event expected false) >>= record_admission event

  -- After `_settle_tail`.
  unfoldable pub record_settled : Fields → Option Str → Bool → M W OutcomeDisposition
  record_settled event expected true = outcome event expected
  record_settled event expected false = pure not_recorded

  -- `record_outcome`, under the partition's lock; `handle_outcome` drops what it returns.
  unfoldable pub record_outcome : Fields → Option Str → M W OutcomeDisposition
  record_outcome event expected = settle_tail env >>= record_settled event expected
