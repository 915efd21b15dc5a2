-- ===== src/Host/Attempt.antt =====
-- host.py: `handle_attempt`.
use auditable_mcp_sdk_python.Base.{
  ℕ, Bool, true, false, not, Option, none, some, Str, leb, str_eq, if◌then◌else◌, is_some, Str_eq,
  option_eq, Option_eq,
}
use auditable_mcp_sdk_python.Base.Dict.{lookup}
use auditable_mcp_sdk_python.Json.{obj, Fields, get_str}
use auditable_mcp_sdk_python.Fields
use auditable_mcp_sdk_python.Canonical.{canonicalize}
use auditable_mcp_sdk_python.Reasons.{Reason, replay_detected}
use auditable_mcp_sdk_python.Models.{AttemptResponse, accepted, rejected, unavailable}
use auditable_mcp_sdk_python.Ledger.{SealedRecord}
use auditable_mcp_sdk_python.Host.State.{
  Note, sealed_differently, concluded, Host, flag, event_id, update_session, note_accepted, decide,
  reject_id, accept_of,
}
use auditable_mcp_sdk_python.Host.World.{World, M, pure, lift, step, modify, ◌>>=◌, ◌>>◌}
use auditable_mcp_sdk_python.Host.Checks.{
  Admission, admitted, refused, admit, check_replay, verify_signature,
}
use auditable_mcp_sdk_python.Host.Sealing.{or_raised, settle_tail, seal_event}

-- A replay that was decided: the id is remembered, the number decided and the anomaly flagged.
unfoldable pub refuse_replay : Fields → Str → Note → Host → Host
refuse_replay event sid note h =
    flag (event_id event) replay_detected note (decide event sid (reject_id (event_id event) h))

-- `sealed.event.get(SESSION_ID) == event.get(SESSION_ID)` of two valid events
abbrev pub same_session : SealedRecord → Fields → Bool
same_session r event =
    option_eq (get_str Fields.session_id r.event) (get_str Fields.session_id event)

unfoldable pub accept_again : Fields → Str → SealedRecord → Host → Host
accept_again event sid r h =
    if same_session r event then update_session sid (note_accepted (event_id event)) h else h

abbrev pub has_outcome : Str → Str → Host → Bool
has_outcome id sid h = elim (lookup sid h.sessions) [
  | none ↦ false
  | some s ↦ is_some (lookup id s.outcomes)
]

module _ {W : Type 0} (env : World W) where
  -- By whether the canonical forms are equal.
  unfoldable pub answer_compared : Fields → Str → SealedRecord → Bool → M W AttemptResponse
  answer_compared event sid r true = do
    modify (accept_again event sid r)
    pure (accepted (accept_of r))
  answer_compared event sid r false = do
    modify (refuse_replay event sid sealed_differently)
    pure (rejected replay_detected)

  -- An id that is sealed: a byte-identical repeat is answered from the ledger.
  unfoldable pub answer_repeat : Fields → Str → SealedRecord → M W AttemptResponse
  answer_repeat event sid r = do
    before ← lift (or_raised (canonicalize env.jcs (obj r.event)))
    now ← lift (or_raised (canonicalize env.jcs (obj event)))
    answer_compared event sid r (str_eq before now)

  -- After the seal.
  unfoldable pub answer_sealed : Fields → Str → Option SealedRecord → M W AttemptResponse
  answer_sealed event sid none = pure unavailable
  answer_sealed event sid (some r) = do
    modify (λ h. update_session sid (note_accepted (event_id event)) (decide event sid h))
    pure (accepted (accept_of r))

  unfoldable pub seal_attempt : Fields → Str → M W AttemptResponse
  seal_attempt event sid h w =
      if not h.persistence_available
      then pure unavailable h w
      else let (time, w') = env.now w in
        (seal_event env event time >>= answer_sealed event sid) h w'

  -- After `_check_replay`.
  unfoldable pub answer_replay : Fields → Str → Option Reason → M W AttemptResponse
  answer_replay event sid none = seal_attempt event sid
  answer_replay event sid (some r) = do
    modify (λ g. decide event sid (reject_id (event_id event) g))
    pure (rejected r)

  -- An id that no attempt has: `_check_replay`, then the seal.
  unfoldable pub answer_new : Fields → Str → M W AttemptResponse
  answer_new event sid h w =
      if has_outcome (event_id event) sid h
      then (do modify (refuse_replay event sid concluded); pure (rejected replay_detected)) h w
      else (step (check_replay event sid) >>= answer_replay event sid) h w

  -- After `_verify_signature`.
  unfoldable pub answer_signature : Fields → Str → Option Reason → M W AttemptResponse
  answer_signature event sid (some r) h w =
      (do modify (reject_id (event_id event)); pure (rejected r)) h w
  answer_signature event sid none h w = elim (lookup (event_id event) h.sealed_attempts) [
    | some r ↦ answer_repeat event sid r h w
    | none ↦ answer_new event sid h w
  ]

  -- After `_admit`.
  unfoldable pub answer_admission : Fields → Admission → M W AttemptResponse
  answer_admission event (refused r) = pure (rejected r)
  answer_admission event (admitted sid) =
      verify_signature env event sid >>= answer_signature event sid

  -- `_handle_attempt`
  unfoldable pub attempt : Fields → Option Str → M W AttemptResponse
  attempt event expected = step (admit env.digit event expected true) >>= answer_admission event

  -- After `_settle_tail`.
  unfoldable pub answer_settled : Fields → Option Str → Bool → M W AttemptResponse
  answer_settled event expected true = attempt event expected
  answer_settled event expected false = pure unavailable

  unfoldable pub attempt_settled : Fields → Option Str → M W AttemptResponse
  attempt_settled event expected = settle_tail env >>= answer_settled event expected

  -- `handle_attempt`, under the partition's lock
  unfoldable pub handle_attempt : Fields → Option Str → Option ℕ → M W AttemptResponse
  handle_attempt event expected none h w = attempt_settled event expected h w
  handle_attempt event expected (some deadline) h w =
      let (time, w') = env.current_time w in
      if leb deadline time then pure unavailable h w' else attempt_settled event expected h w'
