-- ===== src/Seam/Exchange.antt =====
-- mcp/seam.py: what a handler does with its call (McpAuditCall), and how the seam carries its events.
-- The wait for the host's answer cuts `_send_attempt` in two: `begin_attempt` stops where it waits,
-- and `end_attempt` goes on when the answer has come or the bound has passed.
use auditable_mcp_sdk_python.Base.{
  ℕ, ◌+◌, Bool, true, false, ◌&&◌, ◌||◌, not, Option, none, some, [], ◌∷◌, ◌++◌, Str, text, str_eq,
  Str_eq, ℕ_eq, if◌then◌else◌, nat_eq,
}
use auditable_mcp_sdk_python.Base.Lists.{add, keep}
use auditable_mcp_sdk_python.Base.Dict.{lookup, insert, erase}
use auditable_mcp_sdk_python.Json.{str, Fields, get}
use auditable_mcp_sdk_python.Fields
use auditable_mcp_sdk_python.Models.{
  AuditCapability, AttemptResponse, accepted, rejected, unavailable,
}
use auditable_mcp_sdk_python.Capability.{
  NegotiationResult, negotiate, is_negotiated, level_rank, countersign_rank,
}
use auditable_mcp_sdk_python.Seam.Token.{id_prefix, decimal}
use auditable_mcp_sdk_python.Seam.Frame.{
  RequestId, name, RequestId_eq, request, notification, attempt_method, outcome_method,
  without_session,
}
use auditable_mcp_sdk_python.Seam.State.{
  ToolCall, Seam, state_of, set_call, settle, send_frame, send_or_warn,
}
use auditable_mcp_sdk_python.Seam.Round.{schedule_round}

-- McpBindingError and its subclasses
pub data BindingError : Type 0 where
  other_capability handshake_not_seen unnegotiated_send unknown_call : BindingError

pub data Reply (A : Type 0) : Type 0 where
  done : A → Reply A
  refused : BindingError → Reply A

-- What `_send_attempt` has when it comes to its wait: an answer already, or the attempt that waits,
-- with the request id under §6.5.
pub data Begun : Type 0 where
  answered : AttemptResponse → Begun
  waits : ℕ → Option Str → Begun

-- `str(event.get(fields.ID))`; the id of a session's event is a text, and any other value is taken
-- for an absent one
abbrev pub event_id : Fields → Str
event_id event = elim (get Fields.id event) [ some (str s) ↦ s | _ ↦ text "None" ]

-- `offered != self._seam.declares`
unfoldable pub same_capability : AuditCapability → AuditCapability → Bool
same_capability a b =
    str_eq a.version b.version
    && nat_eq (level_rank a.level) (level_rank b.level)
    && nat_eq (countersign_rank a.countersign) (countersign_rank b.countersign)

abbrev pub is_audited : ToolCall → Bool
is_audited c = elim c.audit [ none ↦ false | some _ ↦ not c.task_augmented ]

-- McpAuditTransport.call
unfoldable pub call : RequestId → Seam → Reply ToolCall
call id s = elim (lookup id s.calls) [ none ↦ refused unknown_call | some c ↦ done c ]

-- McpAuditCall.negotiate
unfoldable pub negotiate_call : AuditCapability → ToolCall → Seam → Reply NegotiationResult × Seam
unfolding same_capability
negotiate_call offered c s =
    let fit = negotiate c.host_capability offered in
    let r = if is_audited c then fit else without_session fit in
    if not (same_capability offered s.declares)
    then (refused other_capability, s)
    else if not c.modern && not s.handshake_seen
    then (refused handshake_not_seen, s)
    else (done r, set_call c (record (state_of c s) { negotiated = is_negotiated r.outcome }) s)

-- `_send_attempt` up to its wait, in the binding with rounds and in the one without
unfoldable pub buffer_attempt : ToolCall → Fields → Seam → Begun × Seam
buffer_attempt c event s =
    let x = state_of c s in
    let x' = record x {
      buffered = x.buffered ++ (event ∷ []);
      buffered_awaiting = insert (event_id event) s.fresh x.buffered_awaiting;
    } in
    (waits s.fresh none, schedule_round c (record (set_call c x' s) { fresh = s.fresh + 1 }))

unfoldable pub request_attempt : ToolCall → Fields → Seam → Begun × Seam
request_attempt c event s =
    let id = id_prefix ++ decimal (s.next_id + 1) in
    let s' = record s {
      next_id = s.next_id + 1;
      fresh = s.fresh + 1;
      pending = insert id (s.fresh, c) s.pending;
    } in
    elim (send_frame (request (name id) attempt_method (some event)) s') [
      | some s'' ↦ (waits s.fresh (some id), s'')
      | none ↦ (answered unavailable, record s' { pending = erase id s'.pending })
    ]

unfoldable pub begin_attempt : ToolCall → Fields → Seam → Begun × Seam
unfolding buffer_attempt request_attempt
begin_attempt c event s =
    if (state_of c s).finished || (state_of c s).ended
    then (answered unavailable, s)
    else if c.modern
    then buffer_attempt c event s
    else request_attempt c event s

-- `self._pending.pop(request_id, None)` where there is a request id
abbrev pub forget_request : Option Str → Seam → Seam
forget_request none s = s
forget_request (some id) s = record s { pending = erase id s.pending }

abbrev pub is_accept : AttemptResponse → Bool
is_accept (accepted _) = true
is_accept (rejected _) = false
is_accept unavailable = false

-- The answer that stands, and the state when it is taken: with none, the attempt fails closed.
unfoldable pub taken : ℕ → Option Str → Seam → AttemptResponse × Seam
unfolding settle
taken p id s = elim (lookup p s.answers) [
  | some r ↦ (r, s)
  | none ↦ (unavailable, forget_request id (settle p unavailable s))
]

-- `_send_attempt` after its wait
unfoldable pub end_attempt : ToolCall → Fields → ℕ → Option Str → Seam → AttemptResponse × Seam
unfolding taken
end_attempt c event p id s =
    let (r, s') = taken p id s in
    let x = state_of c s' in
    let opened =
      set_call c (record x { accepted_open = add (event_id event) x.accepted_open }) s' in
    if is_accept r && not x.ended then (r, opened) else (r, s')

-- `_send_outcome`
unfoldable pub carry_outcome : ToolCall → Fields → Seam → Seam
unfolding send_or_warn
carry_outcome c event s =
    let x = state_of c s in
    let left = keep (λ (i : Str). not (str_eq (event_id event) i)) x.accepted_open in
    let x' = record x { accepted_open = left } in
    let s' = set_call c x' s in
    if x.finished || x.ended
    then s'
    else if c.modern
    then set_call c (record x' { buffered = x.buffered ++ (event ∷ []) }) s'
    else send_or_warn (notification outcome_method (some event)) s'

-- McpAuditCall.send_attempt, up to its wait, and send_outcome: both behind `_require_negotiated`
unfoldable pub send_attempt : ToolCall → Fields → Seam → Reply Begun × Seam
unfolding begin_attempt
send_attempt c event s =
    if (state_of c s).negotiated
    then (done (begin_attempt c event s).0, (begin_attempt c event s).1)
    else (refused unnegotiated_send, s)

unfoldable pub send_outcome : ToolCall → Fields → Seam → Reply (Unit {0}) × Seam
unfolding carry_outcome
send_outcome c event s =
    if (state_of c s).negotiated
    then (done tt, carry_outcome c event s)
    else (refused unnegotiated_send, s)
