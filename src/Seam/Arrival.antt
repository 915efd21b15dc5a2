-- ===== src/Seam/Arrival.antt =====
-- mcp/seam.py: what the seam does with a message of the peer (`_inbound`).
use auditable_mcp_sdk_python.Base.{
  ℕ, ◌+◌, Bool, true, false, ◌||◌, Option, none, some, List, [], ◌∷◌, ◌++◌, Str, text, str_eq,
  Str_eq, ℕ_eq, if◌then◌else◌, is_some,
}
use auditable_mcp_sdk_python.Base.Lists.{member}
use auditable_mcp_sdk_python.Base.Dict.{Dict, lookup, insert, erase}
use auditable_mcp_sdk_python.Json.{Json, obj, Fields, end, get, put}
use auditable_mcp_sdk_python.Models.{AuditCapability}
use auditable_mcp_sdk_python.Models.Message.{read_request_meta, extension_id}
use auditable_mcp_sdk_python.Declaration.{capability_of}
use auditable_mcp_sdk_python.Seam.Token.{claims_round, id_prefix, after_prefix}
use auditable_mcp_sdk_python.Seam.Frame.{
  RequestId, name, RequestId_eq, Body, error, ErrorData, Frame, request, notification, answer,
  Protocol, decision, key, id_json, meta_of, is_modern, request_state, request_id, task,
  capabilities, tools_call_method, cancelled_method, initialize_method, discover_method,
}
use auditable_mcp_sdk_python.Seam.State.{
  AuditSession, Round, ToolCall, CallState, Seam, forget_cancelled, state_of, set_call, set_audit,
  settle, send_frame, start,
}
use auditable_mcp_sdk_python.Seam.Call.{end_call}
use auditable_mcp_sdk_python.Seam.Round.{accept_retry, final_frame}

-- What a pump does with a message: it passes one on, passes none on, or stops at an exception.
pub data Passed : Type 0 where
  pass : Frame → Passed
  hold stop : Passed

-- `await self._send_frame(frame); return None`
unfoldable pub reply : Frame → Seam → Passed × Seam
unfolding send_frame
reply f s = elim (send_frame f s) [ none ↦ (stop, s) | some s' ↦ (hold, s') ]

-- `_deliver_final`
unfoldable pub deliver_final : ToolCall → Body → Seam → Passed × Seam
unfolding reply
deliver_final c body s =
    let (f, s') = final_frame c body s in elim f [ none ↦ (hold, s') | some f' ↦ reply f' s' ]

-- NO_OPEN_ROUND_MESSAGE
abbrev pub no_open_round : Protocol → ErrorData
no_open_round p = record {
  error_code = p.invalid_params;
  message = text "this requestState names no open round (§6.4)";
  details = none;
}

-- `_take_call`, of a retry whose round is out
unfoldable pub retry_round :
    Protocol → Str → ToolCall → Round → RequestId → Option Fields → Option ℕ → Seam → Passed × Seam
unfolding deliver_final
retry_round p token c out id params transport s =
    let s' =
      accept_retry p c out id params transport (record s { rounds = erase token s.rounds }) in
    elim (state_of c s').final [ none ↦ (hold, s') | some body ↦ deliver_final c body s' ]

-- `_take_call`, of a `requestState` under the reserved prefix
unfoldable pub take_retry :
    Protocol → Str → RequestId → Option Fields → Option ℕ → Seam → Passed × Seam
unfolding reply retry_round
take_retry p token id params transport s = elim (lookup token s.rounds) [
  | none ↦ reply (answer id (error (no_open_round p))) s
  | some entry ↦ retry_round p token entry.0 entry.1 id params transport s
]

-- The audit session of a new call: the one of that id, or a new one.
unfoldable pub open_audit : Option Str → Option AuditCapability → Seam → Option AuditSession × Seam
open_audit none declared s = (none, s)
open_audit (some issued) declared s = elim (lookup issued s.sessions) [
  | some a ↦ (some a, s)
  | none ↦
      let a : AuditSession = record {
        ref = s.fresh;
        session_id = issued;
        host_capability = declared;
      } in
      (
        some a,
        record (set_audit a (record { numbering = 0; live = 0 }) s) {
          sessions = insert issued a s.sessions;
          fresh = s.fresh + 1;
        },
      )
]

-- `self._idle.pop(issued, None); audit.live += 1`
unfoldable pub join_audit : Option AuditSession → Seam → Seam
join_audit none s = s
join_audit (some a) s =
    let x = s.audit_states a.ref in
    record (set_audit a (record x { live = x.live + 1 }) s) { idle = erase a.session_id s.idle }

abbrev pub new_state : RequestId → Option ℕ → CallState
new_state id transport = record {
  current_id = some id;
  ids = id ∷ [];
  own_numbering = 0;
  negotiated = false;
  buffered = [];
  buffered_awaiting = [];
  round = none;
  round_scheduled = false;
  final = none;
  finished = false;
  ended = false;
  released = false;
  accepted_open = [];
  request = transport;
}

abbrev pub is_object : Option Json → Bool
is_object (some (obj _)) = true
is_object _ = false

abbrev pub params_of : Option Fields → Fields
params_of none = end
params_of (some fs) = fs

-- `_take_call`, of a new request; `own` is the session that `new_session_id` mints
unfoldable pub take_new : Protocol → Str → RequestId → Option Fields → Option ℕ → Seam → Seam
unfolding open_audit join_audit
take_new p own id params transport s =
    let m = meta_of params in
    let modern = is_modern p params in
    let issued : Option Str = elim (read_request_meta p.is_digit (get extension_id m)) [
      | none ↦ none
      | some r ↦ some r.session_id
    ] in
    let declared =
      if modern
      then capability_of p.is_digit (get p.client_capabilities_key m)
      else s.handshake_capability in
    let opened = open_audit issued declared s in
    let s' = join_audit opened.0 opened.1 in
    let c : ToolCall = record {
      ref = s'.fresh;
      original_id = id;
      modern = modern;
      host_capability = elim opened.0 [ none ↦ declared | some a ↦ a.host_capability ];
      audit = opened.0;
      own_session_id = own;
      task_augmented = is_object (get task (params_of params));
    } in
    record (set_call c (new_state id transport) s') {
      calls = insert id c s'.calls;
      fresh = s'.fresh + 1;
    }

-- `_take_call`
unfoldable pub take_call :
    Protocol → Str → RequestId → Option Fields → Option ℕ → Seam → Passed × Seam
unfolding take_retry take_new
take_call p own id params transport s = elim (claims_round (get request_state (params_of params))) [
  | some token ↦ take_retry p token id params transport s
  | none ↦ (pass (request id tools_call_method params), take_new p own id params transport s)
]

abbrev pub values {ℓ} : {K V : Type ℓ} → Dict K V → List V
values [] = []
values ((_, v) ∷ d) = v ∷ values d

-- `next((call for call in candidates if target in call.ids), None)`
unfoldable pub served_under : Option RequestId → List ToolCall → Seam → Option ToolCall
served_under none cs s = none
served_under (some k) [] s = none
served_under (some k) (c ∷ cs) s =
    if member k (state_of c s).ids then some c else served_under (some k) cs s

abbrev pub is_id : Option RequestId → RequestId → Bool
is_id none i = false
is_id (some k) i = RequestId_eq.beq k i

-- The cancellation under the id that the session knows.
unfoldable pub renamed : ToolCall → Option Fields → Frame
renamed c params =
    notification cancelled_method (some (put request_id (id_json c.original_id) (params_of params)))

unfoldable pub remember_cancelled : ToolCall → Seam → Seam
unfolding start
remember_cancelled c s =
    start (forget_cancelled c.original_id)
      (record s { cancelled = insert c.original_id c s.cancelled })

-- `_cancel`, of a call that it names
unfoldable pub cancel_call : Option RequestId → ToolCall → Option Fields → Seam → Passed × Seam
unfolding end_call remember_cancelled renamed
cancel_call target c params s =
    let s' = end_call c true s in
    let same = notification cancelled_method params in
    if (state_of c s).finished then (hold, s') else (
      pass (if is_id target c.original_id then same else renamed c params),
      remember_cancelled c s',
    )

-- `_cancel`
unfoldable pub cancel : Option Fields → Seam → Passed × Seam
unfolding served_under cancel_call
cancel params s =
    let target = key (get request_id (params_of params)) in
    elim (served_under target (values s.calls ++ values s.waiting) s) [
      | none ↦ (pass (notification cancelled_method params), s)
      | some c ↦ cancel_call target c params s
    ]

-- `_read_handshake`
unfoldable pub read_handshake : Protocol → Str → Option Fields → Seam → Seam
read_handshake p method params s =
    let declared =
      if str_eq method discover_method
      then get p.client_capabilities_key (meta_of params)
      else get capabilities (params_of params) in
    record s { handshake_capability = capability_of p.is_digit declared; handshake_seen = true }

-- `_inbound`, of an answer to a request of the seam's own
unfoldable pub settle_answer : Protocol → Str → Body → Seam → Passed × Seam
unfolding settle
settle_answer p id body s = elim (lookup id s.pending) [
  | none ↦ (hold, s)
  | some entry ↦
      (hold, settle entry.0 (decision p body) (record s { pending = erase id s.pending }))
]

-- `id.startswith(ID_PREFIX)`
unfoldable pub is_own_id : Str → Bool
unfolding after_prefix
is_own_id id = is_some (after_prefix id_prefix id)

-- `_inbound`, of an answer
unfoldable pub take_answer : Protocol → RequestId → Body → Seam → Passed × Seam
unfolding settle_answer is_own_id
take_answer p (name id) body s =
    if is_own_id id then settle_answer p id body s else (pass (answer (name id) body), s)
take_answer p id body s = (pass (answer id body), s)

-- `_inbound`, of a message with the transport's request that it came with
unfoldable pub inbound : Protocol → Str → Frame → Option ℕ → Seam → Passed × Seam
unfolding take_call cancel read_handshake take_answer
inbound p own (request id method params) transport s =
    if str_eq method initialize_method || str_eq method discover_method
    then (
      pass (request id method params),
      read_handshake p method params (record s { handshake_id = some id }),
    )
    else if str_eq method tools_call_method
    then take_call p own id params transport s
    else (pass (request id method params), s)
inbound p own (answer id body) transport s = take_answer p id body s
inbound p own (notification method params) transport s =
    if str_eq method cancelled_method
    then cancel params s
    else (pass (notification method params), s)
