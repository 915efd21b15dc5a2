-- ===== src/Seam/Round.antt =====
-- mcp/seam.py: the rounds of a §6.4 call, its retries, and the frame that concludes it.
use auditable_mcp_sdk_python.Base.{
  ℕ, Bool, true, false, ◌&&◌, ◌||◌, not, Option, none, some, List, [], ◌∷◌, Str, str_eq, Str_eq,
  ℕ_eq, if◌then◌else◌, is_none,
}
use auditable_mcp_sdk_python.Base.Lists.{keep, add}
use auditable_mcp_sdk_python.Base.Dict.{Dict, insert, get_or}
use auditable_mcp_sdk_python.Json.{Json, str, obj, arr, Fields, end, field, get, put}
use auditable_mcp_sdk_python.Fields
use auditable_mcp_sdk_python.Models.{AttemptResponse, unavailable}
use auditable_mcp_sdk_python.Models.Message.{AuditRequestMeta, read_request_meta, extension_id}
use auditable_mcp_sdk_python.Seam.Token.{round_token}
use auditable_mcp_sdk_python.Seam.Frame.{
  RequestId, RequestId_eq, Body, result, error, Frame, answer, Protocol, is_attempt, event_items,
  object_at, meta_of, meta, events, result_type, input_required, request_state,
}
use auditable_mcp_sdk_python.Seam.State.{
  AuditSession, Round, ToolCall, CallState, Seam, end_round, state_of, set_call, settle, settle_all,
  send_or_warn, start, session_of,
}
use auditable_mcp_sdk_python.Seam.Call.{keep_waiting, conclude_waiting}

abbrev pub is_empty {ℓ} : {A : Type ℓ} → List A → Bool
is_empty [] = true
is_empty (_ ∷ _) = false

abbrev pub any_attempt : List Fields → Bool
any_attempt [] = false
any_attempt (e ∷ es) = is_attempt e || any_attempt es

-- `_schedule_round`
unfoldable pub schedule_round : ToolCall → Seam → Seam
unfolding start
schedule_round c s =
    if (state_of c s).round_scheduled
    then s
    else start (end_round c) (set_call c (record (state_of c s) { round_scheduled = true }) s)

-- The result of a round, and the `_meta` entry of its events.
unfoldable pub events_meta : Str → List Fields → Json
unfolding event_items
events_meta session_id es =
    obj (field Fields.session_id (str session_id) (field events (arr (event_items es)) end))

unfoldable pub round_result : Str → Str → List Fields → Fields
unfolding events_meta
round_result token session_id es = field result_type (str input_required) (
    field request_state (str token)
      (field meta (obj (field extension_id (events_meta session_id es) end)) end))

-- `_end_round`, once it is known that the call has an id to answer on; `secret` is the token's
-- random part.
unfoldable pub send_round : Str → ToolCall → RequestId → Seam → Seam
unfolding round_result round_token send_or_warn session_of
send_round secret c id s =
    let x = state_of c s in
    let token = round_token s.instance_name secret in
    let out : Round = record { token = token; awaiting = x.buffered_awaiting } in
    let x' = record x {
      buffered = [];
      buffered_awaiting = [];
      round = some out;
      current_id = none;
    } in
    send_or_warn (answer id (result (round_result token (session_of c s) x.buffered)))
      (record (set_call c x' s) { rounds = insert token (c, out) s.rounds })

abbrev pub may_send : CallState → Bool
may_send x = not x.ended && is_none x.round && not (is_empty x.buffered)

-- `_end_round`, with the id that the call can be answered on
unfoldable pub end_on : Option RequestId → Str → ToolCall → Seam → Seam
unfolding send_round
end_on none secret c s = s
end_on (some id) secret c s = if may_send (state_of c s) then send_round secret c id s else s

unfoldable pub unschedule : ToolCall → Seam → Seam
unschedule c s = set_call c (record (state_of c s) { round_scheduled = false }) s

-- `_end_round`, after its checkpoint
unfoldable pub run_end_round : Str → ToolCall → Seam → Seam
unfolding end_on unschedule
run_end_round secret c s = let s' = unschedule c s in end_on (state_of c s').current_id secret c s'

-- `pending.settle(responses.get(event_id, unavailable()))` for each attempt of the round
unfoldable pub settle_from : Dict Str AttemptResponse → Dict Str ℕ → Seam → Seam
unfolding settle
settle_from rs [] s = s
settle_from rs ((event_id, p) ∷ ps) s =
    settle_from rs ps (settle p (get_or event_id unavailable rs) s)

-- The answers that a retry brings, none where it does not name the call's session.
unfoldable pub answers_for :
    Option AuditSession → Option AuditRequestMeta → Dict Str AttemptResponse
answers_for (some a) (some m) = if str_eq m.session_id a.session_id then m.answers else []
answers_for _ _ = []

-- `_accept_retry`
unfoldable pub accept_retry :
    Protocol → ToolCall → Round → RequestId → Option Fields → Option ℕ → Seam → Seam
unfolding settle_from answers_for schedule_round
accept_retry p c answered id params transport s =
    let m = read_request_meta p.is_digit (get extension_id (meta_of params)) in
    let s' = settle_from (answers_for c.audit m) answered.awaiting s in
    let x = state_of c s' in
    let x' = record x {
      round = none;
      current_id = some id;
      ids = add id x.ids;
      request = transport;
    } in
    let s'' = set_call c x' s' in
    if not x.finished && not x.ended && any_attempt x.buffered then schedule_round c s'' else s''

-- The concluding result with the outcomes that it carries. A `_meta` that is no object, at which
-- `dict` may raise, is taken for an empty one.
unfoldable pub with_outcomes : Str → List Fields → Fields → Fields
unfolding events_meta
with_outcomes session_id [] fs = fs
with_outcomes session_id (e ∷ es) fs =
    put meta (obj (put extension_id (events_meta session_id (e ∷ es)) (object_at meta fs))) fs

-- `_final_frame`, for an error and for a result, with the outcomes that are left
unfoldable pub final_error : ToolCall → RequestId → Body → List Fields → Seam → Option Frame × Seam
unfolding schedule_round
final_error c id body [] s = (some (answer id body), conclude_waiting c s)
final_error c id body (e ∷ es) s = (
  none,
  schedule_round c
      (keep_waiting c body (set_call c (record (state_of c s) { buffered = e ∷ es }) s)),
)

unfoldable pub final_of : ToolCall → RequestId → Body → List Fields → Seam → Option Frame × Seam
unfolding final_error with_outcomes
final_of c id (error e) outcomes s = final_error c id (error e) outcomes s
final_of c id (result fs) outcomes s =
    (some (answer id (result (with_outcomes (session_of c s) outcomes fs))), conclude_waiting c s)

-- `_final_frame`
unfoldable pub final_frame : ToolCall → Body → Seam → Option Frame × Seam
unfolding settle_all final_of
final_frame c body s =
    let x = state_of c s in
    let outcomes = keep (λ (e : Fields). not (is_attempt e)) x.buffered in
    let s' = settle_all unavailable x.buffered_awaiting s in
    let s'' = set_call c (record (state_of c s') { buffered = []; buffered_awaiting = [] }) s' in
    elim x.current_id [ none ↦ (none, s) | some id ↦ final_of c id body outcomes s'' ]
