-- ===== src/Seam/Answer.antt =====
-- mcp/seam.py: what the seam does with a message of the MCP session (`_outbound`), and the end of the
-- connection.
use auditable_mcp_sdk_python.Base.{
  ℕ, Bool, true, false, ◌&&◌, ◌||◌, not, Option, none, some, List, [], ◌∷◌, ◌++◌, Str, Str_eq, ℕ_eq,
  if◌then◌else◌, is_some, is_none,
}
use auditable_mcp_sdk_python.Base.Dict.{Dict, lookup, erase}
use auditable_mcp_sdk_python.Json.{obj, Fields, end, get, put}
use auditable_mcp_sdk_python.Models.{unavailable}
use auditable_mcp_sdk_python.Declaration.{declare_into}
use auditable_mcp_sdk_python.Seam.Frame.{
  RequestId, RequestId_eq, Body, result, error, Frame, answer, concludes, capabilities,
}
use auditable_mcp_sdk_python.Seam.State.{
  Round, ToolCall, Seam, Task, end_round, forget_cancelled, state_of, set_call, settle, settle_all,
}
use auditable_mcp_sdk_python.Seam.Call.{release, end_call, keep_waiting}
use auditable_mcp_sdk_python.Seam.Round.{final_frame, run_end_round}
use auditable_mcp_sdk_python.Seam.Arrival.{values}

abbrev pub finished_call : ToolCall → Seam → Seam
finished_call c s = set_call c (record (state_of c s) { finished = true }) s

-- `_finish`, of a call whose round is out
unfoldable pub finish_waiting : ToolCall → Round → Body → Seam → Seam
unfolding settle_all
finish_waiting c r body s = keep_waiting c body (settle_all unavailable r.awaiting s)

-- `_finish`
unfoldable pub finish : ToolCall → RequestId → Body → Seam → Option Frame × Seam
unfolding finish_waiting
finish c id body s =
    let s' = release c (concludes body) s in
    let legacy = set_call c (record (state_of c s') { ended = true }) s' in
    if c.modern
    then elim (state_of c s').round [
      | some r ↦ (none, finish_waiting c r body s')
      | none ↦ final_frame c body s'
    ]
    else (some (answer id body), legacy)

-- The handshake's result with the tool's declaration in its capabilities.
unfoldable pub declared_result : Seam → Fields → Fields
declared_result s fs = elim (get capabilities fs) [
  | none ↦ put capabilities (obj (declare_into end s.declares)) fs
  | some (obj caps) ↦ put capabilities (obj (declare_into caps s.declares)) fs
  | some _ ↦ fs
]

abbrev pub is_handshake : Option RequestId → RequestId → Body → Bool
is_handshake (some h) id (result _) = RequestId_eq.beq id h
is_handshake _ _ _ = false

unfoldable pub declared_body : Seam → Body → Body
unfolding declared_result
declared_body s (result fs) = result (declared_result s fs)
declared_body s (error e) = error e

-- `_outbound`, of an answer that is no handshake's
unfoldable pub answer_out : RequestId → Body → Seam → Option Frame × Seam
unfolding finish
answer_out id body s =
    if is_some (lookup id s.cancelled)
    then (none, record s { cancelled = erase id s.cancelled })
    else elim (lookup id s.calls) [
      | none ↦ (some (answer id body), s)
      | some c ↦ finish c id body (finished_call c (record s { calls = erase id s.calls }))
    ]

-- `_outbound`
unfoldable pub outbound : Frame → Seam → Option Frame × Seam
unfolding answer_out declared_body
outbound (answer id body) s =
    if is_handshake s.handshake_id id body
    then (some (answer id (declared_body s body)), s)
    else answer_out id body s
outbound f s = (some f, s)

unfoldable pub settle_pending : Dict Str (ℕ × ToolCall) → Seam → Seam
unfolding settle
settle_pending [] s = s
settle_pending ((_, (p, _)) ∷ ps) s = settle_pending ps (settle p unavailable s)

unfoldable pub end_calls : List ToolCall → Seam → Seam
unfolding end_call
end_calls [] s = s
end_calls (c ∷ cs) s = end_calls cs (end_call c true s)

unfoldable pub end_rounds : Dict Str (ToolCall × Round) → Seam → Seam
unfolding settle_all
end_rounds [] s = s
end_rounds ((_, (c, r)) ∷ rs) s =
    let s' = settle_all unavailable r.awaiting s in
    end_rounds rs (set_call c (record (state_of c s') { ended = true }) s')

-- The parts of `_on_close`.
unfoldable pub close_pending : Seam → Seam
unfolding settle_pending
close_pending s = record (settle_pending s.pending s) { pending = [] }

unfoldable pub close_calls : Seam → Seam
unfolding end_calls
close_calls s = end_calls (values s.calls ++ values s.waiting) s

unfoldable pub close_rounds : Seam → Seam
unfolding end_rounds
close_rounds s = end_rounds s.rounds s

unfoldable pub clear_tables : Seam → Seam
clear_tables s = record s { rounds = []; sessions = []; idle = []; cancelled = [] }

-- `_on_close`
unfoldable pub on_close : Seam → Seam
unfolding close_pending close_calls close_rounds clear_tables
on_close s = clear_tables (close_rounds (close_calls (close_pending s)))

-- A task that `_start` has started; `secret` is for the token of a round.
unfoldable pub run_task : Str → Task → Seam → Seam
unfolding run_end_round
run_task secret (end_round c) s = run_end_round secret c s
run_task secret (forget_cancelled id) s = record s { cancelled = erase id s.cancelled }

-- `McpAuditTransport.running` and `undelivered`
abbrev pub nothing_in {ℓ} : {A : Type ℓ} → List A → Bool
nothing_in [] = true
nothing_in (_ ∷ _) = false

abbrev pub is_running : Seam → List ToolCall → Bool
is_running s [] = false
is_running s (c ∷ cs) =
    let x = state_of c s in
    not x.ended && not x.finished && (is_none x.round || not (nothing_in x.accepted_open))
    || is_running s cs

unfoldable pub running : Seam → Bool
running s = is_running s (values s.calls)

abbrev pub holds_events : Seam → List ToolCall → Bool
holds_events s [] = false
holds_events s (c ∷ cs) =
    not (state_of c s).ended && not (nothing_in (state_of c s).buffered) || holds_events s cs

abbrev pub any_open : Seam → List ToolCall → Bool
any_open s [] = false
any_open s (c ∷ cs) = not (state_of c s).ended || any_open s cs

unfoldable pub undelivered : Seam → Bool
undelivered s = holds_events s (values s.calls) || any_open s (values s.waiting)
