-- ===== src/Seam/State.antt =====
-- mcp/seam.py: the state of McpAuditTransport, of its calls, sessions and rounds. Objects that
-- several tables share are named by a number: what is assigned to them later stands in the maps of the
-- state under that number, what their construction fixes stands beside it.
use auditable_mcp_sdk_python.Base.{
  ℕ, Bool, Option, none, some, List, [], ◌∷◌, ◌++◌, nat_eq, Str, Str_eq, ℕ_eq, if◌then◌else◌,
}
use auditable_mcp_sdk_python.Base.Dict.{Dict, lookup, insert}
use auditable_mcp_sdk_python.Json.{Fields}
use auditable_mcp_sdk_python.Models.{AuditCapability, AttemptResponse}
use auditable_mcp_sdk_python.Seam.Frame.{RequestId, Body, Frame}

-- MAX_IDLE_SESSIONS
abbrev pub max_idle_sessions : ℕ
max_idle_sessions = 1024

-- _AuditSession: its number and its fixed fields, and the fields that change
pub record AuditSession : Type 0 where
  pub ref : ℕ
  pub session_id : Str
  pub host_capability : Option AuditCapability

pub record AuditState : Type 0 where
  pub numbering : ℕ
  pub live : ℕ

-- _Round; an attempt that waits (_Pending) is named by its number. No code waits on the round's
-- event.
pub record Round : Type 0 where
  pub token : Str
  pub awaiting : Dict Str ℕ

-- _ToolCall: its number and its fixed fields, and the fields that change
pub record ToolCall : Type 0 where
  pub ref : ℕ
  pub original_id : RequestId
  pub modern : Bool
  pub host_capability : Option AuditCapability
  pub audit : Option AuditSession
  pub own_session_id : Str
  pub task_augmented : Bool

pub record CallState : Type 0 where
  pub current_id : Option RequestId
  pub ids : List RequestId
  pub own_numbering : ℕ
  pub negotiated : Bool
  pub buffered : List Fields
  pub buffered_awaiting : Dict Str ℕ
  pub round : Option Round
  pub round_scheduled : Bool
  pub final : Option Body
  pub finished : Bool
  pub ended : Bool
  pub released : Bool
  pub accepted_open : List Str
  -- the transport's request, by a number of its own
  pub request : Option ℕ

-- What `_start` runs beside the pumps.
pub data Task : Type 0 where
  end_round : ToolCall → Task
  forget_cancelled : RequestId → Task

-- McpAuditTransport, with the answers that attempts have received (`_Pending.response`), the frames
-- queued for the peer, and whether the connection still takes them.
pub record Seam : Type 0 where
  pub declares : AuditCapability
  pub instance_name : Str
  pub handshake_id : Option RequestId
  pub handshake_seen : Bool
  pub handshake_capability : Option AuditCapability
  pub calls : Dict RequestId ToolCall
  pub rounds : Dict Str (ToolCall × Round)
  pub sessions : Dict Str AuditSession
  pub idle : Dict Str AuditSession
  pub pending : Dict Str (ℕ × ToolCall)
  pub waiting : Dict RequestId ToolCall
  pub cancelled : Dict RequestId ToolCall
  pub next_id : ℕ
  pub call_states : ℕ → CallState
  pub audit_states : ℕ → AuditState
  pub answers : Dict ℕ AttemptResponse
  pub fresh : ℕ
  pub sent : List Frame
  pub tasks : List Task
  pub connected : Bool

abbrev pub update {ℓ} : {A : Type ℓ} → (ℕ → A) → ℕ → A → ℕ → A
update f i a j = if nat_eq i j then a else f j

-- The fields of a call that change, and a change of them.
abbrev pub state_of : ToolCall → Seam → CallState
state_of c s = s.call_states c.ref

abbrev pub set_call : ToolCall → CallState → Seam → Seam
set_call c x s = record s { call_states = update s.call_states c.ref x }

abbrev pub set_audit : AuditSession → AuditState → Seam → Seam
set_audit a x s = record s { audit_states = update s.audit_states a.ref x }

-- `_Pending.settle`: the first answer stands
unfoldable pub settle : ℕ → AttemptResponse → Seam → Seam
settle p r s = elim (lookup p s.answers) [
  | none ↦ record s { answers = insert p r s.answers }
  | some _ ↦ s
]

-- `pending.settle(r)` for each
unfoldable pub settle_all : AttemptResponse → Dict Str ℕ → Seam → Seam
unfolding settle
settle_all r [] s = s
settle_all r ((_, p) ∷ ps) s = settle_all r ps (settle p r s)

-- `_send_frame`: `none` where the connection is gone and it raises
unfoldable pub send_frame : Frame → Seam → Option Seam
send_frame f s = if s.connected then some (record s { sent = s.sent ++ (f ∷ []) }) else none

-- `_send_frame` where the caller catches that
unfoldable pub send_or_warn : Frame → Seam → Seam
unfolding send_frame
send_or_warn f s = elim (send_frame f s) [ none ↦ s | some s' ↦ s' ]

unfoldable pub start : Task → Seam → Seam
start t s = record s { tasks = s.tasks ++ (t ∷ []) }

-- `_ToolCall.session_id`
unfoldable pub session_of : ToolCall → Seam → Str
session_of c s = elim c.audit [
  | none ↦ c.own_session_id
  | some a ↦ if (state_of c s).negotiated then a.session_id else c.own_session_id
]
