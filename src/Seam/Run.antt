-- ===== src/Seam/Run.antt =====
-- mcp/seam.py: the seam from its construction on, as a sequence of the steps that its pumps, its
-- tasks and its handlers take, in any order.
pub mod Kept
pub mod Steps
pub mod Bounded
pub mod Guarantees
pub mod Replay
pub mod Closing
pub mod Ended
use auditable_mcp_sdk_python.Base.{ℕ, Bool, false, true, Option, none, some, List, [], ◌∷◌, Str}
use auditable_mcp_sdk_python.Json.{Fields}
use auditable_mcp_sdk_python.Models.{AuditCapability}
use auditable_mcp_sdk_python.Seam.Token.{check_instance}
use auditable_mcp_sdk_python.Seam.Frame.{RequestId, Frame, Protocol}
use auditable_mcp_sdk_python.Seam.State.{AuditState, ToolCall, CallState, Seam, Task, send_or_warn}
use auditable_mcp_sdk_python.Seam.Arrival.{inbound}
use auditable_mcp_sdk_python.Seam.Answer.{outbound, on_close, run_task}
use auditable_mcp_sdk_python.Seam.Exchange.{negotiate_call, send_attempt, end_attempt, send_outcome}

abbrev pub no_call : CallState
no_call = record {
  current_id = none;
  ids = [];
  own_numbering = 0;
  negotiated = false;
  buffered = [];
  buffered_awaiting = [];
  round = none;
  round_scheduled = false;
  final = none;
  finished = false;
  ended = false;
  released = false;
  accepted_open = [];
  request = none;
}

abbrev pub empty_seam : AuditCapability → Str → Seam
empty_seam declares instance_name = record {
  declares = declares;
  instance_name = instance_name;
  handshake_id = none;
  handshake_seen = false;
  handshake_capability = none;
  calls = [];
  rounds = [];
  sessions = [];
  idle = [];
  pending = [];
  waiting = [];
  cancelled = [];
  next_id = 0;
  call_states = λ _. no_call;
  audit_states = λ _. record { numbering = 0; live = 0 };
  answers = [];
  fresh = 0;
  sent = [];
  tasks = [];
  connected = true;
}

-- `McpAuditTransport.__init__`; `none` where the instance's name is refused
unfoldable pub new_seam : AuditCapability → Str → Option Seam
new_seam declares instance_name = elim (check_instance instance_name) [
  | none ↦ none
  | some i ↦ some (empty_seam declares i)
]

-- What can happen next: a message of the peer or of the MCP session, a started task that comes to
-- run, a call of a handler, the end of a wait, the loss or the end of the connection. The texts are
-- what the random generator gives.
pub data Action : Type 0 where
  arrives : Str → Frame → Option ℕ → Action
  written : Frame → Action
  runs : Str → Task → Action
  negotiates : AuditCapability → ToolCall → Action
  attempts : ToolCall → Fields → Action
  resumes : ToolCall → Fields → ℕ → Option Str → Action
  reports : ToolCall → Fields → Action
  drops : Action
  closes : Action

-- A message that the pump passes to the peer joins the messages that are sent.
abbrev pub forward : Option Frame × Seam → Seam
forward (none, s) = s
forward (some f, s) = send_or_warn f s

unfoldable pub step : Protocol → Action → Seam → Seam
step p (arrives own f transport) s = (inbound p own f transport s).1
step p (written f) s = forward (outbound f s)
step p (runs secret t) s = run_task secret t s
step p (negotiates offered c) s = (negotiate_call offered c s).1
step p (attempts c event) s = (send_attempt c event s).1
step p (resumes c event a id) s = (end_attempt c event a id s).1
step p (reports c event) s = (send_outcome c event s).1
step p drops s = record s { connected = false }
step p closes s = on_close s

unfoldable pub run : Protocol → List Action → Seam → Seam
unfolding step
run p [] s = s
run p (a ∷ rest) s = run p rest (step p a s)
