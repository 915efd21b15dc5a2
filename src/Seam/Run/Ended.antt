-- ===== src/Seam/Run/Ended.antt =====
-- An attempt that waits on a call fails closed with the call, and with the connection.
use auditable_mcp_sdk_python.Base.{◌≡◌, ◌⊎◌, ℕ, ◌++◌, Str, ℕ_eq, Str_eq}
use auditable_mcp_sdk_python.Base.Lists.{Any}
use auditable_mcp_sdk_python.Base.Dict.{Dict}
use auditable_mcp_sdk_python.Seam.Frame.{RequestId_eq}
use auditable_mcp_sdk_python.Seam.State.{ToolCall, Seam, state_of}
use auditable_mcp_sdk_python.Seam.Call.{drop_pending, mark_ended, awaiting_of}
use auditable_mcp_sdk_python.Seam.Arrival.{values}
use auditable_mcp_sdk_python.Seam.Run.Closing.{Awaits}

abbrev dropped : ToolCall → Seam → Seam
dropped c s = drop_pending c s.pending (mark_ended c s)

module _ (a : ℕ) where
  -- The attempt waits in the call's round, or for the call's next one.
  abbrev pub IsAwaited : Seam → ToolCall → Type 0
  IsAwaited s c =
      Awaits a (awaiting_of (state_of c s).round) ⊎ Awaits a (state_of c s).buffered_awaiting

  -- The attempt waits for an answer on the connection: for one to a request of its own (§6.5), or for
  -- one in a call's round that is out or is to come (§6.4).
  abbrev pub IsWaiting : Seam → Type 0
  IsWaiting s =
      Any (λ (x : Str × (ℕ × ToolCall)). x.1.0 ≡ a) s.pending
      ⊎ Any (IsAwaited s) (values s.calls ++ values s.waiting)
