-- ===== src/Host/Chain.antt =====
-- The chain of a host's ledger under every event.
use auditable_mcp_sdk_python.Base.{ℕ, Option, Str}
use auditable_mcp_sdk_python.Base.Dict.{Dict}
use auditable_mcp_sdk_python.Json.{Fields}
use auditable_mcp_sdk_python.Ledger.{SealedRecord, Ledger}
use auditable_mcp_sdk_python.Host.State.{Host}
use auditable_mcp_sdk_python.Host.World.{World}
use auditable_mcp_sdk_python.Host.Attempt.{handle_attempt}
use auditable_mcp_sdk_python.Host.Outcome.{record_outcome}
use auditable_mcp_sdk_python.Host.Core.{core}
use auditable_mcp_sdk_python.Host.Frame.{handle_attempt-Holding, record_outcome-Holding}
use auditable_mcp_sdk_python.Host.Seals.{IsWhole, IsHonest, settle_tail-Whole, seal_event-Whole}

module _ {W : Type 0} (env : World W) where
  abbrev WholeCore : Ledger × Dict Str SealedRecord → Type 0
  WholeCore (l, d) = IsWhole env.jcs l

  -- Where the store gives back no record whose hash is not that of its content, `handle_attempt`
  -- leaves a host whose ledger was a whole chain with a ledger that is a whole chain, whatever the
  -- event is, whatever the deadline, the clock, the verifier, the countersigner and the store
  -- answer, and whether it returns or raises.
  pub handle_attempt-IsWhole :
      IsHonest env
      → (event : Fields) (expected : Option Str) (deadline : Option ℕ) (h : Host) (w : W)
      → IsWhole env.jcs h.ledger
      → IsWhole env.jcs (handle_attempt env event expected deadline h w).1.ledger
  unfolding core
  handle_attempt-IsWhole honest e x d h w p =
      handle_attempt-Holding env WholeCore (settle_tail-Whole env honest) (seal_event-Whole env) e x
        d h w p

  -- Where the store gives back no record whose hash is not that of its content, `record_outcome`
  -- leaves a host whose ledger was a whole chain with a ledger that is a whole chain, whatever the
  -- event is, whatever the clock, the verifier, the countersigner and the store answer, and
  -- whether it returns or raises.
  pub record_outcome-IsWhole :
      IsHonest env
      → (event : Fields) (expected : Option Str) (h : Host) (w : W) → IsWhole env.jcs h.ledger
      → IsWhole env.jcs (record_outcome env event expected h w).1.ledger
  unfolding core
  record_outcome-IsWhole honest e x h w p =
      record_outcome-Holding env WholeCore (settle_tail-Whole env honest) (seal_event-Whole env) e x
        h w p
