-- ===== src/Tool/Lifecycle.antt =====
-- session.py: `__aexit__`, and an action around the code that it audits.
use auditable_mcp_sdk_python.Base.{ℕ, none}
use auditable_mcp_sdk_python.Models.{Outcome, success, failed, AcceptResponse}
use auditable_mcp_sdk_python.Tool.World.{Error, Ended, returned, Seams, Method, ◌>=>◌}
use auditable_mcp_sdk_python.Tool.World
use auditable_mcp_sdk_python.Tool.Session.{AmcpSession, AuditedAction}
use auditable_mcp_sdk_python.Tool.Emission.{emit, forgiven}
use auditable_mcp_sdk_python.Tool.Entry.{enter}

-- `Outcome.FAILED if exc_type is not None else Outcome.SUCCESS`
abbrev pub terminal : {A : Type 0} → Ended A → Outcome
terminal (returned _) = success
terminal (World.failed _) = failed

-- What an `async with` raises: the exit's own exception, or the body's.
abbrev pub leaving : {A : Type 0} → Ended A → Ended (Unit {0}) → Ended A
leaving r (returned _) = r
leaving r (World.failed e) = World.failed e

module _ {W : Type 0} (seams : Seams W) (session : AmcpSession) (a : AuditedAction) where
  -- `__aexit__`
  unfoldable pub exit : Outcome → Method W (Unit {0})
  exit outcome n w = let (r, n', w') = emit seams session a outcome none n w in (forgiven r, n', w')

  unfoldable pub finish : {A : Type 0} → Ended A × ℕ × W → Ended A × ℕ × W
  finish (r, n, w) = let (left, n', w') = exit (terminal r) n w in (leaving r left, n', w')

  -- `async with action as a: body`
  unfoldable pub with_action : {A : Type 0} → (AcceptResponse → Method W A) → Method W A
  with_action body = enter seams session a >=> (λ r. λ n. λ w. finish (body r n w))
