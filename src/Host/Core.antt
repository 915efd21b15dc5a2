-- ===== src/Host/Core.antt =====
-- What the checks and the answers of the host leave as it is: its ledger and the records of sealed
-- attempts.
use auditable_mcp_sdk_python.Base.{ℕ, ◌≡◌, refl, Bool, Option, Str, arith, Str_eq}
use auditable_mcp_sdk_python.Base.Dict.{Dict}
use auditable_mcp_sdk_python.Json.{Fields}
use auditable_mcp_sdk_python.Reasons.{Reason}
use auditable_mcp_sdk_python.Ledger.{SealedRecord, Ledger}
use auditable_mcp_sdk_python.Host.State.{
  Note, Session, Host, flag, event_id, update_session, decide, reject_id,
}
use auditable_mcp_sdk_python.Host.World.{World}
use auditable_mcp_sdk_python.Host.Checks.{
  session_of, admit, receive, check_replay, judge, verify_numbered, verify_signature,
}
use auditable_mcp_sdk_python.Host.Sealing.{adopt}
use auditable_mcp_sdk_python.Host.Attempt.{
  refuse_replay, accept_again, answer_compared, answer_repeat,
}
use auditable_mcp_sdk_python.Host.Outcome.{refuse_second, refuse_orphan}

unfoldable pub core : Host → Ledger × Dict Str SealedRecord
core h = (h.ledger, h.sealed_attempts)

pub core-flag : (id : Str) (k : Reason) (n : Note) (h : Host) → core (flag id k n h) ≡ core h
unfolding core flag
core-flag id k n h = refl

pub core-update_session :
    (sid : Str) (f : Session → Session) (h : Host) → core (update_session sid f h) ≡ core h
unfolding core update_session
core-update_session sid f h = ground arith

core-reject_id : (id : Str) (h : Host) → core (reject_id id h) ≡ core h
unfolding core reject_id
core-reject_id id h = refl

pub core-decide : (e : Fields) (sid : Str) (h : Host) → core (decide e sid h) ≡ core h
unfolding decide
core-decide e sid h = grind (arith, core-update_session)

pub core-adopt : (r : SealedRecord) (d : Str) (h : Host) → core (adopt r d h) ≡ core h
unfolding adopt
core-adopt r d h = grind (arith, core-update_session, core-decide)

pub core-admit :
    (d : ℕ → Bool) (e : Fields) (x : Option Str) (b : Bool) (h : Host)
    → core (admit d e x b h).1 ≡ core h
unfolding core admit session_of flag
core-admit d e x b h = ground arith

core-receive : (e : Fields) (sid k : Str) (n : ℕ) (h : Host) → core (receive e sid k n h) ≡ core h
unfolding receive
core-receive e sid k n h = grind (arith, core-update_session, core-flag)

pub core-check_replay : (e : Fields) (sid : Str) (h : Host) → core (check_replay e sid h).1 ≡ core h
unfolding core check_replay flag
core-check_replay e sid h = ground arith

pub core-refuse_replay :
    (e : Fields) (sid : Str) (n : Note) (h : Host) → core (refuse_replay e sid n h) ≡ core h
unfolding refuse_replay
core-refuse_replay e sid n h = rw (core-flag, core-decide, core-reject_id) refl

pub core-rejected :
    (e : Fields) (sid : Str) (h : Host) → core (decide e sid (reject_id (event_id e) h)) ≡ core h
core-rejected e sid h = rw (core-decide, core-reject_id) refl

pub core-refused : (id : Str) (h : Host) → core (reject_id id h) ≡ core h
core-refused id h = core-reject_id id h

pub core-accept_again :
    (e : Fields) (sid : Str) (r : SealedRecord) (h : Host) → core (accept_again e sid r h) ≡ core h
unfolding accept_again
core-accept_again e sid r h = grind (arith, core-update_session)

pub core-refuse_second : (e : Fields) (sid : Str) (h : Host) → core (refuse_second e sid h) ≡ core h
unfolding refuse_second
core-refuse_second e sid h = rw (core-flag, core-decide) refl

pub core-refuse_orphan : (e : Fields) (sid : Str) (h : Host) → core (refuse_orphan e sid h) ≡ core h
unfolding refuse_orphan
core-refuse_orphan e sid h = rw (core-flag, core-decide) refl

module _ {W : Type 0} (env : World W) where
  pub core-verify_signature :
      (e : Fields) (sid : Str) (h : Host) (w : W) → core (verify_signature env e sid h w).1 ≡ core h
  unfolding verify_signature verify_numbered judge
  core-verify_signature e sid h w = grind (arith, core-receive, core-flag)

  pub core-answer_repeat :
      (e : Fields) (sid : Str) (r : SealedRecord) (h : Host) (w : W)
      → core (answer_repeat env e sid r h w).1 ≡ core h
  unfolding answer_repeat answer_compared
  core-answer_repeat e sid r h w = grind (arith, core-accept_again, core-refuse_replay)
