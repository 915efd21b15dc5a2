-- ===== src/Tool/Aborts.antt =====
-- session.py: which outcome the end of an action is recorded with, and what is raised.
use auditable_mcp_sdk_python.Base.{ℕ, ◌≡◌, refl, none, some, List, Str, text, Str_eq}
use auditable_mcp_sdk_python.Json.{str}
use auditable_mcp_sdk_python.Reasons.{Reason, code}
use auditable_mcp_sdk_python.Models
use auditable_mcp_sdk_python.Models.{success, AcceptResponse, aborted}
use auditable_mcp_sdk_python.Tool.World.{
  Error, usage_error, aborted_error, value_error, other_error, cancellation, Ended, returned,
  failed, Seams, fail, after,
}
use auditable_mcp_sdk_python.Tool.Session.{AmcpSession, AuditedAction}
use auditable_mcp_sdk_python.Tool.Recorded.{Sending, recorded}
use auditable_mcp_sdk_python.Tool.Outcomes.{Records, emit-Records}
use auditable_mcp_sdk_python.Tool.Emission.{forgiven, emit, emit_aborted, emit_aborted_best_effort}
use auditable_mcp_sdk_python.Tool.Entry.{abort}
use auditable_mcp_sdk_python.Tool.Lifecycle.{leaving, exit, finish}

-- What is raised in place of `e`, after the recording of an outcome ended.
abbrev pub unless_cancelled : Ended (Unit {0}) → Error → Error
unless_cancelled (failed cancellation) e = cancellation
unless_cancelled _ e = e

-- The body's end, after the recording of its outcome ended.
abbrev pub or_cancelled : {A : Type 0} → Ended (Unit {0}) → Ended A → Ended A
or_cancelled (failed cancellation) r = failed cancellation
or_cancelled _ r = r

-- The outcome that is to be recorded of code that ended so.
abbrev pub told_of : {A : Type 0} → Ended A → Str
told_of (returned a) = text "success"
told_of (failed e) = text "failed"

module _ {W : Type 0} (seams : Seams W) (session : AmcpSession) (a : AuditedAction) where
  -- An abort sends the transport one outcome, the action's event with `aborted` and the reason, signed
  -- under the session's next number where it signs, or nothing where that event is not valid or the
  -- signer raised; the number is used unless this recording raised. It raises `AmcpAbortedError` with
  -- the action's type, its target and the same reason, also where the recording raised an exception;
  -- only a cancellation takes its place.
  pub abort_lem :
      (reason : Reason) (n : ℕ) (v : List Sending × W)
      → let (r, n', v') = abort (recorded seams) session a reason n v in
        (recording : Ended (Unit {0})) × Records seams session a
          (text "aborted")
          (some (str (code reason)))
          n
          v
          recording
          n'
          v'.0
        × (r
            ≡ failed (unless_cancelled recording (aborted_error a.action_type a.target.ref reason)))
  unfolding abort emit_aborted_best_effort emit_aborted
  abort_lem reason n v =
      let (recording, n', v') = emit (recorded seams) session a aborted (some reason) n v in
      of recording n' v' (emit-Records seams session a aborted (some reason) n v)
    where
      of :
          (e : Ended (Unit {0})) (n' : ℕ) (v' : List Sending × W)
          → Records seams session a (text "aborted") (some (str (code reason))) n v e n' v'.0
          → let (r, m, u) =
              after {A = Unit {0}} {B = AcceptResponse}
                (λ _. fail (aborted_error a.action_type a.target.ref reason))
                (forgiven e, n', v') in
            (recording : Ended (Unit {0})) × Records seams session a
              (text "aborted")
              (some (str (code reason)))
              n
              v
              recording
              m
              u.0
            × (r
                ≡ failed
                    (unless_cancelled recording (aborted_error a.action_type a.target.ref reason)))
      of (returned u) n' v' h = (returned u, h, refl)
      of (failed usage_error) n' v' h = (failed usage_error, h, refl)
      of (failed (aborted_error x y z)) n' v' h = (failed (aborted_error x y z), h, refl)
      of (failed value_error) n' v' h = (failed value_error, h, refl)
      of (failed other_error) n' v' h = (failed other_error, h, refl)
      of (failed cancellation) n' v' h = (failed cancellation, h, refl)

  leaving-forgiven :
      {A : Type 0} (r : Ended A) (e : Ended (Unit {0})) → leaving r (forgiven e) ≡ or_cancelled e r
  leaving-forgiven r (returned u) = refl
  leaving-forgiven r (failed usage_error) = refl
  leaving-forgiven r (failed (aborted_error x y z)) = refl
  leaving-forgiven r (failed value_error) = refl
  leaving-forgiven r (failed other_error) = refl
  leaving-forgiven r (failed cancellation) = refl

  -- After the code of an action, the transport is sent one outcome, the action's event with `success`
  -- where the code returned and `failed` where it raised and with no reason, signed under the session's
  -- next number where it signs, or nothing where that event is not valid or the signer raised; the
  -- number is used unless this recording raised. The action ends as the code did, also where the
  -- recording raised an exception; only a cancellation takes its place.
  pub finish_lem :
      {A : Type 0} (r : Ended A) (n : ℕ) (v : List Sending × W)
      → let (left, n', v') = finish (recorded seams) session a (r, n, v) in
        (recording : Ended (Unit {0})) × Records seams session a
          (told_of r)
          none
          n
          v
          recording
          n'
          v'.0
        × (left ≡ or_cancelled recording r)
  unfolding finish exit
  finish_lem (returned x) n v =
      let (recording, n', v') = emit (recorded seams) session a success none n v in
      (
        recording,
        emit-Records seams session a success none n v,
        leaving-forgiven (returned x) recording,
      )
  finish_lem (failed x) n v =
      let (recording, n', v') = emit (recorded seams) session a Models.failed none n v in
      (
        recording,
        emit-Records seams session a Models.failed none n v,
        leaving-forgiven (failed x) recording,
      )
