-- ===== src/Host/Frame.antt =====
-- What holds of a host's ledger and sealed attempts under every event: what settling the tail and
-- sealing keep.
use auditable_mcp_sdk_python.Base.{
  ℕ, ◌≡◌, Bool, true, false, not, ◌&&◌, Option, none, some, Str, Bool-cases, leb, is_some,
  Option-cases, inl, inr, Str_eq,
}
use auditable_mcp_sdk_python.Json.{Fields}
use auditable_mcp_sdk_python.Reasons.{Reason}
use auditable_mcp_sdk_python.Base.Dict.{Dict, lookup}
use auditable_mcp_sdk_python.Ledger.{SealedRecord, Ledger}
use auditable_mcp_sdk_python.Host.State.{Host, event_id}
use auditable_mcp_sdk_python.Host.World.{World, lift, step}
use auditable_mcp_sdk_python.Host.Triple.{Keeps, Keeps-bind}
use auditable_mcp_sdk_python.Host.Checks.{
  Admission, admitted, refused, admit, check_replay, verify_signature,
}
use auditable_mcp_sdk_python.Host.Sealing.{or_raised, digest_of, settle_tail, seal_event}
use auditable_mcp_sdk_python.Host.Attempt.{
  answer_replay, answer_signature, answer_admission, answer_settled, has_outcome, answer_repeat,
  answer_sealed, seal_attempt, answer_new, attempt, attempt_settled, handle_attempt,
}
use auditable_mcp_sdk_python.Host.Outcome.{
  is_accepted, is_aborted, is_repeat, outcome_sealed, record_replay, record_signature,
  record_admission, record_settled, report_sealed, seal_outcome, correlate, record_new, outcome,
  record_outcome,
}
use auditable_mcp_sdk_python.Host.Core.{
  core, core-update_session, core-decide, core-admit, core-check_replay, core-refuse_replay,
  core-rejected, core-refused, core-refuse_second, core-refuse_orphan, core-verify_signature,
  core-answer_repeat,
}

-- The property, of the host.
abbrev pub Holding : (Ledger × Dict Str SealedRecord → Type 0) → Host → Type 0
Holding Q h = Q (core h)

module _ {W : Type 0} (env : World W) (Q : Ledger × Dict Str SealedRecord → Type 0)
    (settles : Keeps (Holding Q) (settle_tail env))
    (seals : (e : Fields) (t : Str) → Keeps (Holding Q) (seal_event env e t)) where
  step-Holding :
      {A : Type 0} (f : Host → A × Host)
      → ((h : Host) → core (f h).1 ≡ core h)
      → Keeps {W = W} (Holding Q) (step f)
  step-Holding f same h w p = rw (same h) p

  answer_repeat-Holding :
      (e : Fields) (sid : Str) (r : SealedRecord) → Keeps (Holding Q) (answer_repeat env e sid r)
  answer_repeat-Holding e sid r h w p = rw (core-answer_repeat env e sid r h w) p

  answer_sealed-Holding :
      (e : Fields) (sid : Str) (o : Option SealedRecord)
      → Keeps (Holding Q) (answer_sealed env e sid o)
  unfolding answer_sealed
  answer_sealed-Holding e sid none h w p = p
  answer_sealed-Holding e sid (some r) h w p = rw (core-update_session, core-decide) p

  seal_attempt-Holding : (e : Fields) (sid : Str) → Keeps (Holding Q) (seal_attempt env e sid)
  unfolding seal_attempt
  seal_attempt-Holding e sid h w p = elim (Bool-cases (not h.persistence_available)) [
    | inl x ↦ rw x p
    | inr x ↦ rw x (
        let (t, v) = env.now w in
        Keeps-bind (Holding Q) (seal_event env e t) (answer_sealed env e sid) (seals e t)
          (answer_sealed-Holding e sid) h v p)
  ]

  answer_replay-Holding :
      (e : Fields) (sid : Str) (reason : Option Reason)
      → Keeps (Holding Q) (answer_replay env e sid reason)
  unfolding answer_replay
  answer_replay-Holding e sid (some r) h w p = rw (core-rejected e sid h) p
  answer_replay-Holding e sid none h w p = seal_attempt-Holding e sid h w p

  answer_new-Holding : (e : Fields) (sid : Str) → Keeps (Holding Q) (answer_new env e sid)
  unfolding answer_new
  answer_new-Holding e sid h w p = elim (Bool-cases (has_outcome (event_id e) sid h)) [
    | inl x ↦ rw x (rw core-refuse_replay p)
    | inr x ↦ rw x (
        Keeps-bind (Holding Q) (step (check_replay e sid)) (answer_replay env e sid)
          (step-Holding (check_replay e sid) (core-check_replay e sid))
          (answer_replay-Holding e sid) h w p)
  ]

  answer_signature-Holding :
      (e : Fields) (sid : Str) (reason : Option Reason)
      → Keeps (Holding Q) (answer_signature env e sid reason)
  unfolding answer_signature
  answer_signature-Holding e sid (some r) h w p = rw core-refused p
  answer_signature-Holding e sid none h w p =
      elim (Option-cases (lookup (event_id e) h.sealed_attempts)) [
        | inl x ↦ rw (x, answer_signature) (answer_new-Holding e sid h w p)
        | inr (r, x) ↦ rw (x, answer_signature) (answer_repeat-Holding e sid r h w p)
      ]

  verify_signature-Holding :
      (e : Fields) (sid : Str) → Keeps (Holding Q) (verify_signature env e sid)
  verify_signature-Holding e sid h w p = rw (core-verify_signature env e sid h w) p

  answer_admission-Holding :
      (e : Fields) (admission : Admission) → Keeps (Holding Q) (answer_admission env e admission)
  unfolding answer_admission
  answer_admission-Holding e (refused r) h w p = p
  answer_admission-Holding e (admitted sid) h w p =
      Keeps-bind (Holding Q) (verify_signature env e sid) (answer_signature env e sid)
        (verify_signature-Holding e sid) (answer_signature-Holding e sid) h w p

  attempt-Holding : (e : Fields) (x : Option Str) → Keeps (Holding Q) (attempt env e x)
  unfolding attempt
  attempt-Holding e x =
      Keeps-bind (Holding Q) (step (admit env.digit e x true)) (answer_admission env e)
        (step-Holding (admit env.digit e x true) (core-admit env.digit e x true))
        (answer_admission-Holding e)

  answer_settled-Holding :
      (e : Fields) (x : Option Str) (b : Bool) → Keeps (Holding Q) (answer_settled env e x b)
  unfolding answer_settled
  answer_settled-Holding e x true h w p = attempt-Holding e x h w p
  answer_settled-Holding e x false h w p = p

  attempt_settled-Holding :
      (e : Fields) (x : Option Str) → Keeps (Holding Q) (attempt_settled env e x)
  unfolding attempt_settled
  attempt_settled-Holding e x =
      Keeps-bind (Holding Q) (settle_tail env) (answer_settled env e x) settles
        (answer_settled-Holding e x)

  pub handle_attempt-Holding :
      (event : Fields) (expected : Option Str) (deadline : Option ℕ) (h : Host) (w : W)
      → Holding Q h
      → Holding Q (handle_attempt env event expected deadline h w).1
  unfolding handle_attempt
  handle_attempt-Holding e x none h w p = attempt_settled-Holding e x h w p
  handle_attempt-Holding e x (some deadline) h w p =
      elim (Bool-cases (leb deadline (env.current_time w).0)) [
        | inl y ↦ rw y p
        | inr y ↦ rw y (attempt_settled-Holding e x h (env.current_time w).1 p)
      ]

  report_sealed-Holding :
      (e : Fields) (sid d : Str) (o : Option SealedRecord)
      → Keeps (Holding Q) (report_sealed env e sid d o)
  unfolding report_sealed
  report_sealed-Holding e sid d none h w p = p
  report_sealed-Holding e sid d (some r) h w p = rw (core-update_session, core-decide) p

  seal_outcome-Holding : (e : Fields) (sid d : Str) → Keeps (Holding Q) (seal_outcome env e sid d)
  unfolding seal_outcome
  seal_outcome-Holding e sid d h w p = elim (Bool-cases (not h.persistence_available)) [
    | inl x ↦ rw x p
    | inr x ↦ rw x (
        let (t, v) = env.now w in
        Keeps-bind (Holding Q) (seal_event env e t) (report_sealed env e sid d) (seals e t)
          (report_sealed-Holding e sid d) h v p)
  ]

  correlate-Holding : (e : Fields) (sid d : Str) → Keeps (Holding Q) (correlate env e sid d)
  unfolding correlate
  correlate-Holding e sid d h w p =
      elim (Bool-cases (not (is_accepted (event_id e) sid h) && not (is_aborted e))) [
        | inl x ↦ rw x (rw core-refuse_orphan p)
        | inr x ↦ rw x (seal_outcome-Holding e sid d h w p)
      ]

  record_replay-Holding :
      (e : Fields) (sid d : Str) (reason : Option Reason)
      → Keeps (Holding Q) (record_replay env e sid d reason)
  unfolding record_replay
  record_replay-Holding e sid d (some r) h w p = p
  record_replay-Holding e sid d none h w p = correlate-Holding e sid d h w p

  record_new-Holding : (e : Fields) (sid d : Str) → Keeps (Holding Q) (record_new env e sid d)
  unfolding record_new
  record_new-Holding e sid d h w p = elim (Bool-cases (is_repeat (event_id e) sid d h)) [
    | inl x ↦ rw x p
    | inr x ↦ rw x (elim (Bool-cases (is_some (outcome_sealed (event_id e) sid h))) [
      | inl y ↦ rw y (rw core-refuse_second p)
      | inr y ↦ rw y (
          Keeps-bind (Holding Q) (step (check_replay e sid)) (record_replay env e sid d)
            (step-Holding (check_replay e sid) (core-check_replay e sid))
            (record_replay-Holding e sid d) h w p)
    ])
  ]

  record_signature-Holding :
      (e : Fields) (sid : Str) (reason : Option Reason)
      → Keeps (Holding Q) (record_signature env e sid reason)
  unfolding record_signature
  record_signature-Holding e sid (some r) h w p = p
  record_signature-Holding e sid none h w p =
      Keeps-bind (Holding Q) (lift (or_raised (digest_of env.jcs e))) (record_new env e sid)
        (λ h w p. p) (record_new-Holding e sid) h w p

  record_admission-Holding :
      (e : Fields) (admission : Admission) → Keeps (Holding Q) (record_admission env e admission)
  unfolding record_admission
  record_admission-Holding e (refused r) h w p = p
  record_admission-Holding e (admitted sid) h w p =
      Keeps-bind (Holding Q) (verify_signature env e sid) (record_signature env e sid)
        (verify_signature-Holding e sid) (record_signature-Holding e sid) h w p

  outcome-Holding : (e : Fields) (x : Option Str) → Keeps (Holding Q) (outcome env e x)
  unfolding outcome
  outcome-Holding e x =
      Keeps-bind (Holding Q) (step (admit env.digit e x false)) (record_admission env e)
        (step-Holding (admit env.digit e x false) (core-admit env.digit e x false))
        (record_admission-Holding e)

  record_settled-Holding :
      (e : Fields) (x : Option Str) (b : Bool) → Keeps (Holding Q) (record_settled env e x b)
  unfolding record_settled
  record_settled-Holding e x true h w p = outcome-Holding e x h w p
  record_settled-Holding e x false h w p = p

  pub record_outcome-Holding :
      (event : Fields) (expected : Option Str) (h : Host) (w : W)
      → Holding Q h
      → Holding Q (record_outcome env event expected h w).1
  unfolding record_outcome
  record_outcome-Holding e x h w p =
      Keeps-bind (Holding Q) (settle_tail env) (record_settled env e x) settles
        (record_settled-Holding e x) h w p
