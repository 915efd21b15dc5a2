-- ===== src/Seam/Run/Guarantees.antt =====
-- What holds of every run of the seam.
use auditable_mcp_sdk_python.Base.{
  ◌≡◌, ℕ, Option, some, List, [], ◌∷◌, Str, ℕ_eq, Str_eq, nat_eq_iff, arith,
}
use auditable_mcp_sdk_python.Base.Lists.{All}
use auditable_mcp_sdk_python.Base.Dict.{Dict, lookup, lookup-insert, get_or}
use auditable_mcp_sdk_python.Models.{AuditCapability, AttemptResponse, unavailable}
use auditable_mcp_sdk_python.Seam.Token.{check_instance}
use auditable_mcp_sdk_python.Seam.Frame.{RequestId, RequestId_eq, Protocol}
use auditable_mcp_sdk_python.Seam.State.{
  max_idle_sessions, Round, ToolCall, Seam, end_round, forget_cancelled, settle, send_or_warn,
  send_frame,
}
use auditable_mcp_sdk_python.Seam.Round.{send_round}
use auditable_mcp_sdk_python.Seam.Exchange.{taken, end_attempt}
use auditable_mcp_sdk_python.Seam.Run.{
  Action, new_seam, run, arrives, written, runs, negotiates, attempts, resumes, reports, drops,
  closes,
}
use auditable_mcp_sdk_python.Seam.Run.Bounded.{
  Within, erase_idle-Within, erase_waiting-Within, settle-IsBounded, settle_all-IsBounded,
  release-IsBounded, end_call-IsBounded, keep_waiting-IsBounded, send_round-IsBounded,
}
use auditable_mcp_sdk_python.Seam.Run.Kept.{
  settle_all-IsKept, release-IsKept, end_call-IsKept, keep_waiting-IsKept,
}
use auditable_mcp_sdk_python.Seam.Run.Steps.{IsFreshStep, run-IsHeld}
use auditable_mcp_sdk_python.Json.{Fields}

any_step : (x : Action) → IsFreshStep (λ _. Unit {0}) x
any_step (runs secret (end_round c)) = tt
any_step (runs secret (forget_cancelled id)) = tt
any_step (arrives own f t) = tt
any_step (written f) = tt
any_step (negotiates offered c) = tt
any_step (attempts c event) = tt
any_step (resumes c event a id) = tt
any_step (reports c event) = tt
any_step drops = tt
any_step closes = tt

any_secret : (xs : List Action) → All (IsFreshStep (λ _. Unit {0})) xs
any_secret [] = tt
any_secret (x ∷ xs) = (any_step x, any_secret xs)

send_round-answers :
    (secret : Str) (c : ToolCall) (id : RequestId) (s : Seam)
    → (send_round secret c id s).answers ≡ s.answers
unfolding send_round send_or_warn send_frame
send_round-answers secret c id s = ground arith

pub settle-rounds : (p : ℕ) (q : AttemptResponse) (s : Seam) → (settle p q s).rounds ≡ s.rounds
unfolding settle
settle-rounds p q s = ground arith

settle-lookup :
    (a p : ℕ) (r q : AttemptResponse) (s : Seam)
    → lookup a s.answers ≡ some r
    → lookup a (settle p q s).answers ≡ some r
unfolding settle
settle-lookup a p r q s h = ground (arith, lookup-insert a p q s.answers, nat_eq_iff a p)

-- An attempt that has been answered keeps that answer whatever messages, tasks, handlers' calls and
-- ends of waits follow, in any order, and the connection's end among them.
pub run-answers :
    (p : Protocol) (xs : List Action) (a : ℕ) (r : AttemptResponse) (s : Seam)
    → lookup a s.answers ≡ some r
    → lookup a (run p xs s).answers ≡ some r
run-answers p xs a r s h =
    let Kept =
      λ (_ : Dict Str (ToolCall × Round)) (d : Dict ℕ AttemptResponse). lookup a d ≡ some r in
    let settled = λ (q : ℕ) (r' : AttemptResponse) (t : Seam). settle-lookup a q r r' t in
    let failed = λ (q : ℕ) (t : Seam). settled q unavailable t in
    run-IsHeld (λ _ _. Kept) (λ _. Unit) (λ k t e. e) (λ k t e. e) (λ k t e. e) (λ t e. e)
      (λ secret c id t f e. rw (send_round-answers secret c id t) e) settled
      (settle_all-IsKept Kept failed (λ k rs d e. e)) (release-IsKept Kept failed (λ k rs d e. e))
      (end_call-IsKept Kept failed (λ k rs d e. e))
      (keep_waiting-IsKept Kept failed (λ k rs d e. e)) p xs s (any_secret xs) h

new_seam-tables :
    (declares : AuditCapability) (instance_name : Str) (s : Seam)
    → new_seam declares instance_name ≡ some s
    → (s.idle ≡ []) × (s.waiting ≡ [])
unfolding new_seam check_instance
new_seam-tables declares instance_name s made = ground arith

-- From a new seam on, after any messages, tasks, handlers' calls and ends of waits, in any order, at
-- most `max_idle_sessions` (1024) audit sessions are kept idle and at most as many concluded calls
-- are kept waiting for a retry, and each of these stands under its own request's id.
pub run-Within :
    (p : Protocol) (xs : List Action) (declares : AuditCapability) (instance_name : Str) {s : Seam}
    → new_seam declares instance_name ≡ some s
    → Within max_idle_sessions (run p xs s).idle (run p xs s).waiting
run-Within p xs declares instance_name {s} made =
    let empty = new_seam-tables declares instance_name s made in
    run-IsHeld (λ i w _ _. Within max_idle_sessions i w) (λ _. Unit)
      (λ k t. erase_idle-Within max_idle_sessions k)
      (λ k t. erase_waiting-Within max_idle_sessions k) (λ k t h. h)
      (λ t h. record { few_idle = omega arith; few_waiting = h.few_waiting; keyed = h.keyed })
      (λ secret c id t f h. send_round-IsBounded secret c id t h)
      (settle-IsBounded max_idle_sessions) (settle_all-IsBounded max_idle_sessions unavailable)
      (release-IsBounded max_idle_sessions) (end_call-IsBounded max_idle_sessions)
      keep_waiting-IsBounded p xs s (any_secret xs)
      (rw (empty.0, empty.1)
        (record { few_idle = omega arith; few_waiting = omega arith; keyed = tt }))

end_attempt-answered :
    (c : ToolCall) (event : Fields) (a : ℕ) (id : Option Str) (s : Seam)
    → lookup a (end_attempt c event a id s).1.answers ≡ some (end_attempt c event a id s).0
unfolding end_attempt taken settle
end_attempt-answered c event a id s =
    grind (arith, lookup-insert a a unavailable s.answers, nat_eq_iff a a)

-- The answer that a handler gets at the end of its wait, whether it came or the bound passed, is the
-- attempt's for good: it is the answer that the attempt had received, and `unavailable` where it had
-- received none, and no message or step that follows gives the attempt another one.
pub end_attempt-run :
    (p : Protocol) (xs : List Action) (c : ToolCall) (event : Fields) (a : ℕ) (id : Option Str)
    (s : Seam)
    → (lookup a (run p xs (end_attempt c event a id s).1).answers
        ≡ some (end_attempt c event a id s).0)
      × ((end_attempt c event a id s).0 ≡ get_or a unavailable s.answers)
unfolding end_attempt taken get_or
end_attempt-run p xs c event a id s = (
  run-answers p xs a (end_attempt c event a id s).0 (end_attempt c event a id s).1
      (end_attempt-answered c event a id s),
  ground arith,
)
