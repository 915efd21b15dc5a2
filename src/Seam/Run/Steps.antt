-- ===== src/Seam/Run/Steps.antt =====
-- What every step of the seam keeps.
use auditable_mcp_sdk_python.Base.{
  ℕ, Bool, true, Option, none, some, List, [], ◌∷◌, ◌++◌, Str, ℕ_eq, Str_eq, arith, Option-cases,
  inl, inr,
}
use auditable_mcp_sdk_python.Base.Lists.{All}
use auditable_mcp_sdk_python.Base.Dict.{Dict, get_or, lookup, erase}
use auditable_mcp_sdk_python.Json.{Fields}
use auditable_mcp_sdk_python.Models.{AttemptResponse, unavailable}
use auditable_mcp_sdk_python.Seam.Frame.{
  RequestId, RequestId_eq, name, number, Body, result, error, Frame, request, notification, answer,
  Protocol, decision,
}
use auditable_mcp_sdk_python.Seam.State.{
  AuditSession, Round, ToolCall, Seam, end_round, forget_cancelled, state_of, set_call, settle,
  settle_all, start, send_frame, send_or_warn,
}
use auditable_mcp_sdk_python.Seam.Call.{keep_waiting, conclude_waiting, release, end_call}
use auditable_mcp_sdk_python.Seam.Round.{
  schedule_round, send_round, end_on, unschedule, run_end_round, settle_from, accept_retry,
  final_error, final_of, final_frame,
}
use auditable_mcp_sdk_python.Seam.Arrival.{
  values, reply, deliver_final, retry_round, take_retry, open_audit, join_audit, take_new,
  take_call, cancel, cancel_call, remember_cancelled, settle_answer, take_answer, read_handshake,
  inbound,
}
use auditable_mcp_sdk_python.Seam.Answer.{
  finish_waiting, finish, answer_out, outbound, settle_pending, end_calls, end_rounds,
  close_pending, close_calls, close_rounds, clear_tables, on_close, run_task,
}
use auditable_mcp_sdk_python.Seam.Exchange.{
  negotiate_call, buffer_attempt, request_attempt, begin_attempt, taken, end_attempt, carry_outcome,
  send_attempt, send_outcome,
}
use auditable_mcp_sdk_python.Seam.Run.{
  Action, arrives, written, runs, negotiates, attempts, resumes, reports, drops, closes, step, run,
}

-- The random part of the token that the step may issue is such.
abbrev pub IsFreshStep : (Str → Type 0) → Action → Type 0
IsFreshStep IsFresh (runs secret (end_round c)) = IsFresh secret
IsFreshStep IsFresh _ = Unit

-- A property of the idle sessions, of the concluded calls that wait, of the rounds out and of the
-- answers received is kept by every step whose token is fresh, where the operations on calls keep it.
module _
    (Held : Dict Str AuditSession
      → Dict RequestId ToolCall
      → Dict Str (ToolCall × Round)
      → Dict ℕ AttemptResponse
      → Type 0)
    (IsFresh : Str → Type 0)
    (erase_idle-IsHeld : (k : Str) (s : Seam)
      → Held s.idle s.waiting s.rounds s.answers
      → Held (erase k s.idle) s.waiting s.rounds s.answers)
    (erase_waiting-IsHeld : (k : RequestId) (s : Seam)
      → Held s.idle s.waiting s.rounds s.answers
      → Held s.idle (erase k s.waiting) s.rounds s.answers)
    (erase_round-IsHeld : (k : Str) (s : Seam)
      → Held s.idle s.waiting s.rounds s.answers
      → Held s.idle s.waiting (erase k s.rounds) s.answers)
    (clear-IsHeld : (s : Seam)
      → Held s.idle s.waiting s.rounds s.answers
      → Held [] s.waiting [] s.answers)
    (send_round-IsHeld : (secret : Str) (c : ToolCall) (id : RequestId) (s : Seam)
      → IsFresh secret
      → Held s.idle s.waiting s.rounds s.answers
      → Held
          (send_round secret c id s).idle
          (send_round secret c id s).waiting
          (send_round secret c id s).rounds
          (send_round secret c id s).answers)
    (settle-IsHeld : (p : ℕ) (q : AttemptResponse) (s : Seam)
      → Held s.idle s.waiting s.rounds s.answers
      → Held
          (settle p q s).idle
          (settle p q s).waiting
          (settle p q s).rounds
          (settle p q s).answers)
    (settle_all-IsHeld : (ps : Dict Str ℕ) (s : Seam)
      → Held s.idle s.waiting s.rounds s.answers
      → Held
          (settle_all unavailable ps s).idle
          (settle_all unavailable ps s).waiting
          (settle_all unavailable ps s).rounds
          (settle_all unavailable ps s).answers)
    (release-IsHeld : (c : ToolCall) (final : Bool) (s : Seam)
      → Held s.idle s.waiting s.rounds s.answers
      → Held
          (release c final s).idle
          (release c final s).waiting
          (release c final s).rounds
          (release c final s).answers)
    (end_call-IsHeld : (c : ToolCall) (final : Bool) (s : Seam)
      → Held s.idle s.waiting s.rounds s.answers
      → Held
          (end_call c final s).idle
          (end_call c final s).waiting
          (end_call c final s).rounds
          (end_call c final s).answers)
    (keep_waiting-IsHeld : (c : ToolCall) (body : Body) (s : Seam)
      → Held s.idle s.waiting s.rounds s.answers
      → Held
          (keep_waiting c body s).idle
          (keep_waiting c body s).waiting
          (keep_waiting c body s).rounds
          (keep_waiting c body s).answers) where
  abbrev pub IsHeld : Seam → Type 0
  IsHeld s = Held s.idle s.waiting s.rounds s.answers

  send_or_warn-IsHeld : (f : Frame) (s : Seam) → IsHeld s → IsHeld (send_or_warn f s)
  unfolding send_or_warn send_frame
  send_or_warn-IsHeld f s h = ground arith

  schedule_round-IsHeld : (c : ToolCall) (s : Seam) → IsHeld s → IsHeld (schedule_round c s)
  unfolding schedule_round start
  schedule_round-IsHeld c s h = ground arith

  end_on-IsHeld :
      (o : Option RequestId) (secret : Str) (c : ToolCall) (s : Seam)
      → IsFresh secret
      → IsHeld s
      → IsHeld (end_on o secret c s)
  unfolding end_on
  end_on-IsHeld none secret c s fresh h = h
  end_on-IsHeld (some id) secret c s fresh h =
      ground (arith, send_round-IsHeld secret c id s fresh h)

  run_end_round-IsHeld :
      (secret : Str) (c : ToolCall) (s : Seam)
      → IsFresh secret
      → IsHeld s
      → IsHeld (run_end_round secret c s)
  unfolding run_end_round unschedule
  run_end_round-IsHeld secret c s fresh h =
      end_on-IsHeld (state_of c (unschedule c s)).current_id secret c (unschedule c s) fresh h

  settle_from-IsHeld :
      (rs : Dict Str AttemptResponse) (ps : Dict Str ℕ) (s : Seam)
      → IsHeld s
      → IsHeld (settle_from rs ps s)
  unfolding settle_from
  settle_from-IsHeld rs [] s h = h
  settle_from-IsHeld rs ((k, p) ∷ ps) s h =
      settle_from-IsHeld rs ps (settle p (get_or k unavailable rs) s)
        (settle-IsHeld p (get_or k unavailable rs) s h)

  accept_retry-IsHeld :
      (p : Protocol) (c : ToolCall) (out : Round) (id : RequestId) (params : Option Fields)
      (t : Option ℕ) (s : Seam)
      → IsHeld s
      → IsHeld (accept_retry p c out id params t s)
  unfolding accept_retry
  accept_retry-IsHeld p c out id params t s h =
      grind (arith, settle_from-IsHeld, schedule_round-IsHeld)

  final_of-IsHeld :
      (c : ToolCall) (id : RequestId) (body : Body) (es : List Fields) (s : Seam)
      → IsHeld s
      → IsHeld (final_of c id body es s).1
  unfolding final_of final_error conclude_waiting
  final_of-IsHeld c id (result fs) es s h = erase_waiting-IsHeld c.original_id s h
  final_of-IsHeld c id (error e) [] s h = erase_waiting-IsHeld c.original_id s h
  final_of-IsHeld c id (error e) (x ∷ es) s h =
      let s' = set_call c (record (state_of c s) { buffered = x ∷ es }) s in
      schedule_round-IsHeld c (keep_waiting c (error e) s') (keep_waiting-IsHeld c (error e) s' h)

  final_frame-IsHeld :
      (c : ToolCall) (body : Body) (s : Seam) → IsHeld s → IsHeld (final_frame c body s).1
  unfolding final_frame
  final_frame-IsHeld c body s h = grind (arith, settle_all-IsHeld, final_of-IsHeld)

  reply-IsHeld : (f : Frame) (s : Seam) → IsHeld s → IsHeld (reply f s).1
  unfolding reply send_frame
  reply-IsHeld f s h = ground arith

  deliver_final-IsHeld :
      (c : ToolCall) (body : Body) (s : Seam) → IsHeld s → IsHeld (deliver_final c body s).1
  unfolding deliver_final
  deliver_final-IsHeld c body s h = grind (arith, final_frame-IsHeld c body s, reply-IsHeld)

  -- A retry keeps it where it holds once the retry's round is closed.
  pub retry_round-IsHeld :
      (p : Protocol) (token : Str) (c : ToolCall) (out : Round) (id : RequestId)
      (params : Option Fields) (t : Option ℕ) (s : Seam)
      → Held s.idle s.waiting (erase token s.rounds) s.answers
      → IsHeld (retry_round p token c out id params t s).1
  unfolding retry_round
  retry_round-IsHeld p token c out id params t s h =
      let s' = record s { rounds = erase token s.rounds } in
      let taken : IsHeld (accept_retry p c out id params t s') =
        accept_retry-IsHeld p c out id params t s' h in
      grind (arith, deliver_final-IsHeld)

  take_retry-IsHeld :
      (p : Protocol) (token : Str) (id : RequestId) (params : Option Fields) (t : Option ℕ)
      (s : Seam)
      → IsHeld s
      → IsHeld (take_retry p token id params t s).1
  unfolding take_retry
  take_retry-IsHeld p token id params t s h =
      let closed : Held s.idle s.waiting (erase token s.rounds) s.answers =
        erase_round-IsHeld token s h in
      grind (arith, reply-IsHeld, retry_round-IsHeld)

  take_new-IsHeld :
      (p : Protocol) (own : Str) (id : RequestId) (params : Option Fields) (t : Option ℕ) (s : Seam)
      → IsHeld s
      → IsHeld (take_new p own id params t s)
  unfolding take_new open_audit join_audit
  take_new-IsHeld p own id params t s h = grind arith

  cancel_call-IsHeld :
      (k : Option RequestId) (c : ToolCall) (params : Option Fields) (s : Seam)
      → IsHeld s
      → IsHeld (cancel_call k c params s).1
  unfolding cancel_call remember_cancelled start
  cancel_call-IsHeld k c params s h = ground (arith, end_call-IsHeld c true s h)

  cancel-IsHeld : (params : Option Fields) (s : Seam) → IsHeld s → IsHeld (cancel params s).1
  unfolding cancel
  cancel-IsHeld params s h = grind (arith, cancel_call-IsHeld)

  settle_answer-IsHeld :
      (p : Protocol) (id : Str) (body : Body) (s : Seam)
      → IsHeld s
      → IsHeld (settle_answer p id body s).1
  unfolding settle_answer
  settle_answer-IsHeld p id body s h = elim (Option-cases (lookup id s.pending)) [
    | inl e ↦ rw (settle_answer, e) h
    | inr (entry, e) ↦
        rw (settle_answer, e)
          (settle-IsHeld entry.0 (decision p body) (record s { pending = erase id s.pending }) h)
  ]

  take_answer-IsHeld :
      (p : Protocol) (id : RequestId) (body : Body) (s : Seam)
      → IsHeld s
      → IsHeld (take_answer p id body s).1
  unfolding take_answer
  take_answer-IsHeld p (number z) body s h = h
  take_answer-IsHeld p (name t) body s h = grind (arith, settle_answer-IsHeld)

  inbound-IsHeld :
      (p : Protocol) (own : Str) (f : Frame) (t : Option ℕ) (s : Seam)
      → IsHeld s
      → IsHeld (inbound p own f t s).1
  unfolding inbound take_call read_handshake
  inbound-IsHeld p own (request id method params) t s h =
      grind (arith, take_retry-IsHeld, take_new-IsHeld)
  inbound-IsHeld p own (answer id body) t s h = take_answer-IsHeld p id body s h
  inbound-IsHeld p own (notification method params) t s h = grind (arith, cancel-IsHeld)

  finish-IsHeld :
      (c : ToolCall) (id : RequestId) (body : Body) (s : Seam)
      → IsHeld s
      → IsHeld (finish c id body s).1
  unfolding finish finish_waiting
  finish-IsHeld c id body s h =
      grind (arith, release-IsHeld, settle_all-IsHeld, keep_waiting-IsHeld, final_frame-IsHeld)

  outbound-IsHeld : (f : Frame) (s : Seam) → IsHeld s → IsHeld (outbound f s).1
  unfolding outbound answer_out
  outbound-IsHeld (answer id body) s h = grind (arith, finish-IsHeld)
  outbound-IsHeld (request id method params) s h = h
  outbound-IsHeld (notification method params) s h = h

  settle_pending-IsHeld :
      (ps : Dict Str (ℕ × ToolCall)) (s : Seam) → IsHeld s → IsHeld (settle_pending ps s)
  unfolding settle_pending
  settle_pending-IsHeld [] s h = h
  settle_pending-IsHeld ((k, (p, c)) ∷ ps) s h =
      settle_pending-IsHeld ps (settle p unavailable s) (settle-IsHeld p unavailable s h)

  end_calls-IsHeld : (cs : List ToolCall) (s : Seam) → IsHeld s → IsHeld (end_calls cs s)
  unfolding end_calls
  end_calls-IsHeld [] s h = h
  end_calls-IsHeld (c ∷ cs) s h =
      end_calls-IsHeld cs (end_call c true s) (end_call-IsHeld c true s h)

  end_rounds-IsHeld :
      (rs : Dict Str (ToolCall × Round)) (s : Seam) → IsHeld s → IsHeld (end_rounds rs s)
  unfolding end_rounds
  end_rounds-IsHeld [] s h = h
  end_rounds-IsHeld ((k, (c, out)) ∷ rs) s h =
      let s' = settle_all unavailable out.awaiting s in
      end_rounds-IsHeld rs (set_call c (record (state_of c s') { ended = true }) s')
        (settle_all-IsHeld out.awaiting s h)

  close_calls-IsHeld : (s : Seam) → IsHeld s → IsHeld (close_calls s)
  unfolding close_calls
  close_calls-IsHeld s h = end_calls-IsHeld (values s.calls ++ values s.waiting) s h

  on_close-IsHeld : (s : Seam) → IsHeld s → IsHeld (on_close s)
  unfolding on_close clear_tables close_rounds close_pending
  on_close-IsHeld s h =
      let s' = close_calls (close_pending s) in
      let closed = close_calls-IsHeld (close_pending s) (settle_pending-IsHeld s.pending s h) in
      clear-IsHeld (close_rounds s') (end_rounds-IsHeld s'.rounds s' closed)

  send_attempt-IsHeld :
      (c : ToolCall) (event : Fields) (s : Seam) → IsHeld s → IsHeld (send_attempt c event s).1
  unfolding send_attempt begin_attempt buffer_attempt request_attempt send_frame
  send_attempt-IsHeld c event s h = grind (arith, schedule_round-IsHeld)

  end_attempt-IsHeld :
      (c : ToolCall) (event : Fields) (p : ℕ) (id : Option Str) (s : Seam)
      → IsHeld s
      → IsHeld (end_attempt c event p id s).1
  unfolding end_attempt taken
  end_attempt-IsHeld c event p id s h = grind (arith, settle-IsHeld)

  send_outcome-IsHeld :
      (c : ToolCall) (event : Fields) (s : Seam) → IsHeld s → IsHeld (send_outcome c event s).1
  unfolding send_outcome carry_outcome
  send_outcome-IsHeld c event s h = grind (arith, send_or_warn-IsHeld)

  step-IsHeld :
      (p : Protocol) (x : Action) (s : Seam)
      → IsFreshStep IsFresh x
      → IsHeld s
      → IsHeld (step p x s)
  unfolding step run_task negotiate_call
  step-IsHeld p (arrives own m t) s f h = inbound-IsHeld p own m t s h
  step-IsHeld p (written m) s f h = grind (arith, outbound-IsHeld m s, send_or_warn-IsHeld)
  step-IsHeld p (runs secret (end_round c)) s f h = run_end_round-IsHeld secret c s f h
  step-IsHeld p (runs secret (forget_cancelled id)) s f h = h
  step-IsHeld p (negotiates offered c) s f h = ground arith
  step-IsHeld p (attempts c event) s f h = send_attempt-IsHeld c event s h
  step-IsHeld p (resumes c event q id) s f h = end_attempt-IsHeld c event q id s h
  step-IsHeld p (reports c event) s f h = send_outcome-IsHeld c event s h
  step-IsHeld p drops s f h = h
  step-IsHeld p closes s f h = on_close-IsHeld s h

  -- So is it by every sequence of such steps.
  pub run-IsHeld :
      (p : Protocol) (xs : List Action) (s : Seam)
      → All (IsFreshStep IsFresh) xs
      → IsHeld s
      → IsHeld (run p xs s)
  unfolding run
  run-IsHeld p [] s fresh h = h
  run-IsHeld p (x ∷ xs) s fresh h =
      run-IsHeld p xs (step p x s) fresh.1 (step-IsHeld p x s fresh.0 h)
