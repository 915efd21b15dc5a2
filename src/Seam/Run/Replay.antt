-- ===== src/Seam/Run/Replay.antt =====
-- A retry of a round is acted on at most once, whatever happens in between.
use auditable_mcp_sdk_python.Base.{
  ◌≡◌, ◌≢◌, ◌∙◌, refl, ℕ, Option, none, some, List, Str, ℕ_eq, Str_eq, str_eq_iff, arith, inl, inr,
  Option-cases,
}
use auditable_mcp_sdk_python.Base.Equality.{str_eq}
use auditable_mcp_sdk_python.Base.Lists.{All}
use auditable_mcp_sdk_python.Base.Dict.{Dict, lookup, insert, erase, lookup-insert, lookup-erase}
use auditable_mcp_sdk_python.Models.{AttemptResponse, unavailable}
use auditable_mcp_sdk_python.Seam.Token.{round_token, claims_round}
use auditable_mcp_sdk_python.Seam.Frame.{
  RequestId, RequestId_eq, error, Frame, request, answer, Protocol, request_state,
  tools_call_method,
}
use auditable_mcp_sdk_python.Seam.State.{
  Round, ToolCall, Seam, settle, send_or_warn, send_frame, state_of,
}
use auditable_mcp_sdk_python.Seam.Round.{send_round}
use auditable_mcp_sdk_python.Seam.Run.{Action, run}
use auditable_mcp_sdk_python.Seam.Run.Kept.{
  settle_all-IsKept, release-IsKept, end_call-IsKept, keep_waiting-IsKept,
}
use auditable_mcp_sdk_python.Seam.Run.Steps.{IsFreshStep, retry_round-IsHeld, run-IsHeld}
use auditable_mcp_sdk_python.Json.{Fields, get}
use auditable_mcp_sdk_python.Seam.Arrival.{
  reply, take_retry, retry_round, take_call, inbound, no_open_round, params_of,
}
use auditable_mcp_sdk_python.Seam.Run.Guarantees.{settle-rounds}

module _ (token : Str) where
  abbrev IsClosed : Dict Str (ToolCall × Round) → Dict ℕ AttemptResponse → Type 0
  IsClosed rounds _ = lookup token rounds ≡ none

  erase-IsClosed :
      (k : Str) (rs : Dict Str (ToolCall × Round)) (d : Dict ℕ AttemptResponse)
      → IsClosed rs d
      → IsClosed (erase k rs) d
  erase-IsClosed k rs d h = ground (arith, lookup-erase token k rs)

  settle-IsClosed :
      (p : ℕ) (q : AttemptResponse) (s : Seam)
      → IsClosed s.rounds s.answers
      → IsClosed (settle p q s).rounds (settle p q s).answers
  settle-IsClosed p q s h = rw (settle-rounds p q s) h

  fail-IsClosed :
      (p : ℕ) (s : Seam)
      → IsClosed s.rounds s.answers
      → IsClosed (settle p unavailable s).rounds (settle p unavailable s).answers
  fail-IsClosed p = settle-IsClosed p unavailable

  -- The random part of no token is repeated.
  abbrev pub IsOther : Str → Type 0
  IsOther secret = (i : Str) → round_token i secret ≢ token

  send_round-rounds :
      (secret : Str) (c : ToolCall) (id : RequestId) (s : Seam)
      → (out : Round) × ((send_round secret c id s).rounds
          ≡ insert (round_token s.instance_name secret) (c, out) s.rounds)
  unfolding send_round send_or_warn send_frame
  send_round-rounds secret c id s = (
    record {
      token = round_token s.instance_name secret;
      awaiting = (state_of c s).buffered_awaiting;
    },
    ground arith,
  )

  send_round-IsClosed :
      (secret : Str) (c : ToolCall) (id : RequestId) (s : Seam)
      → IsOther secret
      → IsClosed s.rounds s.answers
      → IsClosed (send_round secret c id s).rounds (send_round secret c id s).answers
  send_round-IsClosed secret c id s other h =
      let (out, e) = send_round-rounds secret c id s in
      let t = round_token s.instance_name secret in
      rw e (
        ground (
          arith,
          lookup-insert token t (c, out) s.rounds,
          str_eq_iff token t,
          other s.instance_name,
        ))

  run-IsClosed :
      (p : Protocol) (xs : List Action) (s : Seam)
      → All (IsFreshStep IsOther) xs
      → IsClosed s.rounds s.answers
      → IsClosed (run p xs s).rounds (run p xs s).answers
  unfolding lookup
  run-IsClosed p xs s fresh h =
      run-IsHeld (λ _ _. IsClosed) IsOther (λ k t e. e) (λ k t e. e)
        (λ k t e. erase-IsClosed k t.rounds t.answers e) (λ t e. refl) send_round-IsClosed
        settle-IsClosed (settle_all-IsKept IsClosed fail-IsClosed erase-IsClosed)
        (release-IsKept IsClosed fail-IsClosed erase-IsClosed)
        (end_call-IsKept IsClosed fail-IsClosed erase-IsClosed)
        (keep_waiting-IsKept IsClosed fail-IsClosed erase-IsClosed) p xs s fresh h

  reply-rounds : (f : Frame) (s : Seam) → (reply f s).1.rounds ≡ s.rounds
  unfolding reply send_frame
  reply-rounds f s = ground arith

  round_taken :
      (p : Protocol) (entry : ToolCall × Round) (id : RequestId) (params : Option Fields)
      (t : Option ℕ) (s : Seam)
      → lookup token (retry_round p token entry.0 entry.1 id params t s).1.rounds ≡ none
  unfolding lookup
  round_taken p entry id params t s =
      retry_round-IsHeld (λ _ _. IsClosed) IsOther (λ k t' e'. e') (λ k t' e'. e')
        (λ k t' e'. erase-IsClosed k t'.rounds t'.answers e') (λ t' e'. refl) send_round-IsClosed
        settle-IsClosed (settle_all-IsKept IsClosed fail-IsClosed erase-IsClosed)
        (release-IsKept IsClosed fail-IsClosed erase-IsClosed)
        (end_call-IsKept IsClosed fail-IsClosed erase-IsClosed)
        (keep_waiting-IsKept IsClosed fail-IsClosed erase-IsClosed) p token entry.0 entry.1 id
        params t s (ground (arith, lookup-erase token token s.rounds, str_eq_iff token token))

  take_retry-IsClosed :
      (p : Protocol) (id : RequestId) (params : Option Fields) (t : Option ℕ) (s : Seam)
      → lookup token (take_retry p token id params t s).1.rounds ≡ none
  unfolding take_retry lookup
  take_retry-IsClosed p id params t s = elim (Option-cases (lookup token s.rounds)) [
    | inl e ↦ rw (take_retry, e, reply-rounds) e
    | inr (entry, e) ↦ rw (take_retry, e) (round_taken p entry id params t s)
  ]

  take_retry-refused :
      (p : Protocol) (id : RequestId) (params : Option Fields) (t : Option ℕ) (s : Seam)
      → lookup token s.rounds ≡ none
      → take_retry p token id params t s ≡ reply (answer id (error (no_open_round p))) s
  unfolding take_retry reply
  take_retry-refused p id params t s e = rw (take_retry, e)

inbound-call :
    (p : Protocol) (own : Str) (id : RequestId) (params : Option Fields) (t : Option ℕ) (s : Seam)
    → inbound p own (request id tools_call_method params) t s ≡ take_call p own id params t s
unfolding inbound str_eq
inbound-call p own id params t s = refl

inbound-retry :
    (p : Protocol) (own token : Str) (id : RequestId) (params : Option Fields) (t : Option ℕ)
    (s : Seam)
    → claims_round (get request_state (params_of params)) ≡ some token
    → inbound p own (request id tools_call_method params) t s ≡ take_retry p token id params t s
unfolding take_call
inbound-retry p own token id params t s e = rw (inbound-call, take_call, e)

-- A retry is acted on at most once. After a `tools/call` whose `requestState` is a token under the
-- reserved prefix, and after any steps that issue no round under that token again, another
-- `tools/call` with that token reaches no handler and changes nothing: it is answered with the error
-- that it names no open round, on a connection that still takes messages.
pub retry-at_most_once :
    (p : Protocol) (own own' token : Str) (id id' : RequestId) (params params' : Option Fields)
    (t t' : Option ℕ) (xs : List Action) (s : Seam)
    → claims_round (get request_state (params_of params)) ≡ some token
    → claims_round (get request_state (params_of params')) ≡ some token
    → All (IsFreshStep (IsOther token)) xs
    → let s' = run p xs (inbound p own (request id tools_call_method params) t s).1 in
      inbound p own' (request id' tools_call_method params') t' s'
      ≡ reply (answer id' (error (no_open_round p))) s'
retry-at_most_once p own own' token id id' params params' t t' xs s first second fresh =
    let s' = (inbound p own (request id tools_call_method params) t s).1 in
    let closed : lookup token s'.rounds ≡ none =
      rw (inbound-retry p own token id params t s first)
        (take_retry-IsClosed token p id params t s) in
    inbound-retry p own' token id' params' t' (run p xs s') second
    ∙ take_retry-refused token p id' params' t' (run p xs s')
        (run-IsClosed token p xs s' fresh closed)
