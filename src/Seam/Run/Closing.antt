-- ===== src/Seam/Run/Closing.antt =====
-- The end of the connection fails every attempt closed that still waits on it.
use auditable_mcp_sdk_python.Base.{
  ◌≡◌, ◌⊎◌, ℕ, true, none, some, List, [], ◌∷◌, ◌++◌, Str, ℕ_eq, Str_eq, nat_eq_iff, arith, inl,
  inr,
}
use auditable_mcp_sdk_python.Base.Lists.{Any}
use auditable_mcp_sdk_python.Base.Dict.{Dict, lookup, erase, lookup-insert}
use auditable_mcp_sdk_python.Models.{AttemptResponse, unavailable}
use auditable_mcp_sdk_python.Seam.Frame.{RequestId_eq}
use auditable_mcp_sdk_python.Seam.State.{
  Round, ToolCall, Seam, state_of, set_call, settle, settle_all,
}
use auditable_mcp_sdk_python.Seam.Call.{end_call}
use auditable_mcp_sdk_python.Seam.Arrival.{values}
use auditable_mcp_sdk_python.Seam.Answer.{
  settle_pending, end_calls, end_rounds, close_pending, close_calls, close_rounds, clear_tables,
  on_close,
}
use auditable_mcp_sdk_python.Seam.Run.Kept.{settle_all-IsKept, end_call-IsKept}

module _ (Kept : Dict Str (ToolCall × Round) → Dict ℕ AttemptResponse → Type 0)
    (settle-IsKept : (p : ℕ) (s : Seam)
      → Kept s.rounds s.answers
      → Kept (settle p unavailable s).rounds (settle p unavailable s).answers)
    (erase-IsKept : (k : Str) (rs : Dict Str (ToolCall × Round)) (d : Dict ℕ AttemptResponse)
      → Kept rs d
      → Kept (erase k rs) d)
    (clear-IsKept : (rs : Dict Str (ToolCall × Round)) (d : Dict ℕ AttemptResponse)
      → Kept rs d
      → Kept [] d) where
  abbrev IsKept : Seam → Type 0
  IsKept s = Kept s.rounds s.answers

  pub settle_pending-IsKept :
      (ps : Dict Str (ℕ × ToolCall)) (s : Seam) → IsKept s → IsKept (settle_pending ps s)
  unfolding settle_pending
  settle_pending-IsKept [] s h = h
  settle_pending-IsKept ((k, (p, c)) ∷ ps) s h =
      settle_pending-IsKept ps (settle p unavailable s) (settle-IsKept p s h)

  pub end_calls-IsKept : (cs : List ToolCall) (s : Seam) → IsKept s → IsKept (end_calls cs s)
  unfolding end_calls
  end_calls-IsKept [] s h = h
  end_calls-IsKept (c ∷ cs) s h =
      end_calls-IsKept cs (end_call c true s)
        (end_call-IsKept Kept settle-IsKept erase-IsKept c true s h)

  end_rounds-IsKept :
      (rs : Dict Str (ToolCall × Round)) (s : Seam) → IsKept s → IsKept (end_rounds rs s)
  unfolding end_rounds
  end_rounds-IsKept [] s h = h
  end_rounds-IsKept ((k, (c, out)) ∷ rs) s h =
      let s' = settle_all unavailable out.awaiting s in
      end_rounds-IsKept rs (set_call c (record (state_of c s') { ended = true }) s')
        (settle_all-IsKept Kept settle-IsKept erase-IsKept out.awaiting s h)

  -- What is left to do once the calls have ended.
  pub rest-IsKept : (s : Seam) → IsKept s → IsKept (clear_tables (close_rounds s))
  unfolding clear_tables close_rounds
  rest-IsKept s h =
      clear-IsKept (close_rounds s).rounds (close_rounds s).answers (end_rounds-IsKept s.rounds s h)

  on_close-IsKept : (s : Seam) → IsKept s → IsKept (on_close s)
  unfolding on_close close_calls close_pending
  on_close-IsKept s h =
      let s' = close_pending s in
      rest-IsKept (close_calls s') (
        end_calls-IsKept (values s'.calls ++ values s'.waiting) s'
          (settle_pending-IsKept s.pending s h))

module _ (a : ℕ) where
  abbrev pub IsFailed : Dict Str (ToolCall × Round) → Dict ℕ AttemptResponse → Type 0
  IsFailed _ d = lookup a d ≡ some unavailable

  abbrev pub IsUndecided : Dict Str (ToolCall × Round) → Dict ℕ AttemptResponse → Type 0
  IsUndecided _ d = (lookup a d ≡ none) ⊎ (lookup a d ≡ some unavailable)

  pub settle-IsFailed :
      (p : ℕ) (s : Seam)
      → IsFailed s.rounds s.answers
      → IsFailed (settle p unavailable s).rounds (settle p unavailable s).answers
  unfolding settle
  settle-IsFailed p s h = ground (arith, lookup-insert a p unavailable s.answers, nat_eq_iff a p)

  pub settle-IsUndecided :
      (p : ℕ) (s : Seam)
      → IsUndecided s.rounds s.answers
      → IsUndecided (settle p unavailable s).rounds (settle p unavailable s).answers
  unfolding settle
  settle-IsUndecided p s h = ground (arith, lookup-insert a p unavailable s.answers, nat_eq_iff a p)

  -- An undecided attempt that is settled has failed.
  settle_self :
      (s : Seam)
      → IsUndecided s.rounds s.answers
      → IsFailed s.rounds (settle a unavailable s).answers
  unfolding settle
  settle_self s h = ground (arith, lookup-insert a a unavailable s.answers, nat_eq_iff a a)

  abbrev pub Awaits : Dict Str ℕ → Type 0
  Awaits ps = Any (λ (x : Str × ℕ). x.1 ≡ a) ps

  pub settle_all-fails :
      (ps : Dict Str ℕ) (s : Seam)
      → Awaits ps
      → IsUndecided s.rounds s.answers
      → IsFailed s.rounds (settle_all unavailable ps s).answers
  unfolding settle_all
  settle_all-fails [] s w h = elim w [ ]
  settle_all-fails ((k, p) ∷ ps) s (inl e) h =
      settle_all-IsKept IsFailed settle-IsFailed (λ _ _ _ e'. e') ps (settle p unavailable s)
        (rw e (settle_self s h))
  settle_all-fails ((k, p) ∷ ps) s (inr w) h =
      settle_all-fails ps (settle p unavailable s) w (settle-IsUndecided p s h)

  pub settle_pending-fails :
      (ps : Dict Str (ℕ × ToolCall)) (s : Seam)
      → Any (λ (x : Str × (ℕ × ToolCall)). x.1.0 ≡ a) ps
      → IsUndecided s.rounds s.answers
      → IsFailed s.rounds (settle_pending ps s).answers
  unfolding settle_pending
  settle_pending-fails [] s w h = elim w [ ]
  settle_pending-fails ((k, (p, c)) ∷ ps) s (inl e) h =
      settle_pending-IsKept IsFailed settle-IsFailed (λ _ _ _ e'. e') (λ _ _ e'. e') ps
        (settle p unavailable s) (rw e (settle_self s h))
  settle_pending-fails ((k, (p, c)) ∷ ps) s (inr w) h =
      settle_pending-fails ps (settle p unavailable s) w (settle-IsUndecided p s h)
