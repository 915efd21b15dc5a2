-- ===== src/Seam/Run/Kept.antt =====
-- What the end of calls, the release of sessions and the evictions keep: a property of the rounds out
-- and of the answers received that settling an attempt keeps and that closing a round keeps.
use auditable_mcp_sdk_python.Base.{
  ℕ, zero, suc, Bool, true, false, Option, none, some, [], ◌∷◌, Str, ℕ_eq, Str_eq, if◌then◌else◌,
  arith, leb,
}
use auditable_mcp_sdk_python.Base.Lists.{length}
use auditable_mcp_sdk_python.Base.Dict.{Dict, erase}
use auditable_mcp_sdk_python.Models.{AttemptResponse, unavailable}
use auditable_mcp_sdk_python.Seam.Frame.{RequestId_eq, Body}
use auditable_mcp_sdk_python.Seam.State.{
  max_idle_sessions, Round, ToolCall, Seam, state_of, settle, settle_all,
}
use auditable_mcp_sdk_python.Seam.Call.{
  leave, on_first, forget_session, drop_one, mark_ended, close_round, settle_buffered, set_final,
  awaiting_of, without_round, evict_idle, keep_idle, release_of, release, drop_pending, abandon,
  end_call, evict_waiting, keep_waiting,
}

module _ (Kept : Dict Str (ToolCall × Round) → Dict ℕ AttemptResponse → Type 0)
    (settle-IsKept : (p : ℕ) (s : Seam)
      → Kept s.rounds s.answers
      → Kept (settle p unavailable s).rounds (settle p unavailable s).answers)
    (erase-IsKept : (k : Str) (rs : Dict Str (ToolCall × Round)) (d : Dict ℕ AttemptResponse)
      → Kept rs d
      → Kept (erase k rs) d) where
  abbrev pub IsKept : Seam → Type 0
  IsKept s = Kept s.rounds s.answers

  pub settle_all-IsKept :
      (ps : Dict Str ℕ) (s : Seam) → IsKept s → IsKept (settle_all unavailable ps s)
  unfolding settle_all
  settle_all-IsKept [] s h = h
  settle_all-IsKept ((_, p) ∷ ps) s h =
      settle_all-IsKept ps (settle p unavailable s) (settle-IsKept p s h)

  pub if-IsKept : (b : Bool) (s t : Seam) → IsKept s → IsKept t → IsKept (if b then s else t)
  if-IsKept true s t h k = h
  if-IsKept false s t h k = k

  pub on_first-IsKept {ℓ} :
      {K V : Type ℓ} (g : K → V → Seam) (s : Seam) (d : Dict K V)
      → ((k : K) (v : V) → IsKept (g k v))
      → IsKept s
      → IsKept (on_first g s d)
  unfolding on_first
  on_first-IsKept g s [] hg h = h
  on_first-IsKept g s ((k, v) ∷ d) hg h = hg k v

  pub evict_idle-IsKept : (f : ℕ) (s : Seam) → IsKept s → IsKept (evict_idle f s)
  unfolding evict_idle
  evict_idle-IsKept zero s h = h
  evict_idle-IsKept (suc f) s h =
      if-IsKept (leb (length s.idle) max_idle_sessions) s _ h
        (on_first-IsKept _ s s.idle (λ k _. evict_idle-IsKept f (forget_session k s) h) h)

  pub release-IsKept :
      (c : ToolCall) (final : Bool) (s : Seam) → IsKept s → IsKept (release c final s)
  unfolding release release_of keep_idle leave
  release-IsKept c final s h = grind (arith, evict_idle-IsKept)

  pub drop_one-IsKept :
      (c : ToolCall) (k : Str) (entry : ℕ × ToolCall) (s : Seam)
      → IsKept s
      → IsKept (drop_one c k entry s)
  unfolding drop_one
  drop_one-IsKept c k entry s h =
      ground (arith, settle-IsKept entry.0 (record s { pending = erase k s.pending }))

  pub drop_pending-IsKept :
      (c : ToolCall) (ps : Dict Str (ℕ × ToolCall)) (s : Seam)
      → IsKept s
      → IsKept (drop_pending c ps s)
  unfolding drop_pending
  drop_pending-IsKept c [] s h = h
  drop_pending-IsKept c ((k, entry) ∷ ps) s h =
      drop_pending-IsKept c ps (drop_one c k entry s) (drop_one-IsKept c k entry s h)

  without_round-IsKept :
      (o : Option Round) (rs : Dict Str (ToolCall × Round)) (d : Dict ℕ AttemptResponse)
      → Kept rs d
      → Kept (without_round o rs) d
  without_round-IsKept none rs d h = h
  without_round-IsKept (some r) rs d h = erase-IsKept r.token rs d h

  pub close_round-IsKept : (c : ToolCall) (s : Seam) → IsKept s → IsKept (close_round c s)
  unfolding close_round
  close_round-IsKept c s h =
      settle_all-IsKept (awaiting_of (state_of c s).round)
        (record s { rounds = without_round (state_of c s).round s.rounds })
        (without_round-IsKept (state_of c s).round s.rounds s.answers h)

  pub settle_buffered-IsKept : (c : ToolCall) (s : Seam) → IsKept s → IsKept (settle_buffered c s)
  unfolding settle_buffered
  settle_buffered-IsKept c s h = settle_all-IsKept (state_of c s).buffered_awaiting s h

  pub abandon-IsKept : (c : ToolCall) (s : Seam) → IsKept s → IsKept (abandon c s)
  unfolding abandon mark_ended
  abandon-IsKept c s h =
      let s' = drop_pending c s.pending (mark_ended c s) in
      settle_buffered-IsKept c (close_round c s')
        (close_round-IsKept c s' (drop_pending-IsKept c s.pending (mark_ended c s) h))

  pub end_call-IsKept :
      (c : ToolCall) (final : Bool) (s : Seam) → IsKept s → IsKept (end_call c final s)
  unfolding end_call
  end_call-IsKept c final s h = release-IsKept c final (abandon c s) (abandon-IsKept c s h)

  pub evict_waiting-IsKept : (f : ℕ) (s : Seam) → IsKept s → IsKept (evict_waiting f s)
  unfolding evict_waiting
  evict_waiting-IsKept zero s h = h
  evict_waiting-IsKept (suc f) s h = if-IsKept (leb (length s.waiting) max_idle_sessions) s _ h (
      on_first-IsKept _ s s.waiting
        (λ _ c. evict_waiting-IsKept f (end_call c true s) (end_call-IsKept c true s h)) h)

  pub keep_waiting-IsKept :
      (c : ToolCall) (body : Body) (s : Seam) → IsKept s → IsKept (keep_waiting c body s)
  unfolding keep_waiting set_final
  keep_waiting-IsKept c body s h =
      evict_waiting-IsKept (length (set_final c body s).waiting) (set_final c body s) h
