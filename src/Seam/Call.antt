-- ===== src/Seam/Call.antt =====
-- mcp/seam.py: how a call ends, and how an audit session is released, kept idle and evicted.
use auditable_mcp_sdk_python.Base.{
  ℕ, zero, suc, ◌-◌, Bool, true, Option, none, some, [], ◌∷◌, leb, ltb, nat_eq, Str, Str_eq, ℕ_eq,
  if◌then◌else◌,
}
use auditable_mcp_sdk_python.Base.Lists.{length}
use auditable_mcp_sdk_python.Base.Dict.{Dict, insert, erase}
use auditable_mcp_sdk_python.Models.{unavailable}
use auditable_mcp_sdk_python.Seam.Frame.{RequestId, RequestId_eq, Body}
use auditable_mcp_sdk_python.Seam.State.{
  max_idle_sessions, AuditSession, AuditState, Round, ToolCall, Seam, state_of, set_call, set_audit,
  settle, settle_all,
}

-- What is done with the first entry of a table, if it has one.
unfoldable pub on_first {ℓ} : {K V : Type ℓ} → (K → V → Seam) → Seam → Dict K V → Seam
on_first g s [] = s
on_first g s ((k, v) ∷ d) = g k v

abbrev pub forget_session : Str → Seam → Seam
forget_session k s = record s { idle = erase k s.idle; sessions = erase k s.sessions }

-- The loop of `_keep_idle`. Each round takes one entry out, so the fuel is their number.
unfoldable pub evict_idle : ℕ → Seam → Seam
unfolding on_first
evict_idle zero s = s
evict_idle (suc f) s =
    let rest =
      on_first (λ (k : Str) (_ : AuditSession). evict_idle f (forget_session k s)) s s.idle in
    if leb (length s.idle) max_idle_sessions then s else rest

-- `_keep_idle`: `d.pop(k); d[k] = v` moves the entry to the end
unfoldable pub keep_idle : AuditSession → Seam → Seam
unfolding evict_idle
keep_idle a s =
    let idle' = insert a.session_id a (erase a.session_id s.idle) in
    evict_idle (length idle') (record s { idle = idle' })

abbrev pub no_longer_live : AuditSession → Seam → AuditState
no_longer_live a s = record (s.audit_states a.ref) { live = (s.audit_states a.ref).live - 1 }

-- The request counts toward its session no longer.
unfoldable pub leave : ToolCall → AuditSession → Seam → Seam
leave c a s =
    set_audit a (no_longer_live a s) (set_call c (record (state_of c s) { released = true }) s)

-- `_release`, once it is known that the call has a session and has not been released
unfoldable pub release_of : ToolCall → AuditSession → Bool → Seam → Seam
unfolding keep_idle leave
release_of c a final s =
    let s' = leave c a s in
    if ltb 0 (no_longer_live a s).live
    then s'
    else if final
    then forget_session a.session_id s'
    else keep_idle a s'

-- `_release`
unfoldable pub release : ToolCall → Bool → Seam → Seam
unfolding release_of
release c final s = elim c.audit [
  | none ↦ s
  | some a ↦ if (state_of c s).released then s else release_of c a final s
]

-- One entry of `_pending`: where the call owns it, it goes, and its attempt is settled.
unfoldable pub drop_one : ToolCall → Str → ℕ × ToolCall → Seam → Seam
unfolding settle
drop_one c k entry s =
    if nat_eq entry.1.ref c.ref
    then settle entry.0 unavailable (record s { pending = erase k s.pending })
    else s

unfoldable pub drop_pending : ToolCall → Dict Str (ℕ × ToolCall) → Seam → Seam
unfolding drop_one
drop_pending c [] s = s
drop_pending c ((k, entry) ∷ rest) s = drop_pending c rest (drop_one c k entry s)

abbrev pub awaiting_of : Option Round → Dict Str ℕ
awaiting_of none = []
awaiting_of (some r) = r.awaiting

abbrev pub without_round : Option Round → Dict Str (ToolCall × Round) → Dict Str (ToolCall × Round)
without_round none rounds = rounds
without_round (some r) rounds = erase r.token rounds

-- The parts of `_end_call` before the release: the call leaves the tables, its §6.5 attempts are
-- settled, then those of its round, which closes, and those of no round yet.
unfoldable pub mark_ended : ToolCall → Seam → Seam
mark_ended c s =
    record (set_call c (record (state_of c s) { finished = true; ended = true; final = none }) s) {
      calls = erase c.original_id s.calls;
      waiting = erase c.original_id s.waiting;
    }

unfoldable pub close_round : ToolCall → Seam → Seam
unfolding settle_all
close_round c s =
    settle_all unavailable (awaiting_of (state_of c s).round)
      (record s { rounds = without_round (state_of c s).round s.rounds })

unfoldable pub settle_buffered : ToolCall → Seam → Seam
unfolding settle_all
settle_buffered c s =
    let s' = settle_all unavailable (state_of c s).buffered_awaiting s in
    set_call c (record (state_of c s') { buffered_awaiting = [] }) s'

unfoldable pub abandon : ToolCall → Seam → Seam
unfolding drop_pending mark_ended close_round settle_buffered
abandon c s = settle_buffered c (close_round c (drop_pending c s.pending (mark_ended c s)))

-- `_end_call`
unfoldable pub end_call : ToolCall → Bool → Seam → Seam
unfolding abandon release
end_call c final s = release c final (abandon c s)

-- The loop of `_keep_waiting`. Each round takes an entry out where the entries stand under their
-- calls' ids, which they do, so the fuel is their number.
unfoldable pub evict_waiting : ℕ → Seam → Seam
unfolding end_call on_first
evict_waiting zero s = s
evict_waiting (suc f) s =
    let rest =
      on_first (λ (_ : RequestId) (c : ToolCall). evict_waiting f (end_call c true s)) s
        s.waiting in
    if leb (length s.waiting) max_idle_sessions then s else rest

-- `_keep_waiting`, up to its loop
unfoldable pub set_final : ToolCall → Body → Seam → Seam
set_final c body s = record (set_call c (record (state_of c s) { final = some body }) s) {
  waiting = insert c.original_id c (erase c.original_id s.waiting);
}

-- `_keep_waiting`
unfoldable pub keep_waiting : ToolCall → Body → Seam → Seam
unfolding evict_waiting set_final
keep_waiting c body s = let s' = set_final c body s in evict_waiting (length s'.waiting) s'

-- `_conclude_waiting`
unfoldable pub conclude_waiting : ToolCall → Seam → Seam
conclude_waiting c s =
    record (set_call c (record (state_of c s) { ended = true; final = none }) s) {
      waiting = erase c.original_id s.waiting;
    }
