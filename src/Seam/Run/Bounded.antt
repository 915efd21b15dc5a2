-- ===== src/Seam/Run/Bounded.antt =====
-- The tables that wait for a retry stay within their bound: the operations on calls and rounds.
use auditable_mcp_sdk_python.Base.{
  ◌≡◌, refl, ℕ, zero, suc, ◌+◌, ◌≤◌, ◌<◌, Bool, true, false, [], ◌∷◌, Str, ℕ_eq, Str_eq,
  if◌then◌else◌, arith, Bool-cases, leb, ltb, inl, inr,
}
use auditable_mcp_sdk_python.Base.Equality.{Eq, beq_refl}
use auditable_mcp_sdk_python.Base.Lists.{length, All}
use auditable_mcp_sdk_python.Base.Dict.{Dict, insert, erase}
use auditable_mcp_sdk_python.Models.{AttemptResponse, unavailable}
use auditable_mcp_sdk_python.Seam.Frame.{RequestId, RequestId_eq, Body}
use auditable_mcp_sdk_python.Seam.State.{
  max_idle_sessions, AuditSession, ToolCall, Seam, state_of, settle, settle_all, send_frame,
  send_or_warn,
}
use auditable_mcp_sdk_python.Seam.Call.{
  on_first, forget_session, evict_idle, keep_idle, release_of, release, drop_one, drop_pending,
  mark_ended, close_round, settle_buffered, abandon, end_call, evict_waiting, set_final,
  keep_waiting, awaiting_of, without_round, leave, no_longer_live,
}
use auditable_mcp_sdk_python.Seam.Round.{send_round}

module _ {ℓ} {K V : Type ℓ} ⦃e : Eq K⦄ where
  length-erase : (k : K) (d : Dict K V) → length (erase k d) ≤ length d
  unfolding erase
  length-erase k [] = omega arith
  length-erase k ((j, v) ∷ d) = ground (arith, length-erase k d)

  length-erase_first : (k : K) (v : V) (d : Dict K V) → length (erase k ((k, v) ∷ d)) ≤ length d
  unfolding erase
  length-erase_first k v d = ground (arith, length-erase k d, beq_refl k)

  length-insert : (k : K) (v : V) (d : Dict K V) → length (insert k v d) ≤ length d + 1
  unfolding insert
  length-insert k v [] = omega arith
  length-insert k v ((j, w) ∷ d) = ground (arith, length-insert k v d)

-- An entry less, once the first key has gone.
length-erase_head :
    {K V : Type 0} ⦃e : Eq K⦄ (k : K) (v : V) (d d' : Dict K V)
    → d ≡ (k, v) ∷ d'
    → length (erase k d) + 1 ≤ length d
length-erase_head k v d d' p = rw p (omega (arith, length-erase_first k v d'))

-- Every concluded call that waits stands under its own id.
abbrev pub Keyed : Dict RequestId ToolCall → Type 0
Keyed d = All (λ (x : RequestId × ToolCall). x.1.original_id ≡ x.0) d

erase-Keyed : (k : RequestId) (d : Dict RequestId ToolCall) → Keyed d → Keyed (erase k d)
unfolding erase
erase-Keyed k [] h = h
erase-Keyed k ((j, c) ∷ d) h = elim (Bool-cases (RequestId_eq.beq k j)) [
  | inl e ↦ rw e (erase-Keyed k d h.1)
  | inr e ↦ rw e (h.0, erase-Keyed k d h.1)
]

insert-Keyed :
    (c : ToolCall) (d : Dict RequestId ToolCall) → Keyed d → Keyed (insert c.original_id c d)
unfolding insert
insert-Keyed c [] h = (refl, tt)
insert-Keyed c ((j, b) ∷ d) h = elim (Bool-cases (RequestId_eq.beq c.original_id j)) [
  | inl e ↦ rw e ((RequestId_eq.beq_iff c.original_id j).0 e, h.1)
  | inr e ↦ rw e (h.0, insert-Keyed c d h.1)
]

-- The idle sessions are within their bound, and the concluded calls within `n`.
pub record Within (n : ℕ) (idle : Dict Str AuditSession) (waiting : Dict RequestId ToolCall)
    : Type 0 where
  pub few_idle : length idle ≤ max_idle_sessions
  pub few_waiting : length waiting ≤ n
  pub keyed : Keyed waiting

abbrev pub IsBounded : ℕ → Seam → Type 0
IsBounded n s = Within n s.idle s.waiting

module _ (n : ℕ) where
  pub erase_idle-Within :
      {i : Dict Str AuditSession} {w : Dict RequestId ToolCall} (k : Str)
      → Within n i w
      → Within n (erase k i) w
  erase_idle-Within {i} k h = record {
    few_idle = omega (arith, length-erase k i, h.few_idle);
    few_waiting = h.few_waiting;
    keyed = h.keyed;
  }

  pub erase_waiting-Within :
      {i : Dict Str AuditSession} {w : Dict RequestId ToolCall} (k : RequestId)
      → Within n i w
      → Within n i (erase k w)
  erase_waiting-Within {w} k h = record {
    few_idle = h.few_idle;
    few_waiting = omega (arith, length-erase k w, h.few_waiting);
    keyed = erase-Keyed k w h.keyed;
  }

  -- A change of both that neither notices.
  pub if-IsBounded :
      (b : Bool) (s t : Seam) → IsBounded n s → IsBounded n t → IsBounded n (if b then s else t)
  if-IsBounded true s t h k = h
  if-IsBounded false s t h k = k

  pub settle-IsBounded :
      (p : ℕ) (q : AttemptResponse) (s : Seam) → IsBounded n s → IsBounded n (settle p q s)
  unfolding settle
  settle-IsBounded p q s h = ground arith

  pub settle_all-IsBounded :
      (q : AttemptResponse) (ps : Dict Str ℕ) (s : Seam)
      → IsBounded n s
      → IsBounded n (settle_all q ps s)
  unfolding settle_all
  settle_all-IsBounded q [] s h = h
  settle_all-IsBounded q ((_, p) ∷ ps) s h =
      settle_all-IsBounded q ps (settle p q s) (settle-IsBounded p q s h)

  pick-IsBounded :
      (b : Bool) (s t : Seam)
      → (b ≡ true → IsBounded n s)
      → (b ≡ false → IsBounded n t)
      → IsBounded n (if b then s else t)
  pick-IsBounded true s t h k = h refl
  pick-IsBounded false s t h k = k refl

  on_first-IsBounded :
      {K V : Type 0} (g : K → V → Seam) (s : Seam) (d : Dict K V)
      → 0 < length d
      → ((k : K) (v : V) (d' : Dict K V) → d ≡ (k, v) ∷ d' → IsBounded n (g k v))
      → IsBounded n (on_first g s d)
  unfolding on_first
  on_first-IsBounded g s [] some_left each = absurd (omega arith)
  on_first-IsBounded g s ((k, v) ∷ d) some_left each = each k v d refl

  -- The loop over the idle sessions brings them within the bound.
  evict_idle-IsBounded :
      (f : ℕ) (s : Seam)
      → length s.idle ≤ max_idle_sessions + f
      → length s.waiting ≤ n
      → Keyed s.waiting
      → IsBounded n (evict_idle f s)
  unfolding evict_idle
  evict_idle-IsBounded zero s i w k = record {
    few_idle = omega (arith, i);
    few_waiting = w;
    keyed = k;
  }
  evict_idle-IsBounded (suc f) s i w k =
      pick-IsBounded (leb (length s.idle) max_idle_sessions) s _
        (λ few. record { few_idle = ground arith; few_waiting = w; keyed = k })
        λ many. on_first-IsBounded _ s s.idle (ground arith) λ j v d p.
          evict_idle-IsBounded f (forget_session j s)
            (omega (arith, i, length-erase_head j v s.idle d p)) w k

  keep_idle-IsBounded : (a : AuditSession) (s : Seam) → IsBounded n s → IsBounded n (keep_idle a s)
  unfolding keep_idle
  keep_idle-IsBounded a s h =
      let idle' = insert a.session_id a (erase a.session_id s.idle) in
      evict_idle-IsBounded (length idle') (record s { idle = idle' }) (omega arith) h.few_waiting
        h.keyed

  release_of-IsBounded :
      (c : ToolCall) (a : AuditSession) (final : Bool) (s : Seam)
      → IsBounded n s
      → IsBounded n (release_of c a final s)
  unfolding release_of leave
  release_of-IsBounded c a final s h =
      if-IsBounded (ltb 0 (no_longer_live a s).live) (leave c a s) _ h (
        if-IsBounded final (forget_session a.session_id (leave c a s)) (keep_idle a (leave c a s))
          (erase_idle-Within a.session_id h) (keep_idle-IsBounded a (leave c a s) h))

  pub release-IsBounded :
      (c : ToolCall) (final : Bool) (s : Seam) → IsBounded n s → IsBounded n (release c final s)
  unfolding release
  release-IsBounded c final s h = grind (arith, release_of-IsBounded, if-IsBounded)

  drop_one-IsBounded :
      (c : ToolCall) (k : Str) (entry : ℕ × ToolCall) (s : Seam)
      → IsBounded n s
      → IsBounded n (drop_one c k entry s)
  unfolding drop_one
  drop_one-IsBounded c k entry s h =
      ground
        (arith, settle-IsBounded entry.0 unavailable (record s { pending = erase k s.pending }))

  drop_pending-IsBounded :
      (c : ToolCall) (ps : Dict Str (ℕ × ToolCall)) (s : Seam)
      → IsBounded n s
      → IsBounded n (drop_pending c ps s)
  unfolding drop_pending
  drop_pending-IsBounded c [] s h = h
  drop_pending-IsBounded c ((k, entry) ∷ ps) s h =
      drop_pending-IsBounded c ps (drop_one c k entry s) (drop_one-IsBounded c k entry s h)

  close_round-IsBounded : (c : ToolCall) (s : Seam) → IsBounded n s → IsBounded n (close_round c s)
  unfolding close_round
  close_round-IsBounded c s h =
      settle_all-IsBounded unavailable (awaiting_of (state_of c s).round)
        (record s { rounds = without_round (state_of c s).round s.rounds }) h

  settle_buffered-IsBounded :
      (c : ToolCall) (s : Seam) → IsBounded n s → IsBounded n (settle_buffered c s)
  unfolding settle_buffered
  settle_buffered-IsBounded c s h =
      settle_all-IsBounded unavailable (state_of c s).buffered_awaiting s h

  -- The call that ends has left the tables already, in `mark_ended`.
  end_marked-IsBounded :
      (c : ToolCall) (final : Bool) (s : Seam)
      → IsBounded n (mark_ended c s)
      → IsBounded n (end_call c final s)
  unfolding end_call abandon
  end_marked-IsBounded c final s h =
      let s' = drop_pending c s.pending (mark_ended c s) in
      release-IsBounded c final (settle_buffered c (close_round c s')) (
        settle_buffered-IsBounded c (close_round c s')
          (close_round-IsBounded c s' (drop_pending-IsBounded c s.pending (mark_ended c s) h)))

  pub end_call-IsBounded :
      (c : ToolCall) (final : Bool) (s : Seam) → IsBounded n s → IsBounded n (end_call c final s)
  unfolding mark_ended
  end_call-IsBounded c final s h =
      end_marked-IsBounded c final s (erase_waiting-Within c.original_id h)

-- The call at the head of the table takes its entry along.
mark_ended-IsBounded :
    (n : ℕ) (k : RequestId) (c : ToolCall) (d : Dict RequestId ToolCall) (s : Seam)
    → s.waiting ≡ (k, c) ∷ d
    → IsBounded (suc n) s
    → IsBounded n (mark_ended c s)
unfolding mark_ended
mark_ended-IsBounded n k c d s p h = record {
  few_idle = h.few_idle;
  few_waiting =
      let own : c.original_id ≡ k = (rw p at h.keyed).0 in
      rw own (omega (arith, length-erase_head k c s.waiting d p, h.few_waiting));
  keyed = erase-Keyed c.original_id s.waiting h.keyed;
}

widen-IsBounded : (m n : ℕ) (s : Seam) → m ≤ n → IsBounded m s → IsBounded n s
widen-IsBounded m n s le h = record {
  few_idle = h.few_idle;
  few_waiting = omega (arith, h.few_waiting);
  keyed = h.keyed;
}

-- The loop over the concluded calls brings them within the bound.
evict_waiting-IsBounded :
    (f : ℕ) (s : Seam)
    → IsBounded (max_idle_sessions + f) s
    → IsBounded max_idle_sessions (evict_waiting f s)
unfolding evict_waiting
evict_waiting-IsBounded zero s h = h
evict_waiting-IsBounded (suc f) s h =
    pick-IsBounded max_idle_sessions (leb (length s.waiting) max_idle_sessions) s _
      (λ few. record { few_idle = h.few_idle; few_waiting = ground arith; keyed = h.keyed })
      λ many. on_first-IsBounded max_idle_sessions _ s s.waiting (ground arith) λ k c d p.
        evict_waiting-IsBounded f (end_call c true s) (
          end_marked-IsBounded (max_idle_sessions + f) c true s (
            mark_ended-IsBounded (max_idle_sessions + f) k c d s p (
              widen-IsBounded (max_idle_sessions + suc f) (suc (max_idle_sessions + f)) s
                (omega arith) h)))

pub keep_waiting-IsBounded :
    (c : ToolCall) (body : Body) (s : Seam)
    → IsBounded max_idle_sessions s
    → IsBounded max_idle_sessions (keep_waiting c body s)
unfolding keep_waiting set_final
keep_waiting-IsBounded c body s h =
    let left = erase c.original_id s.waiting in
    evict_waiting-IsBounded (length (insert c.original_id c left)) (set_final c body s) (record {
      few_idle = h.few_idle;
      few_waiting = omega arith;
      keyed = insert-Keyed c left (erase-Keyed c.original_id s.waiting h.keyed);
    })

pub send_round-IsBounded :
    (secret : Str) (c : ToolCall) (id : RequestId) (s : Seam)
    → IsBounded max_idle_sessions s
    → IsBounded max_idle_sessions (send_round secret c id s)
unfolding send_round send_or_warn send_frame
send_round-IsBounded secret c id s h = ground arith
