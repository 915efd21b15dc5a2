-- ===== src/Tool/Audited.antt =====
-- session.py: an audited action, from the attempt to the code that it audits.
use auditable_mcp_sdk_python.Base.{
  ℕ, ◌+◌, ◌≡◌, refl, ap, ◌⊎◌, inl, inr, Bool, true, false, Option, none, some, if◌then◌else◌, arith,
}
use auditable_mcp_sdk_python.Json.{Fields}
use auditable_mcp_sdk_python.Reasons.{Reason}
use auditable_mcp_sdk_python.Models.{attempted, AcceptResponse, AttemptResponse, accepted}
use auditable_mcp_sdk_python.Tool.World.{
  Error, usage_error, aborted_error, value_error, other_error, cancellation, Ended, returned,
  failed, Call, Seams, Method, ◌>>=◌, after,
}
use auditable_mcp_sdk_python.Tool.Session.{AmcpSession, AuditedAction}
use auditable_mcp_sdk_python.Tool.Emission.{advance, numbering, build}
use auditable_mcp_sdk_python.Tool.Entry.{
  Sent, answered, caught, try_attempt, send, abort, judge, enter,
}
use auditable_mcp_sdk_python.Tool.Lifecycle.{finish, with_action}
use auditable_mcp_sdk_python.Tool.Clearance.{
  IsVouched, IsBound, Ground, CheckRaised, JudgementEnds, judge_lem,
}

-- The number that a section gives, and the one that the next section gives after it.
abbrev pub number_at : AmcpSession → ℕ → Option ℕ
number_at session n = if session.has_signer then some n else none

abbrev pub number_after : AmcpSession → ℕ → ℕ
number_after session n = if session.has_signer then n + 1 else n

-- What a section leaves, in terms of the number that it gave.
pub numbering_lem :
    {W A : Type 0} (session : AmcpSession) (body : Option ℕ → Call W A) (n : ℕ) (w : W)
    → let (r, w') = body (number_at session n) w in
      numbering session body n w ≡ (r, (if session.has_signer then advance n r else n), w')
unfolding numbering
numbering_lem {W} {A} session body n w = of session.has_signer
  where
    of :
        (b : Bool)
        → let (r, w') = body (if b then some n else none) w in
          let t : Ended A × ℕ × W =
            if b
            then (let (q, v) = body (some n) w in (q, advance n q, v))
            else let (q, v) = body none w in (q, n, v) in
          t ≡ (r, (if b then advance n r else n), w')
    of true = refl
    of false = refl

module _ {W : Type 0} (seams : Seams W) (session : AmcpSession) (a : AuditedAction) where
  -- The tool built this attempt and its sending ended so.
  abbrev pub IsSent : ℕ → W → Fields → Sent → W → Type 0
  IsSent n w attempt sent w' =
      (u : W) × (build seams session a attempted none (number_at session n) w
        ≡ (returned attempt, u))
      × (caught attempt (seams.send_attempt attempt u).0 ≡ returned (attempt, sent))
      × (w' ≡ (seams.send_attempt attempt u).1)

  abbrev pub SendEnds : ℕ → W → Ended (Fields × Sent) → ℕ → W → Type 0
  SendEnds n w (returned (attempt, sent)) n' w' =
      IsSent n w attempt sent w' × (n' ≡ number_after session n)
  SendEnds n w (failed e) n' w' = n' ≡ n

  unmoved : (n : ℕ) → (if session.has_signer then n else n) ≡ n
  unmoved n = ground arith

  tried :
      (n : ℕ) (w : W) (e : Fields) (u : W)
      → build seams session a attempted none (number_at session n) w ≡ (returned e, u)
      → (r : Ended AttemptResponse) → (seams.send_attempt e u).0 ≡ r
      → let t = caught e r in
        SendEnds n w t (if session.has_signer then advance n t else n) (seams.send_attempt e u).1
  tried n w e u b (returned r) q = ((u, b, ap (caught e) q, refl), refl)
  tried n w e u b (failed usage_error) q = unmoved n
  tried n w e u b (failed cancellation) q = unmoved n
  tried n w e u b (failed (aborted_error x y z)) q = ((u, b, ap (caught e) q, refl), refl)
  tried n w e u b (failed value_error) q = ((u, b, ap (caught e) q, refl), refl)
  tried n w e u b (failed other_error) q = ((u, b, ap (caught e) q, refl), refl)

  attempt_ends :
      (n : ℕ) (w : W) (b : Ended Fields) (u : W)
      → build seams session a attempted none (number_at session n) w ≡ (b, u)
      → let t : Ended (Fields × Sent) × W = elim b [
        | returned e ↦ try_attempt seams session a e u
        | failed e ↦ (failed e, u)
      ] in
        SendEnds n w t.0 (if session.has_signer then advance n t.0 else n) t.1
  unfolding try_attempt
  attempt_ends n w (returned e) u q = tried n w e u q (seams.send_attempt e u).0 refl
  attempt_ends n w (failed e) u q = unmoved n

  send_ends :
      (n : ℕ) (w : W) → let (res, n', w') = send seams session a n w in SendEnds n w res n' w'
  unfolding send
  send_ends n w =
      let body : Option ℕ → Call W (Fields × Sent) =
        λ number. build seams session a attempted none number >>= try_attempt seams session a in
      let b = build seams session a attempted none (number_at session n) w in
      rw (numbering_lem session body n w) (attempt_ends n w b.0 b.1 refl)

  -- The tool was cleared: the host accepted its attempt, the accept passed the checks, and nothing
  -- but them happened.
  abbrev pub IsCleared : ℕ → W → AcceptResponse → ℕ → W → Type 0
  IsCleared n w r n' w' =
      (attempt : Fields) × (u : W) × IsSent n w attempt (answered (accepted r)) u
      × IsVouched seams session r u w'
      × IsBound seams session attempt r
      × (n' ≡ number_after session n)

  -- Why `__aenter__` raised: the event could not be built or sent, an answer gave a ground to abort
  -- for, or a check raised.
  abbrev pub IsRefused : ℕ → W → Error → ℕ → W → Type 0
  IsRefused n w x n' w' =
      (send seams session a n w ≡ (failed x, n', w'))
      ⊎ ((attempt : Fields) × (sent : Sent) × (u : W) × IsSent n w attempt sent u
          × (((reason : Reason) × (v : W) × Ground seams session attempt sent u reason v
                × (abort seams session a reason (number_after session n) v ≡ (failed x, n', w')))
              ⊎ (CheckRaised seams session attempt sent x u w' × (n' ≡ number_after session n))))

  abbrev pub EntryEnds : ℕ → W → Ended AcceptResponse → ℕ → W → Type 0
  EntryEnds n w (returned r) n' w' = IsCleared n w r n' w'
  EntryEnds n w (failed x) n' w' = IsRefused n w x n' w'

  judged :
      (n : ℕ) (w : W) (e : Fields) (sent : Sent) (u : W)
      → IsSent n w e sent u
      → (res : Ended AcceptResponse) (n' : ℕ) (w' : W)
      → JudgementEnds seams session a e sent (number_after session n) u res n' w'
      → EntryEnds n w res n' w'
  judged n w e sent u i (returned r) n' w' (s, vouched, bound, m) =
      (e, u, rw (← s) i, vouched, bound, m)
  judged n w e sent u i (failed x) n' w' j = inr (e, sent, u, i, j)

  entered :
      (n : ℕ) (w : W) (res : Ended (Fields × Sent)) (n' : ℕ) (w' : W)
      → send seams session a n w ≡ (res, n', w')
      → SendEnds n w res n' w'
      → let t : Ended AcceptResponse × ℕ × W = elim res [
        | returned x ↦ judge seams session a x n' w'
        | failed e ↦ (failed e, n', w')
      ] in
        EntryEnds n w t.0 t.1 t.2
  entered n w (returned (e, sent)) n' w' q (i, m) =
      let t = judge seams session a (e, sent) (number_after session n) w' in
      rw m (
        judged n w e sent w' i t.0 t.1 t.2
          (judge_lem seams session a e sent (number_after session n) w'))
  entered n w (failed x) n' w' q m = inl q

  pub enter_lem :
      (n : ℕ) (w : W) → let (res, n', w') = enter seams session a n w in EntryEnds n w res n' w'
  unfolding enter
  enter_lem n w = let t = send seams session a n w in entered n w t.0 t.1 t.2 refl (send_ends n w)

  -- The code was reached with the accept of a cleared attempt and its outcome was emitted after it,
  -- or it made no difference to what happened.
  abbrev pub IsAudited : {A : Type 0} → (AcceptResponse → Method W A) → ℕ → W → Type 0
  IsAudited {A} body n w =
      ((r : AcceptResponse) × (n' : ℕ) × (w' : W) × IsCleared n w r n' w'
        × (with_action seams session a body n w ≡ finish seams session a (body r n' w')))
      ⊎ ((x : Error) × (n' : ℕ) × (w' : W) × IsRefused n w x n' w'
          × ((other : AcceptResponse → Method W A)
              → with_action seams session a other n w ≡ (failed x, n', w')))

  -- Around an action, for any transport, signer and verifier, one of two things holds. Either the tool
  -- built an attempt, the host accepted it, the accept's countersignature was there where the session
  -- requires one and verified where it has a verifier, the record hash was that of this attempt where
  -- Polluted Stop runs, and the code then ran on the accept and was followed by its outcome. Or
  -- `__aenter__` raised for a named cause, and what happened is the same for any other code: it did
  -- not run.
  pub with_action-IsAudited :
      {A : Type 0} (body : AcceptResponse → Method W A) (n : ℕ) (w : W) → IsAudited body n w
  unfolding with_action
  with_action-IsAudited {A} body n w =
      let t = enter seams session a n w in of t.0 t.1 t.2 refl (enter_lem n w)
    where
      of :
          (res : Ended AcceptResponse) (n' : ℕ) (w' : W)
          → enter seams session a n w ≡ (res, n', w')
          → EntryEnds n w res n' w'
          → IsAudited body n w
      of (returned r) n' w' q c =
          inl (r, n', w', c, ap (after (λ r. λ m. λ v. finish seams session a (body r m v))) q)
      of (failed x) n' w' q c = inr (
        x,
        n',
        w',
        c,
        λ other. ap (after (λ r. λ m. λ v. finish seams session a (other r m v))) q,
      )
