-- ===== src/Tool/Clearance.antt =====
-- session.py: what stands behind the end of `__aenter__`, whether it clears the action or aborts.
use auditable_mcp_sdk_python.Base.{
  ℕ, ◌≡◌, ◌≢◌, refl, ◌⊎◌, inl, inr, true, false, ◌&&◌, Option, none, some, Str, str_eq, str_eq_iff,
  is_none, Bool-cases, arith, if_true, if_false,
}
use auditable_mcp_sdk_python.Json.{Fields}
use auditable_mcp_sdk_python.Hashing.{compute_record_hash}
use auditable_mcp_sdk_python.Reasons.{
  Reason, hash_mismatch, host_rejected, host_unavailable, host_uncountersigned,
  host_signature_invalid,
}
use auditable_mcp_sdk_python.Models.{AcceptResponse, accepted, rejected, unavailable}
use auditable_mcp_sdk_python.Tool.World.{
  Error, aborted_error, value_error, Ended, returned, failed, Verdict, verified, unverified,
  cannot_check, Call, Seams,
}
use auditable_mcp_sdk_python.Tool.Session.{AmcpSession, AuditedAction}
use auditable_mcp_sdk_python.Tool.Emission.{emit_aborted_best_effort}
use auditable_mcp_sdk_python.Tool.Entry.{
  Sent, answered, faulted, abort, compare_hash, check_hash, act_on, verify_countersignature,
  check_signature, check_accept, judge,
}

module _ {W : Type 0} (seams : Seams W) (session : AmcpSession) where
  -- The verifier gave this verdict on the accept's countersignature.
  abbrev pub IsJudged : AcceptResponse → Str → Verdict → W → W → Type 0
  IsJudged r signature verdict w w' =
      verify_countersignature seams r signature r.host_key_id r.log_id w ≡ (returned verdict, w')

  -- The countersignature is there where it is required, and verified where it can be.
  abbrev pub IsVouched : AcceptResponse → W → W → Type 0
  IsVouched r w w' =
      ((session.require_countersign ≡ false) × (r.host_signature ≡ none) × (w' ≡ w))
      ⊎ ((signature : Str) × (r.host_signature ≡ some signature)
          × ((session.has_verifier ≡ false) × (w' ≡ w)
              ⊎ (session.has_verifier ≡ true) × IsJudged r signature verified w w'))

  -- The record hash is the hash of the tool's own attempt, where Polluted Stop runs.
  abbrev pub IsBound : Fields → AcceptResponse → Type 0
  IsBound attempt r =
      (session.polluted_stop ≡ false)
      ⊎ (compute_record_hash seams.jcs attempt r.seq r.host_ts r.previous_hash ≡ some r.record_hash)

  -- Why an answer is no clearance: the reason, and the world that the checks left.
  pub data Ground : Fields → Sent → W → Reason → W → Type 0 where
    by_fault : {e : Fields} {w : W} → Ground e faulted w host_unavailable w
    by_rejection :
        {e : Fields} {w : W} (x : Reason) → Ground e (answered (rejected x)) w host_rejected w
    by_unavailability : {e : Fields} {w : W} → Ground e (answered unavailable) w host_unavailable w
    by_absence :
        {e : Fields} {w : W} {r : AcceptResponse}
        → session.require_countersign ≡ true
        → r.host_signature ≡ none
        → Ground e (answered (accepted r)) w host_uncountersigned w
    by_silence :
        {e : Fields} {w w' : W} {r : AcceptResponse} (signature : Str)
        → r.host_signature ≡ some signature
        → session.has_verifier ≡ true
        → IsJudged r signature cannot_check w w'
        → Ground e (answered (accepted r)) w host_unavailable w'
    by_signature :
        {e : Fields} {w w' : W} {r : AcceptResponse} (signature : Str)
        → r.host_signature ≡ some signature
        → session.has_verifier ≡ true
        → IsJudged r signature unverified w w'
        → Ground e (answered (accepted r)) w host_signature_invalid w'
    by_hash :
        {e : Fields} {w w' : W} {r : AcceptResponse} (hash : Str)
        → IsVouched r w w'
        → session.polluted_stop ≡ true
        → compute_record_hash seams.jcs e r.seq r.host_ts r.previous_hash ≡ some hash
        → hash ≢ r.record_hash
        → Ground e (answered (accepted r)) w hash_mismatch w'

  -- A check of an accept raised: the verifier did, or a canonical form.
  abbrev pub CheckRaised : Fields → Sent → Error → W → W → Type 0
  CheckRaised e (answered (accepted r)) x w w' =
      ((signature : Str) × (verify_countersignature seams r signature r.host_key_id r.log_id w
          ≡ (failed x, w')))
      ⊎ (IsVouched r w w'
          × (compute_record_hash seams.jcs e r.seq r.host_ts r.previous_hash ≡ none)
          × (x ≡ value_error))
  CheckRaised e _ x w w' = ⊥

module _ {W : Type 0} (seams : Seams W) (session : AmcpSession) (a : AuditedAction) where
  -- How the judgement of a sent attempt ends.
  abbrev pub JudgementEnds : Fields → Sent → ℕ → W → Ended AcceptResponse → ℕ → W → Type 0
  JudgementEnds e sent n w (returned r) n' w' =
      (sent ≡ answered (accepted r))
      × IsVouched seams session r w w'
      × IsBound seams session e r
      × (n' ≡ n)
  JudgementEnds e sent n w (failed x) n' w' =
      ((reason : Reason) × (v : W) × Ground seams session e sent w reason v
        × (abort seams session a reason n v ≡ (failed x, n', w')))
      ⊎ (CheckRaised seams session e sent x w w' × (n' ≡ n))

  abbrev AcceptEnds : Fields → AcceptResponse → ℕ → W → Ended AcceptResponse × ℕ × W → Type 0
  AcceptEnds e r n w (res, n', w') = JudgementEnds e (answered (accepted r)) n w res n' w'

  -- An abort never returns.
  abort_failed :
      (reason : Reason) (n : ℕ) (w : W)
      → (x : Error) × (abort seams session a reason n w ≡ (
        failed x,
        (emit_aborted_best_effort seams session a reason n w).1,
        (emit_aborted_best_effort seams session a reason n w).2,
      ))
  unfolding abort
  abort_failed reason n w =
      ends (emit_aborted_best_effort seams session a reason n w).0
        (emit_aborted_best_effort seams session a reason n w).1
        (emit_aborted_best_effort seams session a reason n w).2
    where
      ends :
          (res : Ended (Unit {0})) (n' : ℕ) (w' : W)
          → (x : Error) × (let t : Ended AcceptResponse × ℕ × W = elim res [
            | returned u ↦ (failed (aborted_error a.action_type a.target.ref reason), n', w')
            | failed y ↦ (failed y, n', w')
          ] in
              t ≡ (failed x, n', w'))
      ends (returned u) n' w' = (aborted_error a.action_type a.target.ref reason, refl)
      ends (failed y) n' w' = (y, refl)

  grounded :
      (e : Fields) (sent : Sent) (n : ℕ) (w : W) (reason : Reason) (v : W)
      → Ground seams session e sent w reason v
      → let (res, n', w') = abort seams session a reason n v in JudgementEnds e sent n w res n' w'
  grounded e sent n w reason v g =
      let (x, q) = abort_failed reason n v in rw q (inl (reason, v, g, q))

  compare_hash_ends :
      (e : Fields) (r : AcceptResponse) (n : ℕ) (v w : W) (hash : Option Str)
      → compute_record_hash seams.jcs e r.seq r.host_ts r.previous_hash ≡ hash
      → session.polluted_stop ≡ true
      → IsVouched seams session r v w
      → let (res, n', w') = compare_hash seams session a r hash n w in
        JudgementEnds e (answered (accepted r)) n v res n' w'
  unfolding compare_hash
  compare_hash_ends e r n v w none x on p = inr (inr (p, x, refl), refl)
  compare_hash_ends e r n v w (some hash) x on p = elim (Bool-cases (str_eq hash r.record_hash)) [
    | inl same ↦ rw same (refl, p, inr (rw (← (str_eq_iff hash r.record_hash).0 same) x), refl)
    | inr differs ↦ rw differs (
        grounded e (answered (accepted r)) n v hash_mismatch w
          (by_hash hash p on x (λ q. differs_not hash r.record_hash differs q)))
  ]
    where
      differs_not : (s t : Str) → str_eq s t ≡ false → s ≢ t
      differs_not s t d q = ground (arith, str_eq_iff s t)

  check_hash_ends :
      (e : Fields) (r : AcceptResponse) (n : ℕ) (v w : W)
      → IsVouched seams session r v w
      → let (res, n', w') = check_hash seams session a e r n w in
        JudgementEnds e (answered (accepted r)) n v res n' w'
  unfolding check_hash
  check_hash_ends e r n v w p = elim (Bool-cases session.polluted_stop) [
    | inr off ↦ rw (off_eq off) (refl, p, inl off, refl)
    | inl on ↦ rw (on_eq on) (
        compare_hash_ends e r n v w
          (compute_record_hash seams.jcs e r.seq r.host_ts r.previous_hash) refl on p)
  ]
    where
      on_eq :
          session.polluted_stop ≡ true
          → check_hash seams session a e r n w
            ≡ compare_hash seams session a r
                (compute_record_hash seams.jcs e r.seq r.host_ts r.previous_hash)
                n
                w
      on_eq on = if_true _ _ on

      off_eq :
          session.polluted_stop ≡ false → check_hash seams session a e r n w ≡ (returned r, n, w)
      off_eq off = if_false _ _ off

  act_on_ends :
      (e : Fields) (r : AcceptResponse) (n : ℕ) (v w : W) (signature : Str)
      → r.host_signature ≡ some signature
      → session.has_verifier ≡ true
      → (verdict : Verdict) → IsJudged seams session r signature verdict v w
      → let (res, n', w') = act_on seams session a e r verdict n w in
        JudgementEnds e (answered (accepted r)) n v res n' w'
  unfolding act_on
  act_on_ends e r n v w signature s h verified j =
      check_hash_ends e r n v w (inr (signature, s, inr (h, j)))
  act_on_ends e r n v w signature s h unverified j =
      grounded e (answered (accepted r)) n v host_signature_invalid w (by_signature signature s h j)
  act_on_ends e r n v w signature s h cannot_check j =
      grounded e (answered (accepted r)) n v host_unavailable w (by_silence signature s h j)

  judged_ends :
      (e : Fields) (r : AcceptResponse) (n : ℕ) (v w : W) (signature : Str)
      → r.host_signature ≡ some signature
      → session.has_verifier ≡ true
      → (verdict : Ended Verdict)
      → verify_countersignature seams r signature r.host_key_id r.log_id v ≡ (verdict, w)
      → let t : Ended AcceptResponse × ℕ × W = elim verdict [
        | returned j ↦ act_on seams session a e r j n w
        | failed x ↦ (failed x, n, w)
      ] in
        let (res, n', w') = t in JudgementEnds e (answered (accepted r)) n v res n' w'
  judged_ends e r n v w signature s h (returned j) q = act_on_ends e r n v w signature s h j q
  judged_ends e r n v w signature s h (failed x) q = inr (inl (signature, q), refl)

  check_signature_ends :
      (e : Fields) (r : AcceptResponse) (n : ℕ) (w : W) (signature : Option Str)
      → r.host_signature ≡ signature
      → session.require_countersign && is_none signature ≡ false
      → let (res, n', w') = check_signature seams session a e r signature n w in
        JudgementEnds e (answered (accepted r)) n w res n' w'
  unfolding check_signature
  check_signature_ends e r n w none s q = check_hash_ends e r n w w (inl (ground arith, s, refl))
  check_signature_ends e r n w (some signature) s q = elim (Bool-cases session.has_verifier) [
    | inr off ↦ rw (off_eq off) (check_hash_ends e r n w w (inr (signature, s, inl (off, refl))))
    | inl on ↦ rw (on_eq on) (judged_ends e r n w (judged w).1 signature s on (judged w).0 refl)
  ]
    where
      judged : Call W Verdict
      judged = verify_countersignature seams r signature r.host_key_id r.log_id

      on_eq :
          session.has_verifier ≡ true
          → check_signature seams session a e r (some signature) n w ≡ (elim (judged w).0 [
            | returned j ↦ act_on seams session a e r j n (judged w).1
            | failed x ↦ (failed x, n, (judged w).1)
          ])
      on_eq on = if_true _ _ on

      off_eq :
          session.has_verifier ≡ false
          → check_signature seams session a e r (some signature) n w
            ≡ check_hash seams session a e r n w
      off_eq off = if_false _ _ off

  check_accept_ends :
      (e : Fields) (r : AcceptResponse) (n : ℕ) (w : W)
      → let (res, n', w') = check_accept seams session a e r n w in
        JudgementEnds e (answered (accepted r)) n w res n' w'
  unfolding check_accept
  check_accept_ends e r n w =
      elim (Bool-cases (session.require_countersign && is_none r.host_signature)) [
        | inr held ↦
            rw
              (if_false (abort seams session a host_uncountersigned n w)
                (check_signature seams session a e r r.host_signature n w) held)
              (check_signature_ends e r n w r.host_signature refl held)
        | inl lacks ↦
            rw
              (if_true (abort seams session a host_uncountersigned n w)
                (check_signature seams session a e r r.host_signature n w) lacks)
              (grounded e (answered (accepted r)) n w host_uncountersigned w
                (by_absence (ground arith) (none_of r.host_signature (ground arith))))
      ]
    where
      none_of : (o : Option Str) → is_none o ≡ true → o ≡ none
      none_of none q = refl
      none_of (some s) q = cc

  -- Where the judgement of an answered attempt returns, it returns the accept that the host answered,
  -- with the countersignature there where it is required and verified where there is a verifier, and
  -- with the hash of the tool's own attempt where Polluted Stop runs; where it raises, a ground gives
  -- the reason of the abort, or a check itself raised.
  pub judge_lem :
      (e : Fields) (sent : Sent) (n : ℕ) (w : W)
      → let (res, n', w') = judge seams session a (e, sent) n w in
        JudgementEnds e sent n w res n' w'
  unfolding judge
  judge_lem e faulted n w = grounded e faulted n w host_unavailable w by_fault
  judge_lem e (answered unavailable) n w =
      grounded e (answered unavailable) n w host_unavailable w by_unavailability
  judge_lem e (answered (rejected x)) n w =
      grounded e (answered (rejected x)) n w host_rejected w (by_rejection x)
  judge_lem e (answered (accepted r)) n w = check_accept_ends e r n w
