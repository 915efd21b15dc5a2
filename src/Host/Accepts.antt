-- ===== src/Host/Accepts.antt =====
-- What stands behind an accept of `handle_attempt`.
use auditable_mcp_sdk_python.Base.{
  ℕ, ◌≡◌, refl, Bool, true, false, not, leb, Option, none, some, Str, str_eq, str_eq_iff, arith,
  Bool-cases, Option-cases, inl, inr, Str_eq,
}
use auditable_mcp_sdk_python.Base.Dict.{lookup}
use auditable_mcp_sdk_python.Base.Result.{Result, ok, raised}
use auditable_mcp_sdk_python.Json.{obj, Fields}
use auditable_mcp_sdk_python.Canonical.{Jcs, canonicalize}
use auditable_mcp_sdk_python.Reasons.{Reason}
use auditable_mcp_sdk_python.Models.{AttemptResponse, accepted}
use auditable_mcp_sdk_python.Ledger.{SealedRecord}
use auditable_mcp_sdk_python.Host.State.{Host, event_id, is_attempt, accept_of}
use auditable_mcp_sdk_python.Host.World.{World, step}
use auditable_mcp_sdk_python.Host.Triple.{Triple, Then, Triple-bind}
use auditable_mcp_sdk_python.Host.Checks.{
  Admission, admitted, refused, admit, check_replay, verify_signature,
}
use auditable_mcp_sdk_python.Host.Sealing.{settle_tail, seal_event}
use auditable_mcp_sdk_python.Host.Attempt.{
  has_outcome, answer_compared, answer_repeat, answer_sealed, seal_attempt, answer_replay,
  answer_new, answer_signature, answer_admission, attempt, answer_settled, attempt_settled,
  handle_attempt,
}
use auditable_mcp_sdk_python.Host.Kept.{
  IsKept, sealed_attempts-update_session, sealed_attempts-decide, sealed_attempts-accept_again,
  seal_event-IsKept,
}

-- An accept gives the fields of the record that the host keeps for the attempt's id, and the record
-- is of this event, up to what its canonical form does not tell apart.
abbrev pub IsBacked : Jcs → Fields → Result AttemptResponse → Host → Type 0
IsBacked c e (ok (accepted a)) g =
    (r : SealedRecord) × (lookup (event_id e) g.sealed_attempts ≡ some r)
    × (accept_of r ≡ a)
    × (canonicalize c (obj r.event) ≡ canonicalize c (obj e))
IsBacked c e _ g = Unit

admit-IsAttempt :
    (d : ℕ → Bool) (e : Fields) (x : Option Str) (h : Host) (sid : Str)
    → (admit d e x true h).0 ≡ admitted sid
    → is_attempt e ≡ true
unfolding admit
admit-IsAttempt d e x h sid q = ground arith

module _ {W : Type 0} (env : World W) (e : Fields) where
  -- What raises, and what says nothing of the state, needs no record.
  unconstrained :
      {A : Type 0} (r : Result A) (g : Host) → Then (λ _ _. Unit) (IsBacked env.jcs e) r g
  unconstrained (ok a) g = tt
  unconstrained (raised x) g = tt

  answer_sealed-IsBacked :
      (sid : Str) (o : Option SealedRecord)
      → Triple (IsKept e (ok o)) (answer_sealed env e sid o) (IsBacked env.jcs e)
  unfolding answer_sealed
  answer_sealed-IsBacked sid none h w p = tt
  answer_sealed-IsBacked sid (some r) h w p =
      (r, rw (sealed_attempts-update_session, sealed_attempts-decide) p.0, refl, rw p.1 refl)

  answer_repeat-IsBacked :
      (sid : Str) (r : SealedRecord)
      → Triple
          (λ h. lookup (event_id e) h.sealed_attempts ≡ some r)
          (answer_repeat env e sid r)
          (IsBacked env.jcs e)
  unfolding answer_repeat answer_compared
  answer_repeat-IsBacked sid r h w p = elim (Option-cases (canonicalize env.jcs (obj r.event))) [
    | inl n ↦ rw n tt
    | inr (s, n) ↦ rw n (elim (Option-cases (canonicalize env.jcs (obj e))) [
      | inl m ↦ rw m tt
      | inr (t, m) ↦ rw m (elim (Bool-cases (str_eq s t)) [
        | inl b ↦
            rw (b, answer_compared)
              (r, rw sealed_attempts-accept_again p, refl, rw (n, m, (str_eq_iff s t).0 b) refl)
        | inr b ↦ rw (b, answer_compared) tt
      ])
    ])
  ]

  seal_attempt-IsBacked :
      (sid : Str)
      → is_attempt e ≡ true
      → Triple (λ _. Unit) (seal_attempt env e sid) (IsBacked env.jcs e)
  unfolding seal_attempt
  seal_attempt-IsBacked sid a h w p = elim (Bool-cases (not h.persistence_available)) [
    | inl x ↦ rw x tt
    | inr x ↦ rw x (
        let (t, v) = env.now w in
        Triple-bind {P = λ _. Unit} (λ o. IsKept e (ok o)) (IsBacked env.jcs e) (seal_event env e t)
          (answer_sealed env e sid)
          (λ g u q.
            sealed (seal_event env e t g u).0 (seal_event env e t g u).1
              (seal_event-IsKept env e t a g u tt))
          (answer_sealed-IsBacked sid) h v tt)
  ]
    where
      sealed :
          (m : Result (Option SealedRecord)) (g : Host)
          → IsKept e m g
          → Then (λ o. IsKept e (ok o)) (IsBacked env.jcs e) m g
      sealed (ok o) g k = k
      sealed (raised x) g k = tt

  answer_replay-IsBacked :
      (sid : Str)
      → is_attempt e ≡ true
      → (reason : Option Reason)
      → Triple (λ _. Unit) (answer_replay env e sid reason) (IsBacked env.jcs e)
  unfolding answer_replay
  answer_replay-IsBacked sid a (some r) h w p = tt
  answer_replay-IsBacked sid a none h w p = seal_attempt-IsBacked sid a h w p

  answer_new-IsBacked :
      (sid : Str)
      → is_attempt e ≡ true
      → Triple (λ _. Unit) (answer_new env e sid) (IsBacked env.jcs e)
  unfolding answer_new
  answer_new-IsBacked sid a h w p = elim (Bool-cases (has_outcome (event_id e) sid h)) [
    | inl x ↦ rw x tt
    | inr x ↦ rw x (
        Triple-bind {P = λ _. Unit} (λ _ _. Unit) (IsBacked env.jcs e) (step (check_replay e sid))
          (answer_replay env e sid) (λ g v q. tt) (answer_replay-IsBacked sid a) h w tt)
  ]

  answer_signature-IsBacked :
      (sid : Str)
      → is_attempt e ≡ true
      → (reason : Option Reason)
      → Triple (λ _. Unit) (answer_signature env e sid reason) (IsBacked env.jcs e)
  unfolding answer_signature
  answer_signature-IsBacked sid a (some r) h w p = tt
  answer_signature-IsBacked sid a none h w p =
      elim (Option-cases (lookup (event_id e) h.sealed_attempts)) [
        | inl x ↦ rw (x, answer_signature) (answer_new-IsBacked sid a h w tt)
        | inr (r, x) ↦ rw (x, answer_signature) (answer_repeat-IsBacked sid r h w x)
      ]

  -- The event is an attempt, where it is admitted.
  abbrev IsAdmitted : Admission → Host → Type 0
  IsAdmitted (admitted sid) g = is_attempt e ≡ true
  IsAdmitted (refused r) g = Unit

  answer_admission-IsBacked :
      (admission : Admission)
      → Triple (IsAdmitted admission) (answer_admission env e admission) (IsBacked env.jcs e)
  unfolding answer_admission
  answer_admission-IsBacked (refused r) h w p = tt
  answer_admission-IsBacked (admitted sid) h w p =
      Triple-bind {P = λ _. Unit} (λ _ _. Unit) (IsBacked env.jcs e) (verify_signature env e sid)
        (answer_signature env e sid)
        (λ g v q.
          unconstrained (verify_signature env e sid g v).0 (verify_signature env e sid g v).1)
        (answer_signature-IsBacked sid p) h w tt

  admission-IsAdmitted :
      (m : Admission) (g : Host)
      → ((sid : Str) → m ≡ admitted sid → is_attempt e ≡ true)
      → IsAdmitted m g
  admission-IsAdmitted (admitted sid) g k = k sid refl
  admission-IsAdmitted (refused r) g k = tt

  attempt-IsBacked : (x : Option Str) → Triple (λ _. Unit) (attempt env e x) (IsBacked env.jcs e)
  unfolding attempt
  attempt-IsBacked x =
      Triple-bind {P = λ _. Unit} IsAdmitted (IsBacked env.jcs e) (step (admit env.digit e x true))
        (answer_admission env e)
        (λ g v q.
          admission-IsAdmitted (admit env.digit e x true g).0 (admit env.digit e x true g).1
            (admit-IsAttempt env.digit e x g))
        answer_admission-IsBacked

  answer_settled-IsBacked :
      (x : Option Str) (b : Bool)
      → Triple (λ _. Unit) (answer_settled env e x b) (IsBacked env.jcs e)
  unfolding answer_settled
  answer_settled-IsBacked x true h w p = attempt-IsBacked x h w p
  answer_settled-IsBacked x false h w p = tt

  attempt_settled-IsBacked :
      (x : Option Str) → Triple (λ _. Unit) (attempt_settled env e x) (IsBacked env.jcs e)
  unfolding attempt_settled
  attempt_settled-IsBacked x =
      Triple-bind {P = λ _. Unit} (λ _ _. Unit) (IsBacked env.jcs e) (settle_tail env)
        (answer_settled env e x)
        (λ g v q. unconstrained (settle_tail env g v).0 (settle_tail env g v).1)
        (answer_settled-IsBacked x)

  -- Where `handle_attempt` returns an accept, the accept has the fields of the record that the host
  -- then keeps sealed under the attempt's id, whether it was sealed now or by an earlier call, and the
  -- record's event has the canonical form of the attempt.
  pub handle_attempt-IsBacked :
      (expected : Option Str) (deadline : Option ℕ) (h : Host) (w : W)
      → let (result, g, _) = handle_attempt env e expected deadline h w in
        IsBacked env.jcs e result g
  unfolding handle_attempt
  handle_attempt-IsBacked x none h w = attempt_settled-IsBacked x h w tt
  handle_attempt-IsBacked x (some deadline) h w =
      elim (Bool-cases (leb deadline (env.current_time w).0)) [
        | inl y ↦ rw y tt
        | inr y ↦ rw y (attempt_settled-IsBacked x h (env.current_time w).1 tt)
      ]
