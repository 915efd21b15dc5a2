-- ===== src/Host/Kept.antt =====
-- What a seal of an attempt leaves in the host.
use auditable_mcp_sdk_python.Base.{
  ◌≡◌, refl, ◌∙◌, Bool, true, false, Option, none, some, Str, arith, if◌then◌else◌, Option-cases,
  inl, inr, Str_eq,
}
use auditable_mcp_sdk_python.Base.Equality.{beq_refl}
use auditable_mcp_sdk_python.Base.Dict.{lookup, lookup-insert}
use auditable_mcp_sdk_python.Base.Result.{Result, ok, raised}
use auditable_mcp_sdk_python.Json.{Fields}
use auditable_mcp_sdk_python.Ledger.{SealedRecord, seal}
use auditable_mcp_sdk_python.Ledger.Chain.{seal-Extends}
use auditable_mcp_sdk_python.Host.State.{
  Session, Host, event_id, is_attempt, update_session, decide,
}
use auditable_mcp_sdk_python.Host.World.{World, pure}
use auditable_mcp_sdk_python.Host.Triple.{Triple, Then, Triple-bind}
use auditable_mcp_sdk_python.Host.Sealing.{
  digest_of, remember, countersign, persist, keep_record, store_record, seal_event,
}
use auditable_mcp_sdk_python.Host.Attempt.{accept_again}
use auditable_mcp_sdk_python.Host.Seals.{core-countersign}

-- A seal of an attempt leaves the record of this event under its id.
abbrev pub IsKept : Fields → Result (Option SealedRecord) → Host → Type 0
IsKept e (ok (some r)) g = (lookup (event_id e) g.sealed_attempts ≡ some r) × (r.event ≡ e)
IsKept e _ g = Unit

abbrev Holds : Fields → Option SealedRecord → Host → Type 0
Holds e none g = Unit
Holds e (some r) g = r.event ≡ e

pub sealed_attempts-update_session :
    (sid : Str) (f : Session → Session) (h : Host)
    → (update_session sid f h).sealed_attempts ≡ h.sealed_attempts
unfolding update_session
sealed_attempts-update_session sid f h = ground arith

pub sealed_attempts-decide :
    (e : Fields) (sid : Str) (h : Host) → (decide e sid h).sealed_attempts ≡ h.sealed_attempts
unfolding decide
sealed_attempts-decide e sid h = grind (arith, sealed_attempts-update_session)

pub sealed_attempts-accept_again :
    (e : Fields) (sid : Str) (r : SealedRecord) (h : Host)
    → (accept_again e sid r h).sealed_attempts ≡ h.sealed_attempts
unfolding accept_again
sealed_attempts-accept_again e sid r h = grind (arith, sealed_attempts-update_session)

lookup-remember :
    (r : SealedRecord) (d : Str) (h : Host)
    → is_attempt r.event ≡ true
    → lookup (event_id r.event) (remember r d h).sealed_attempts ≡ some r
unfolding remember
lookup-remember r d h a =
    rw
      (
        a,
        lookup-insert (event_id r.event) (event_id r.event) r h.sealed_attempts,
        beq_refl (event_id r.event),
      )
      refl

module _ {W : Type 0} (env : World W) (e : Fields) where
  keep_record-IsKept :
      (r : SealedRecord) (h : Host) (w : W)
      → is_attempt e ≡ true
      → r.event ≡ e
      → let t = keep_record env r h w in IsKept e t.0 t.1
  unfolding keep_record
  keep_record-IsKept r h w a same = elim (Option-cases (digest_of env.jcs r.event)) [
    | inl n ↦ rw n tt
    | inr (d, n) ↦ rw (n, ← same) (lookup-remember r d _ (rw same a), refl)
  ]

  store_record-IsKept :
      is_attempt e ≡ true
      → (o : Option SealedRecord) → Triple (Holds e o) (store_record env o) (IsKept e)
  unfolding store_record
  store_record-IsKept a none h w p = tt
  store_record-IsKept a (some r) h w p =
      Triple-bind (λ _ _. r.event ≡ e) (IsKept e) (persist env r)
        (λ b. if b then keep_record env r else pure none)
        (λ g v q. stored (persist env r g v).0 (persist env r g v).1 q) (λ b g v q. kept b g v q) h
        w p
    where
      stored : (m : Result Bool) (g : Host) → r.event ≡ e → Then (λ _ _. r.event ≡ e) (IsKept e) m g
      stored (ok b) g q = q
      stored (raised x) g q = tt

      kept :
          (b : Bool)
          → Triple (λ _. r.event ≡ e) (if b then keep_record env r else pure none) (IsKept e)
      kept true g v q = keep_record-IsKept r g v a q
      kept false g v q = tt

  countersign-Holds :
      (r : SealedRecord)
      → r.event ≡ e
      → Triple (λ _. Unit) (countersign env r) (Then (Holds e) (IsKept e))
  countersign-Holds r same h w p =
      held (countersign env r h w).0 (countersign env r h w).1
        (λ q x. (core-countersign env r q h w x).0 ∙ same)
    where
      held :
          (m : Result (Option SealedRecord)) (g : Host)
          → ((q : SealedRecord) → m ≡ ok (some q) → q.event ≡ e)
          → Then (Holds e) (IsKept e) m g
      held (ok none) g k = tt
      held (ok (some q)) g k = k q refl
      held (raised x) g k = tt

  pub seal_event-IsKept :
      (t : Str) → is_attempt e ≡ true → Triple (λ _. Unit) (seal_event env e t) (IsKept e)
  unfolding seal_event
  seal_event-IsKept t a h w p = elim (Option-cases (seal env.jcs h.ledger e t)) [
    | inl n ↦ rw n tt
    | inr (r, n) ↦ rw n (
        Triple-bind {P = λ _. Unit} (Holds e) (IsKept e) (countersign env r) (store_record env)
          (countersign-Holds r (seal-Extends env.jcs h.ledger e t r n).1) (store_record-IsKept a) h
          w tt)
  ]
