-- ===== src/Host/Untouched.antt =====
-- The steps of the host that leave its ledger as it is.
use auditable_mcp_sdk_python.Base.{◌≡◌, Str, arith, Option-cases, inl, inr, Str_eq}
use auditable_mcp_sdk_python.Json.{Fields}
use auditable_mcp_sdk_python.Ledger.{SealedRecord, commit}
use auditable_mcp_sdk_python.Host.State.{Session, Host, update_session, decide}
use auditable_mcp_sdk_python.Host.World.{World}
use auditable_mcp_sdk_python.Host.Sealing.{
  digest_of, remember, commit_record, adopt, countersign, persist, keep_record,
}

-- The steps on the host alone leave the ledger.
pub ledger-update_session :
    (sid : Str) (f : Session → Session) (h : Host) → (update_session sid f h).ledger ≡ h.ledger
unfolding update_session
ledger-update_session sid f h = ground arith

pub ledger-decide : (e : Fields) (sid : Str) (h : Host) → (decide e sid h).ledger ≡ h.ledger
unfolding decide
ledger-decide e sid h = grind (arith, ledger-update_session)

pub ledger-remember : (r : SealedRecord) (d : Str) (h : Host) → (remember r d h).ledger ≡ h.ledger
unfolding remember
ledger-remember r d h = ground arith

pub ledger-adopt : (r : SealedRecord) (d : Str) (h : Host) → (adopt r d h).ledger ≡ h.ledger
unfolding adopt
ledger-adopt r d h = grind (arith, ledger-update_session, ledger-decide)

module _ {W : Type 0} (env : World W) where
  pub ledger-countersign :
      (r : SealedRecord) (h : Host) (w : W) → (countersign env r h w).1.ledger ≡ h.ledger
  unfolding countersign
  ledger-countersign r h w = ground arith

  pub ledger-persist :
      (r : SealedRecord) (h : Host) (w : W) → (persist env r h w).1.ledger ≡ h.ledger
  unfolding persist
  ledger-persist r h w = ground arith

  pub ledger-keep_record :
      (r : SealedRecord) (h : Host) (w : W) → (keep_record env r h w).1.ledger ≡ commit h.ledger r
  unfolding keep_record commit_record
  ledger-keep_record r h w = elim (Option-cases (digest_of env.jcs r.event)) [
    | inl n ↦ rw n
    | inr (d, n) ↦ rw n (ledger-remember r d _)
  ]
