-- ===== src/Host/Sealing.antt =====
-- host.py: `_seal`, and settling the stored tail after an ambiguous write.
use auditable_mcp_sdk_python.Base.{
  Bool, true, false, not, ◌&&◌, ◌||◌, Option, none, some, Str, ltb, nat_eq, str_eq, if◌then◌else◌,
  Str_eq,
}
use auditable_mcp_sdk_python.Base.Lists.{member, add}
use auditable_mcp_sdk_python.Base.Dict.{insert}
use auditable_mcp_sdk_python.Base.Result.{
  Result, ok, raised, canonicalization_error, repository_error, cancelled,
}
use auditable_mcp_sdk_python.Json.{obj, Fields, get_str}
use auditable_mcp_sdk_python.Fields
use auditable_mcp_sdk_python.Canonical.{Jcs, canonicalize, sha256_hex}
use auditable_mcp_sdk_python.Hashing.{countersignature_payload}
use auditable_mcp_sdk_python.Ledger.{SealedRecord, seal, commit, resume_from}
use auditable_mcp_sdk_python.Host.State.{
  Session, Host, event_id, is_attempt, update_session, note_accepted, note_resolved, note_outcome,
  decide,
}
use auditable_mcp_sdk_python.Host.World.{World, M, pure, raise, lift, gets, modify, ◌>>=◌, ◌>>◌}

-- `None` of a canonicalization is the exception.
abbrev pub or_raised : {A : Type 0} → Option A → Result A
or_raised none = raised canonicalization_error
or_raised (some a) = ok a

-- `_digest`
unfoldable pub digest_of : Jcs → Fields → Option Str
digest_of c event = elim (canonicalize c (obj event)) [
  | none ↦ none
  | some s ↦ some (sha256_hex c s)
]

-- `_remember`, of a record and its digest
unfoldable pub remember : SealedRecord → Str → Host → Host
remember r digest h =
    let noted = record h { sealed_digests = add digest h.sealed_digests } in
    if is_attempt r.event
    then record noted { sealed_attempts = insert (event_id r.event) r h.sealed_attempts }
    else noted

unfoldable pub commit_record : SealedRecord → Host → Host
commit_record r h = record h { ledger = commit h.ledger r }

-- The outcome of `event` is the session's, and resolves the attempt that the session accepted.
unfoldable pub conclude : Str → Str → Session → Session
conclude id digest s =
    let noted = note_outcome id digest s in
    if member id s.accepted then note_resolved id noted else noted

-- `_adopt`, of a record and its digest
unfoldable pub adopt : SealedRecord → Str → Host → Host
adopt r digest h = elim (get_str Fields.session_id r.event) [
  | none ↦ h
  | some sid ↦
      let id = event_id r.event in
      let decided = decide r.event sid h in
      if is_attempt r.event
      then update_session sid (note_accepted id) decided
      else update_session sid (conclude id digest) decided
]

abbrev pub settled : Host → Host
settled h = record h { tail_uncertain = false }

-- The stored tail is the record that the host could not confirm.
abbrev pub is_next : SealedRecord → Host → Bool
is_next tail h = nat_eq tail.seq h.ledger.count && str_eq tail.previous_hash h.ledger.tail_hash

module _ {W : Type 0} (env : World W) where
  -- What is done with the stored tail.
  unfoldable pub take_tail : Option SealedRecord → M W (Unit {0})
  take_tail none h w = modify settled h w
  take_tail (some tail) h w =
      if is_next tail h
      then (do
        modify (commit_record tail)
        digest ← lift (or_raised (digest_of env.jcs tail.event))
        modify (remember tail digest)
        modify (adopt tail digest)
        modify settled)
          h w
      else if ltb h.ledger.count tail.seq
      then modify (λ g. settled (record g { ledger = resume_from g.ledger (some tail) })) h w
      else modify settled h w

  -- `_settle_tail`
  unfoldable pub settle_tail : M W Bool
  settle_tail h w =
      if not h.tail_uncertain || not h.has_repository
      then pure true h w
      else let (loaded, w') = env.load_tail h.partition w in
        elim loaded [
          | ok tail ↦ (take_tail tail >> pure true) h w'
          | raised e ↦ elim e [ repository_error ↦ pure false h w' | other ↦ raise other h w' ]
        ]

  -- The countersignature, where the host holds a signer. `none` fails closed.
  unfoldable pub countersign : SealedRecord → M W (Option SealedRecord)
  countersign r h w = elim h.countersigner [
    | none ↦ pure (some r) h w
    | some key_id ↦
        elim (countersignature_payload env.jcs r.seq r.host_ts h.log_id r.previous_hash
          r.record_hash) [
            | none ↦ raise canonicalization_error h w
            | some payload ↦
                let (signed, w') = env.sign payload w in
                elim signed [
                  | ok signature ↦
                      pure
                        (some (record r {
                          host_signature = some signature;
                          host_key_id = some key_id;
                          log_id = some h.log_id;
                        }))
                        h w'
                  | raised e ↦ elim e [
                    | cancelled ↦ raise cancelled (record h { tail_uncertain = true }) w'
                    | other ↦ pure none h w'
                  ]
                ]
          ]
  ]

  -- Whether the record is stored; a failure leaves the tail in doubt.
  unfoldable pub persist : SealedRecord → M W Bool
  persist r h w =
      if not h.has_repository
      then pure true h w
      else let (stored, w') = env.store h.partition r w in
        let uncertain = record h { tail_uncertain = true } in
        elim stored [
          | ok _ ↦ pure true h w'
          | raised e ↦ elim e [
            | repository_error ↦ pure false uncertain w'
            | other ↦ raise other uncertain w'
          ]
        ]

  unfoldable pub keep_record : SealedRecord → M W (Option SealedRecord)
  keep_record r = do
    modify (commit_record r)
    digest ← lift (or_raised (digest_of env.jcs r.event))
    modify (remember r digest)
    pure (some r)

  unfoldable pub store_record : Option SealedRecord → M W (Option SealedRecord)
  store_record none = pure none
  store_record (some r) = do stored ← persist r; if stored then keep_record r else pure none

  -- `_seal`
  unfoldable pub seal_event : Fields → Str → M W (Option SealedRecord)
  seal_event event host_ts = do
    ledger ← gets (λ h. h.ledger)
    r ← lift (or_raised (seal env.jcs ledger event host_ts))
    countersigned ← countersign r
    store_record countersigned
