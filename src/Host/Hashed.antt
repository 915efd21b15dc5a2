-- ===== src/Host/Hashed.antt =====
-- The records of sealed attempts that a host keeps carry the hash of their content.
use auditable_mcp_sdk_python.Base.{
  ◌≡◌, refl, ap, Bool, true, false, not, ◌||◌, ltb, Option, none, some, Str, str_eq, if◌then◌else◌,
  Bool-cases, Option-cases, inl, inr, arith, Str_eq,
}
use auditable_mcp_sdk_python.Base.Dict.{Dict, lookup, insert, lookup-insert}
use auditable_mcp_sdk_python.Base.Result.{
  Result, ok, raised, value_error, type_error, canonicalization_error, runtime_error,
  repository_error, other_error, cancelled,
}
use auditable_mcp_sdk_python.Json.{Fields}
use auditable_mcp_sdk_python.Canonical.{Jcs}
use auditable_mcp_sdk_python.Hashing.{compute_record_hash}
use auditable_mcp_sdk_python.Ledger.{SealedRecord, Ledger, seal}
use auditable_mcp_sdk_python.Ledger.Chain.{Extends, seal-Extends}
use auditable_mcp_sdk_python.Host.State.{Host, event_id, is_attempt}
use auditable_mcp_sdk_python.Host.World.{World, pure, raise, ◌>>◌}
use auditable_mcp_sdk_python.Host.Triple.{Triple, Keeps, Keeps-bind, Then, Triple-bind}
use auditable_mcp_sdk_python.Host.Sealing.{
  digest_of, remember, commit_record, adopt, is_next, take_tail, settle_tail, countersign, persist,
  keep_record, store_record, seal_event,
}
use auditable_mcp_sdk_python.Host.Core.{core, core-adopt}
use auditable_mcp_sdk_python.Host.Seals.{IsHonest, core-countersign}

-- The record's hash is that of its content.
abbrev pub IsOwnHash : Jcs → SealedRecord → Type 0
IsOwnHash c r = compute_record_hash c r.event r.seq r.host_ts r.previous_hash ≡ some r.record_hash

abbrev pub IsHashed : Jcs → Dict Str SealedRecord → Type 0
IsHashed c d = (id : Str) (r : SealedRecord) → lookup id d ≡ some r → IsOwnHash c r

insert-IsHashed :
    (c : Jcs) (d : Dict Str SealedRecord) (j : Str) (r : SealedRecord)
    → IsHashed c d
    → IsOwnHash c r
    → IsHashed c (insert j r d)
insert-IsHashed c d j r p own id q e = elim (Bool-cases (str_eq id j)) [
  | inl same ↦
      let found : some r ≡ some q = rw (lookup-insert id j r d, same) at e in
      let here : r ≡ q = cc in rw (← here) own
  | inr other ↦ p id q (rw (lookup-insert id j r d, other) at e)
]

remember-IsHashed :
    (c : Jcs) (r : SealedRecord) (digest : Str) (h : Host)
    → IsHashed c h.sealed_attempts
    → IsOwnHash c r
    → IsHashed c (remember r digest h).sealed_attempts
unfolding remember
remember-IsHashed c r digest h p own = elim (Bool-cases (is_attempt r.event)) [
  | inl a ↦ rw a (insert-IsHashed c h.sealed_attempts (event_id r.event) r p own)
  | inr a ↦ rw a p
]

sealed_attempts-adopt :
    (r : SealedRecord) (d : Str) (h : Host) → (adopt r d h).sealed_attempts ≡ h.sealed_attempts
unfolding core
sealed_attempts-adopt r d h = ap (λ x. x.1) (core-adopt r d h)

-- A record that extends a ledger carries its own hash.
IsOwnHash-Extends : (c : Jcs) (l : Ledger) (r : SealedRecord) → Extends c l r → IsOwnHash c r
IsOwnHash-Extends c l r x = rw (x.position, x.link) x.hash

module _ {W : Type 0} (env : World W) where
  abbrev pub Hashed : Host → Type 0
  Hashed h = IsHashed env.jcs h.sealed_attempts

  take_tail-Hashed :
      (tail : Option SealedRecord) (h : Host) (w : W)
      → ((r : SealedRecord) → tail ≡ some r → IsOwnHash env.jcs r)
      → Hashed h
      → Hashed (take_tail env tail h w).1
  unfolding take_tail commit_record
  take_tail-Hashed none h w x p = p
  take_tail-Hashed (some tail) h w x p = elim (Bool-cases (is_next tail h)) [
    | inl e ↦ rw e (elim (Option-cases (digest_of env.jcs tail.event)) [
      | inl n ↦ rw n p
      | inr (d, n) ↦
          rw (n, sealed_attempts-adopt) (remember-IsHashed env.jcs tail d _ p (x tail refl))
    ])
    | inr e ↦
        rw e (elim (Bool-cases (ltb h.ledger.count tail.seq)) [ inl f ↦ rw f p | inr f ↦ rw f p ])
  ]

  settle_loaded :
      (loaded : Result (Option SealedRecord)) (h : Host) (w : W)
      → ((r : SealedRecord) → loaded ≡ ok (some r) → IsOwnHash env.jcs r)
      → Hashed h
      → let t : Result Bool × Host × W = elim loaded [
        | ok tail ↦ (take_tail env tail >> pure true) h w
        | raised e ↦ elim e [ repository_error ↦ pure false h w | other ↦ raise other h w ]
      ] in
        Hashed t.1
  settle_loaded (ok tail) h w x p =
      Keeps-bind Hashed (take_tail env tail) (λ _. pure true)
        (λ g v q. take_tail-Hashed tail g v (λ r z. x r (ap ok z)) q) (λ _ g v q. q) h w p
  settle_loaded (raised value_error) h w x p = p
  settle_loaded (raised type_error) h w x p = p
  settle_loaded (raised canonicalization_error) h w x p = p
  settle_loaded (raised runtime_error) h w x p = p
  settle_loaded (raised repository_error) h w x p = p
  settle_loaded (raised other_error) h w x p = p
  settle_loaded (raised cancelled) h w x p = p

  pub settle_tail-Hashed : IsHonest env → Keeps Hashed (settle_tail env)
  unfolding settle_tail
  settle_tail-Hashed honest h w p =
      elim (Bool-cases (not h.tail_uncertain || not h.has_repository)) [
        | inl e ↦ rw e p
        | inr e ↦ rw e (
            settle_loaded (env.load_tail h.partition w).0 h (env.load_tail h.partition w).1
              (λ r q. honest h.partition w r q) p)
      ]

  sealed_attempts-countersign :
      (r : SealedRecord) (h : Host) (w : W)
      → (countersign env r h w).1.sealed_attempts ≡ h.sealed_attempts
  unfolding countersign
  sealed_attempts-countersign r h w = ground arith

  sealed_attempts-persist :
      (r : SealedRecord) (h : Host) (w : W)
      → (persist env r h w).1.sealed_attempts ≡ h.sealed_attempts
  unfolding persist
  sealed_attempts-persist r h w = ground arith

  -- The record that is about to be stored carries its own hash.
  abbrev Ready : Option SealedRecord → Host → Type 0
  Ready none h = Hashed h
  Ready (some r) h = Hashed h × IsOwnHash env.jcs r

  abbrev Sealing : Result (Option SealedRecord) → Host → Type 0
  Sealing _ g = Hashed g

  countersigned :
      (result : Result (Option SealedRecord)) (r : SealedRecord) (g : Host)
      → ((q : SealedRecord) → result ≡ ok (some q) → IsOwnHash env.jcs q)
      → Hashed g
      → Then Ready Sealing result g
  countersigned (ok none) r g own p = p
  countersigned (ok (some q)) r g own p = (p, own q refl)
  countersigned (raised e) r g own p = p

  countersign-Ready :
      (r : SealedRecord) → Triple (Ready (some r)) (countersign env r) (Then Ready Sealing)
  countersign-Ready r h w p =
      countersigned (countersign env r h w).0 r (countersign env r h w).1
        (λ q e. let (a, b, c, d, f) = core-countersign env r q h w e in rw (a, b, c, d, f) p.1)
        (rw (sealed_attempts-countersign r h w) p.0)

  persisted :
      (result : Result Bool) (r : SealedRecord) (g : Host)
      → Ready (some r) g
      → Then (λ _ f. Ready (some r) f) Sealing result g
  persisted (ok b) r g p = p
  persisted (raised e) r g p = p.0

  keep_record-Hashed : (r : SealedRecord) → Triple (Ready (some r)) (keep_record env r) Sealing
  unfolding keep_record commit_record
  keep_record-Hashed r h w p = elim (Option-cases (digest_of env.jcs r.event)) [
    | inl n ↦ rw n p.0
    | inr (d, n) ↦ rw n (remember-IsHashed env.jcs r d _ p.0 p.1)
  ]

  keep-or-drop :
      (r : SealedRecord) (b : Bool)
      → Triple (Ready (some r)) (if b then keep_record env r else pure none) Sealing
  keep-or-drop r true h w p = keep_record-Hashed r h w p
  keep-or-drop r false h w p = p.0

  store_record-Hashed : (o : Option SealedRecord) → Triple (Ready o) (store_record env o) Sealing
  unfolding store_record
  store_record-Hashed none h w p = p
  store_record-Hashed (some r) h w p =
      Triple-bind (λ _ g. Ready (some r) g) Sealing (persist env r)
        (λ b. if b then keep_record env r else pure none)
        (λ h w p.
          persisted (persist env r h w).0 r (persist env r h w).1
            (rw (sealed_attempts-persist r h w) p))
        (keep-or-drop r) h w p

  pub seal_event-Hashed : (e : Fields) (t : Str) → Keeps Hashed (seal_event env e t)
  unfolding seal_event
  seal_event-Hashed e t h w p = elim (Option-cases (seal env.jcs h.ledger e t)) [
    | inl n ↦ rw n p
    | inr (r, n) ↦ rw n (
        Triple-bind Ready Sealing (countersign env r) (store_record env) (countersign-Ready r)
          store_record-Hashed h w
          (p, IsOwnHash-Extends env.jcs h.ledger r (seal-Extends env.jcs h.ledger e t r n).0))
  ]
