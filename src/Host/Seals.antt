-- ===== src/Host/Seals.antt =====
-- The chain of a host's ledger under a seal, and under a tail that the host takes up.
use auditable_mcp_sdk_python.Base.{
  ℕ, ◌+◌, ◌≡◌, refl, ap, ◌∙◌, Bool, true, false, not, ◌||◌, ltb, Option, none, some, Str, nat_eq,
  str_eq_iff, nat_eq_iff, arith, if◌then◌else◌, Bool-cases, Option-cases, inl, inr, and_true,
  Str_eq,
}
use auditable_mcp_sdk_python.Base.Result.{Result, ok, raised, repository_error}
use auditable_mcp_sdk_python.Json.{Fields}
use auditable_mcp_sdk_python.Canonical.{Jcs}
use auditable_mcp_sdk_python.Hashing.{compute_record_hash}
use auditable_mcp_sdk_python.Ledger.{SealedRecord, Ledger, seal, commit, resume_from}
use auditable_mcp_sdk_python.Ledger.Chain.{IsValid, Extends, commit-IsValid, seal-Extends}
use auditable_mcp_sdk_python.Host.State.{Host}
use auditable_mcp_sdk_python.Host.World.{World, pure, raise, step, modify, ◌>>◌}
use auditable_mcp_sdk_python.Host.Triple.{Triple, Keeps, Keeps-bind, Then, Triple-bind}
use auditable_mcp_sdk_python.Host.Sealing.{
  digest_of, commit_record, is_next, take_tail, settle_tail, countersign, persist, keep_record,
  store_record, seal_event,
}
use auditable_mcp_sdk_python.Host.Untouched.{
  ledger-remember, ledger-adopt, ledger-countersign, ledger-persist, ledger-keep_record,
}

-- The ledger is a whole chain, from wherever the host took it up.
abbrev pub IsWhole : Jcs → Ledger → Type 0
IsWhole c l = (n : ℕ) × (h : Str) × IsValid c n h l

IsWhole-commit :
    (c : Jcs) (l : Ledger) (r : SealedRecord) → IsWhole c l → Extends c l r → IsWhole c (commit l r)
IsWhole-commit c l r (n, h, v) x = (n, h, commit-IsValid r v x)

IsWhole-resume_from :
    (c : Jcs) (l : Ledger) (tail : SealedRecord) → IsWhole c (resume_from l (some tail))
unfolding resume_from
IsWhole-resume_from c l tail =
    (tail.seq + 1, tail.record_hash, record { chain = tt; counted = omega arith; tailed = refl })

-- The store gives back no tail whose hash is not that of its content.
abbrev pub IsHonest : {W : Type 0} → World W → Type 0
IsHonest {W} env =
    (p : Str) (w : W) (tail : SealedRecord)
    → (env.load_tail p w).0 ≡ ok (some tail)
    → compute_record_hash env.jcs tail.event tail.seq tail.host_ts tail.previous_hash
      ≡ some tail.record_hash

is_next-Extends :
    (c : Jcs) (tail : SealedRecord) (h : Host)
    → is_next tail h ≡ true
    → compute_record_hash c tail.event tail.seq tail.host_ts tail.previous_hash
      ≡ some tail.record_hash
    → Extends c h.ledger tail
is_next-Extends c tail h e x =
    let (a, b) = and_true (nat_eq tail.seq h.ledger.count) _ e in
    let position = (nat_eq_iff tail.seq h.ledger.count).0 a in
    let link = (str_eq_iff tail.previous_hash h.ledger.tail_hash).0 b in
    record { position = position; link = link; hash = rw (position, link) at x }

module _ {W : Type 0} (env : World W) where
  abbrev pub Whole : Host → Type 0
  Whole h = IsWhole env.jcs h.ledger

  pub modify-Whole :
      (f : Host → Host) → ((h : Host) → (f h).ledger ≡ h.ledger) → Keeps {W = W} Whole (modify f)
  modify-Whole f same h w p = rw (same h) p

  pub step-Whole :
      {A : Type 0} (f : Host → A × Host)
      → ((h : Host) → (f h).1.ledger ≡ h.ledger)
      → Keeps {W = W} Whole (step f)
  step-Whole f same h w p = rw (same h) p

  ledger-take_tail_next :
      (tail : SealedRecord) (h : Host) (w : W)
      → is_next tail h ≡ true
      → (take_tail env (some tail) h w).1.ledger ≡ commit h.ledger tail
  unfolding take_tail commit_record
  ledger-take_tail_next tail h w e = elim (Option-cases (digest_of env.jcs tail.event)) [
    | inl n ↦ rw (e, n)
    | inr (d, n) ↦ rw (e, n) (ledger-adopt tail d _ ∙ ledger-remember tail d _)
  ]

  take_tail-Whole :
      (tail : Option SealedRecord) (h : Host) (w : W)
      → ((r : SealedRecord)
          → tail ≡ some r
          → compute_record_hash env.jcs r.event r.seq r.host_ts r.previous_hash
            ≡ some r.record_hash)
      → Whole h
      → Whole (take_tail env tail h w).1
  unfolding take_tail
  take_tail-Whole none h w x p = p
  take_tail-Whole (some tail) h w x p = elim (Bool-cases (is_next tail h)) [
    | inl e ↦
        rw (ledger-take_tail_next tail h w e)
          (IsWhole-commit env.jcs h.ledger tail p (is_next-Extends env.jcs tail h e (x tail refl)))
    | inr e ↦ rw e (elim (Bool-cases (ltb h.ledger.count tail.seq)) [
      | inl f ↦ rw f (IsWhole-resume_from env.jcs h.ledger tail)
      | inr f ↦ rw f p
    ])
  ]

  -- By what the store gives.
  settle_loaded :
      (loaded : Result (Option SealedRecord)) (h : Host) (w : W)
      → ((r : SealedRecord)
          → loaded ≡ ok (some r)
          → compute_record_hash env.jcs r.event r.seq r.host_ts r.previous_hash
            ≡ some r.record_hash)
      → Whole h
      → let t : Result Bool × Host × W = elim loaded [
        | ok tail ↦ (take_tail env tail >> pure true) h w
        | raised e ↦ elim e [ repository_error ↦ pure false h w | other ↦ raise other h w ]
      ] in
        Whole t.1
  settle_loaded (ok tail) h w x p =
      Keeps-bind Whole (take_tail env tail) (λ _. pure true)
        (λ g v q. take_tail-Whole tail g v (λ r z. x r (ap ok z)) q) (λ _ g v q. q) h w p
  settle_loaded (raised e) h w x p = ground arith

  pub settle_tail-Whole : IsHonest env → Keeps Whole (settle_tail env)
  unfolding settle_tail
  settle_tail-Whole honest h w p =
      elim (Bool-cases (not h.tail_uncertain || not h.has_repository)) [
        | inl e ↦ rw e p
        | inr e ↦ rw e (
            settle_loaded (env.load_tail h.partition w).0 h (env.load_tail h.partition w).1
              (λ r q. honest h.partition w r q) p)
      ]

  -- A countersigned record is the record, with the triple.
  pub core-countersign :
      (r q : SealedRecord) (h : Host) (w : W)
      → (countersign env r h w).0 ≡ ok (some q)
      → (q.event ≡ r.event)
        × (q.seq ≡ r.seq)
        × (q.host_ts ≡ r.host_ts)
        × (q.previous_hash ≡ r.previous_hash)
        × (q.record_hash ≡ r.record_hash)
  unfolding countersign
  core-countersign r q h w e = ground arith

  -- The record that is about to be stored fits the ledger.
  abbrev Ready : Option SealedRecord → Host → Type 0
  Ready none h = Whole h
  Ready (some r) h = Whole h × Extends env.jcs h.ledger r

  abbrev Sealing : Result (Option SealedRecord) → Host → Type 0
  Sealing _ g = Whole g

  Extends-core :
      (l : Ledger) (r q : SealedRecord)
      → (q.event ≡ r.event)
        × (q.seq ≡ r.seq)
        × (q.host_ts ≡ r.host_ts)
        × (q.previous_hash ≡ r.previous_hash)
        × (q.record_hash ≡ r.record_hash)
      → Extends env.jcs l r
      → Extends env.jcs l q
  Extends-core l r q (e, s, t, p, x) h = record {
    position = s ∙ h.position;
    link = p ∙ h.link;
    hash = rw (e, t, x) h.hash;
  }

  countersigned :
      (result : Result (Option SealedRecord)) (r : SealedRecord) (g : Host)
      → ((q : SealedRecord)
          → result ≡ ok (some q)
          → (q.event ≡ r.event)
            × (q.seq ≡ r.seq)
            × (q.host_ts ≡ r.host_ts)
            × (q.previous_hash ≡ r.previous_hash)
            × (q.record_hash ≡ r.record_hash))
      → Ready (some r) g
      → Then Ready Sealing result g
  countersigned (ok none) r g core p = p.0
  countersigned (ok (some q)) r g core p = (p.0, Extends-core g.ledger r q (core q refl) p.1)
  countersigned (raised e) r g core p = p.0

  countersign-Ready :
      (r : SealedRecord) → Triple (Ready (some r)) (countersign env r) (Then Ready Sealing)
  countersign-Ready r h w p =
      countersigned (countersign env r h w).0 r (countersign env r h w).1
        (λ q e. core-countersign r q h w e) (rw (ledger-countersign env r h w) p)

  persisted :
      (result : Result Bool) (r : SealedRecord) (g : Host)
      → Ready (some r) g
      → Then (λ _ f. Ready (some r) f) Sealing result g
  persisted (ok b) r g p = p
  persisted (raised e) r g p = p.0

  keep-or-drop :
      (r : SealedRecord) (b : Bool)
      → Triple (Ready (some r)) (if b then keep_record env r else pure none) Sealing
  keep-or-drop r true h w p =
      rw (ledger-keep_record env r h w) (IsWhole-commit env.jcs h.ledger r p.0 p.1)
  keep-or-drop r false h w p = p.0

  store_record-Whole : (o : Option SealedRecord) → Triple (Ready o) (store_record env o) Sealing
  unfolding store_record
  store_record-Whole none h w p = p
  store_record-Whole (some r) h w p =
      Triple-bind (λ _ g. Ready (some r) g) Sealing (persist env r)
        (λ b. if b then keep_record env r else pure none)
        (λ h w p.
          persisted (persist env r h w).0 r (persist env r h w).1 (rw (ledger-persist env r h w) p))
        (keep-or-drop r) h w p

  pub seal_event-Whole : (e : Fields) (t : Str) → Keeps Whole (seal_event env e t)
  unfolding seal_event
  seal_event-Whole e t h w p = elim (Option-cases (seal env.jcs h.ledger e t)) [
    | inl n ↦ rw n p
    | inr (r, n) ↦ rw n (
        Triple-bind Ready Sealing (countersign env r) (store_record env) (countersign-Ready r)
          store_record-Whole h w (p, (seal-Extends env.jcs h.ledger e t r n).0))
  ]
