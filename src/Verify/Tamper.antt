-- ===== src/Verify/Tamper.antt =====
-- Tamper evidence: under an anchored digest, no other records verify.
use auditable_mcp_sdk_python.Base.{
  ℕ, zero, suc, ◌+◌, ◌≡◌, ◌≢◌, refl, sym, ◌∙◌, ◌⊎◌, inl, inr, true, some, List, [], ◌∷◌, Str, arith,
  Option-cases,
}
use auditable_mcp_sdk_python.Base.Lists.{length}
use auditable_mcp_sdk_python.Base.Result.{ok}
use auditable_mcp_sdk_python.Json.{obj, Fields}
use auditable_mcp_sdk_python.Canonical.{Jcs, canonicalize, sha256_hex}
use auditable_mcp_sdk_python.Canonical.Domain.{canonicalize-domain}
use auditable_mcp_sdk_python.Hashing.{genesis_hash, preimage, compute_record_hash}
use auditable_mcp_sdk_python.Ledger.{SealedRecord, Ledger, digest}
use auditable_mcp_sdk_python.Ledger.Chain.{IsChain, tail_of, IsValid}
use auditable_mcp_sdk_python.Verify.Report.{VerifyReport, is_ok, Checks}
use auditable_mcp_sdk_python.Verify.{verify_chain}
use auditable_mcp_sdk_python.Verify.Intact.{verify_chain-clean}

-- What the chain rests on: no two texts have one SHA-256 digest, none has the genesis hash, and the
-- canonical form of a preimage determines its members.
pub record IsBinding (c : Jcs) : Type 0 where
  pub collision_free : (s t : Str) → c.digest_hex s ≡ c.digest_hex t → s ≡ t
  pub not_genesis : (s : Str) → c.digest_hex s ≢ genesis_hash
  pub members :
      (e e' : Fields) (n n' : ℕ) (t t' h h' s : Str)
      → c.dumps (preimage e n t h) ≡ some s
      → c.dumps (preimage e' n' t' h') ≡ some s
      → (c.dumps (obj e) ≡ c.dumps (obj e')) × (n ≡ n') × (t ≡ t') × (h ≡ h')

-- The same record as far as the hash binds it: the event in its canonical form, and every field
-- that the host assigned but the countersignature.
pub record SameRecord (c : Jcs) (r q : SealedRecord) : Type 0 where
  pub event : c.dumps (obj r.event) ≡ c.dumps (obj q.event)
  pub seq : r.seq ≡ q.seq
  pub host_ts : r.host_ts ≡ q.host_ts
  pub previous_hash : r.previous_hash ≡ q.previous_hash
  pub record_hash : r.record_hash ≡ q.record_hash

abbrev pub SameRecords : Jcs → List SealedRecord → List SealedRecord → Type 0
SameRecords c [] [] = Unit
SameRecords c (r ∷ rs) (q ∷ qs) = SameRecord c r q × SameRecords c rs qs
SameRecords c _ _ = ⊥

-- A record hash is the digest of the canonical preimage.
hash-preimage :
    (c : Jcs) (e : Fields) (n : ℕ) (t h x : Str)
    → compute_record_hash c e n t h ≡ some x
    → (s : Str) × (c.dumps (preimage e n t h) ≡ some s) × (c.digest_hex s ≡ x)
unfolding compute_record_hash sha256_hex
hash-preimage c e n t h x p = elim (Option-cases (canonicalize c (preimage e n t h))) [
  | inl a ↦ ground arith
  | inr (s, a) ↦ (s, (canonicalize-domain c (preimage e n t h) s a).1, ground arith)
]

module _ (c : Jcs) (b : IsBinding c) where
  same_hash :
      (e e' : Fields) (n n' : ℕ) (t t' h h' x : Str)
      → compute_record_hash c e n t h ≡ some x
      → compute_record_hash c e' n' t' h' ≡ some x
      → (c.dumps (obj e) ≡ c.dumps (obj e')) × (n ≡ n') × (t ≡ t') × (h ≡ h')
  same_hash e e' n n' t t' h h' x p q =
      let (s, ds, hs) = hash-preimage c e n t h x p in
      let (s', ds', hs') = hash-preimage c e' n' t' h' x q in
      let same : s ≡ s' = b.collision_free s s' (hs ∙ sym hs') in
      b.members e e' n n' t t' h h' s ds (rw same ds')

  -- Two chains of one length with one tail agree, from their starting hash on.
  same_length :
      (n m : ℕ) (h g : Str) (rs qs : List SealedRecord)
      → length rs ≡ length qs
      → IsChain c n h rs
      → IsChain c m g qs
      → tail_of h rs ≡ tail_of g qs
      → (h ≡ g) × SameRecords c rs qs
  same_length n m h g [] [] l x y e = (e, tt)
  same_length n m h g [] (q ∷ qs) l x y e = absurd (omega arith)
  same_length n m h g (r ∷ rs) [] l x y e = absurd (omega arith)
  same_length n m h g (r ∷ rs) (q ∷ qs) l (rn, rh, rx, rc) (qm, qg, qx, qc) e =
      let (linked, rest) =
        same_length (suc n) (suc m) r.record_hash q.record_hash rs qs (omega arith) rc qc e in
      let (event, seq, ts, prev) =
        same_hash r.event q.event n m r.host_ts q.host_ts h g r.record_hash rx (rw linked qx) in
      (
        prev,
        (
          record {
            event = event;
            seq = rn ∙ seq ∙ sym qm;
            host_ts = ts;
            previous_hash = rh ∙ prev ∙ sym qg;
            record_hash = linked;
          },
          rest,
        ),
      )

  -- A chain from the genesis hash is as long as any other that has its tail.
  not_longer :
      (k n m : ℕ) (g : Str) (rs qs : List SealedRecord)
      → length qs ≡ suc k + length rs
      → IsChain c n genesis_hash rs
      → IsChain c m g qs
      → tail_of genesis_hash rs ≢ tail_of g qs
  not_longer k n m g rs [] l x y e = absurd (omega arith)
  not_longer zero n m g rs (q ∷ qs) l x y e =
      let (start, _) =
        same_length n (suc m) genesis_hash q.record_hash rs qs (omega arith) x y.3 e in
      let (s, _, hs) = hash-preimage c q.event m q.host_ts g q.record_hash y.2 in
      b.not_genesis s (hs ∙ sym start)
  not_longer (suc k) n m g rs (q ∷ qs) l x y e =
      not_longer k n (suc m) q.record_hash rs qs (omega arith) x y.3 e

  compare_lengths :
      (a d : ℕ) → (a ≡ d) ⊎ (((k : ℕ) × (a ≡ suc k + d)) ⊎ ((k : ℕ) × (d ≡ suc k + a)))
  compare_lengths zero zero = inl refl
  compare_lengths zero (suc d) = inr (inr (d, omega arith))
  compare_lengths (suc a) zero = inr (inl (a, omega arith))
  compare_lengths (suc a) (suc d) = elim (compare_lengths a d) [
    | inl e ↦ inl (omega arith)
    | inr e ↦ inr (elim e [ inl (k, p) ↦ inl (k, omega arith) | inr (k, p) ↦ inr (k, omega arith) ])
  ]

  pub IsChain-unique :
      (rs qs : List SealedRecord)
      → IsChain c 0 genesis_hash rs
      → IsChain c 0 genesis_hash qs
      → tail_of genesis_hash rs ≡ tail_of genesis_hash qs
      → SameRecords c rs qs
  IsChain-unique rs qs x y e = elim (compare_lengths (length rs) (length qs)) [
    | inl l ↦ (same_length 0 0 genesis_hash genesis_hash rs qs l x y e).1
    | inr l ↦ elim l [
      | inl (k, p) ↦ absurd (not_longer k 0 0 genesis_hash qs rs p y x (sym e))
      | inr (k, p) ↦ absurd (not_longer k 0 0 genesis_hash rs qs p x y e)
    ]
  ]

-- What verifies under the digest that a ledger had is the ledger: where the digest binds its
-- content, a ledger that holds a whole chain has an anchored digest, and a verification of any
-- records against that digest finds nothing, those records are the ledger's, each with the same
-- canonical event, position, time, link and hash.
pub verify_chain-tamper_evident :
    (c : Jcs) (l : Ledger) (rs : List SealedRecord) (k : Checks) (report : VerifyReport)
    → IsBinding c
    → IsValid c 0 genesis_hash l
    → verify_chain c rs (some (digest l)) k ≡ ok report
    → is_ok report ≡ true
    → SameRecords c rs l.records
verify_chain-tamper_evident c l rs k report b v e clean =
    let (chain, tail) = verify_chain-clean c rs (digest l) k report e clean in
    IsChain-unique c b rs l.records chain v.chain (sym tail ∙ unfold digest in v.tailed)
