-- ===== src/Ledger/Chain.antt =====
-- The chain that a ledger keeps.
use auditable_mcp_sdk_python.Base.{
  ℕ, suc, ◌+◌, ◌≡◌, refl, ◌∙◌, some, List, [], ◌∷◌, ◌++◌, Str, arith,
}
use auditable_mcp_sdk_python.Base.Lists.{length, length-append}
use auditable_mcp_sdk_python.Json.{Fields}
use auditable_mcp_sdk_python.Canonical.{Jcs}
use auditable_mcp_sdk_python.Hashing.{genesis_hash, compute_record_hash}
use auditable_mcp_sdk_python.Ledger.{SealedRecord, Ledger, new_ledger, seal, commit, append}

-- The records continue a chain of `n` records whose last hash is `h`: each has the next position,
-- names the hash before it, and carries the hash of its own content.
abbrev pub IsChain : Jcs → ℕ → Str → List SealedRecord → Type 0
IsChain c n h [] = Unit
IsChain c n h (r ∷ rs) =
    (r.seq ≡ n)
    × (r.previous_hash ≡ h)
    × (compute_record_hash c r.event n r.host_ts h ≡ some r.record_hash)
    × IsChain c (suc n) r.record_hash rs

-- The hash of the last record, or `h` before any.
abbrev pub tail_of : Str → List SealedRecord → Str
tail_of h [] = h
tail_of h (r ∷ rs) = tail_of r.record_hash rs

-- The ledger holds a chain from position `n` and hash `h` to its count and its tail.
pub record IsValid (c : Jcs) (n : ℕ) (h : Str) (l : Ledger) : Type 0 where
  pub chain : IsChain c n h l.records
  pub counted : l.count ≡ n + length l.records
  pub tailed : l.tail_hash ≡ tail_of h l.records

pub tail_of-append :
    (h : Str) (rs : List SealedRecord) (r : SealedRecord) → tail_of h (rs ++ r ∷ []) ≡ r.record_hash
tail_of-append h [] r = refl
tail_of-append h (q ∷ rs) r = tail_of-append q.record_hash rs r

-- A record fits at the end of the ledger's chain.
pub record Extends (c : Jcs) (l : Ledger) (r : SealedRecord) : Type 0 where
  pub position : r.seq ≡ l.count
  pub link : r.previous_hash ≡ l.tail_hash
  pub hash : compute_record_hash c r.event l.count r.host_ts l.tail_hash ≡ some r.record_hash

pub IsChain-append :
    (c : Jcs) (n : ℕ) (h : Str) (rs : List SealedRecord) (r : SealedRecord)
    → IsChain c n h rs
    → r.seq ≡ n + length rs
    → r.previous_hash ≡ tail_of h rs
    → compute_record_hash c r.event (n + length rs) r.host_ts (tail_of h rs) ≡ some r.record_hash
    → IsChain c n h (rs ++ r ∷ [])
IsChain-append c n h [] r k p q e = let z : n + 0 ≡ n = omega arith in (p ∙ z, q, rw z at e, tt)
IsChain-append c n h (x ∷ rs) r k p q e =
    let z : n + suc (length rs) ≡ suc n + length rs = omega arith in
    (k.0, k.1, k.2, IsChain-append c (suc n) x.record_hash rs r k.3 (p ∙ z) q (rw z at e))

pub commit-IsValid :
    {c : Jcs} {n : ℕ} {h : Str} {l : Ledger} (r : SealedRecord)
    → IsValid c n h l
    → Extends c l r
    → IsValid c n h (commit l r)
unfolding commit
commit-IsValid {c} {n} {h} {l} r v x = record {
  chain =
      IsChain-append c n h l.records r v.chain (x.position ∙ v.counted) (x.link ∙ v.tailed)
        (rw (← v.counted, ← v.tailed) x.hash);
  counted = omega (arith, v.counted, length-append {0} l.records (r ∷ []));
  tailed = rw tail_of-append;
}

pub seal-Extends :
    (c : Jcs) (l : Ledger) (event : Fields) (host_ts : Str) (r : SealedRecord)
    → seal c l event host_ts ≡ some r
    → Extends c l r × (r.event ≡ event) × (r.host_ts ≡ host_ts)
unfolding seal
seal-Extends c l event host_ts r e = ground arith

pub new_ledger-IsValid : (c : Jcs) (p : Str) → IsValid c 0 genesis_hash (new_ledger p)
unfolding new_ledger
new_ledger-IsValid c p = record { chain = tt; counted = refl; tailed = refl }

append-eq :
    (c : Jcs) (l : Ledger) (event : Fields) (host_ts : Str) (r : SealedRecord) (l' : Ledger)
    → append c l event host_ts ≡ some (r, l')
    → (seal c l event host_ts ≡ some r) × (commit l r ≡ l')
unfolding append
append-eq c l event host_ts r l' e = ground arith

-- Where appending an event to a ledger that holds a whole chain gives a record, it keeps the
-- ledger's chain whole, puts the event and the time given at its end with the next position, and
-- moves the tail to the new record's hash.
pub append-IsValid :
    (c : Jcs) (n : ℕ) (h : Str) (l : Ledger) (event : Fields) (host_ts : Str) (r : SealedRecord)
    (l' : Ledger)
    → IsValid c n h l
    → append c l event host_ts ≡ some (r, l')
    → IsValid c n h l'
      × (l'.records ≡ l.records ++ r ∷ [])
      × (r.event ≡ event)
      × (r.host_ts ≡ host_ts)
      × (l'.tail_hash ≡ r.record_hash)
append-IsValid c n h l event host_ts r l' v e =
    let (sealed, committed) = append-eq c l event host_ts r l' e in
    let (x, same_event, same_ts) = seal-Extends c l event host_ts r sealed in
    rw (← committed)
      (commit-IsValid r v x, unfold commit in refl, same_event, same_ts, unfold commit in refl)
