-- ===== src/Verify/Round.antt =====
-- The issues of tampering that one round of `verify_chain` adds.
use auditable_mcp_sdk_python.Base.{
  ℕ, ◌≡◌, ◌↔◌, Bool, true, false, some, List, ◌++◌, Str, arith, Option-cases, inl, inr, str_eq_iff,
}
use auditable_mcp_sdk_python.Base.Lists.{All, All-append, All-append_iff}
use auditable_mcp_sdk_python.Base.Result.{ok}
use auditable_mcp_sdk_python.Reasons.{Reason, schema_invalid, record_hash_mismatch, seq_gap}
use auditable_mcp_sdk_python.Canonical.{Jcs}
use auditable_mcp_sdk_python.Hashing.{compute_record_hash}
use auditable_mcp_sdk_python.Ledger.{SealedRecord}
use auditable_mcp_sdk_python.Verify.Value.{Key}
use auditable_mcp_sdk_python.Verify.Accounting.{Number}
use auditable_mcp_sdk_python.Verify.Report.{Detail, VerifyIssue, RecordAdapter, Checks}
use auditable_mcp_sdk_python.Verify.Record.{
  issue_if, order_issues, rehash, correlate, number_issues, principal_issues, signature_issues,
  countersignature_issues, identity_issues,
}
use auditable_mcp_sdk_python.Verify.{Scan}

-- The kinds that the checks of order, link and hash report.
abbrev pub of_tampering : Reason → Bool
of_tampering schema_invalid = true
of_tampering record_hash_mismatch = true
of_tampering seq_gap = true
of_tampering _ = false

-- No issue in the list says that a record is out of order, unlinked, wrongly hashed or without a
-- canonical form.
abbrev pub Untampered : List VerifyIssue → Type 0
Untampered = All (λ i. of_tampering i.kind ≡ false)

Untampered-if :
    (b : Bool) (r : SealedRecord) (kind : Reason) (d : Detail)
    → of_tampering kind ≡ false
    → Untampered (issue_if b r kind d)
Untampered-if true r kind d h = (h, tt)
Untampered-if false r kind d h = tt

correlate-Untampered :
    (a : RecordAdapter) (r : SealedRecord) (ks : List Key) (found : List VerifyIssue × List Key)
    → correlate a r ks ≡ ok found
    → Untampered found.0
unfolding correlate
correlate-Untampered a r ks found h = ground arith

number_issues-Untampered :
    (a : RecordAdapter) (r : SealedRecord) (ns : List Number) → Untampered (number_issues a r ns).0
unfolding number_issues
number_issues-Untampered a r ns = ground arith

principal_issues-Untampered : (k : Checks) (r : SealedRecord) → Untampered (principal_issues k r)
unfolding principal_issues
principal_issues-Untampered k r = ground arith

signature_issues-Untampered :
    (k : Checks) (r : SealedRecord) (b : Bool) → Untampered (signature_issues k r b).0
unfolding signature_issues
signature_issues-Untampered k r b = ground arith

countersignature_issues-Untampered :
    (c : Jcs) (k : Checks) (r : SealedRecord) (b : Bool)
    → Untampered (countersignature_issues c k r b).0
unfolding countersignature_issues
countersignature_issues-Untampered c k r b = ground arith

identity_issues-Untampered : (k : Checks) (r : SealedRecord) → Untampered (identity_issues k r)
unfolding identity_issues
identity_issues-Untampered k r = ground arith

-- The record has the position, the link and the hash that the chain demands.
abbrev pub Fits : Jcs → ℕ → Str → SealedRecord → Type 0
Fits c n h r =
    (r.seq ≡ n)
    × (r.previous_hash ≡ h)
    × (compute_record_hash c r.event n r.host_ts h ≡ some r.record_hash)

order_issues_iff : (n : ℕ) (r : SealedRecord) → Untampered (order_issues n r) ↔ (r.seq ≡ n)
unfolding order_issues
order_issues_iff n r = (λ u. ground arith, λ e. ground arith)

rehash_iff :
    (c : Jcs) (r : SealedRecord) (h : Str)
    → Untampered (rehash c r h).issues ↔ (
        (r.previous_hash ≡ h)
        × (compute_record_hash c r.event r.seq r.host_ts h ≡ some r.record_hash))
unfolding rehash
rehash_iff c r h = elim (Option-cases (compute_record_hash c r.event r.seq r.host_ts h)) [
  | inl e ↦ rw (e, rehash) (λ u. cc u.0, λ u. cc u.1)
  | inr (x, e) ↦
      rw (e, rehash)
        (
          λ u. (
            ground (arith, str_eq_iff r.previous_hash h),
            ground (arith, str_eq_iff r.record_hash x),
          ),
          λ u. ground (arith, str_eq_iff r.previous_hash h, str_eq_iff r.record_hash x),
        )
]

pub recomputed-rehash :
    (c : Jcs) (r : SealedRecord) (h : Str)
    → compute_record_hash c r.event r.seq r.host_ts h ≡ some r.record_hash
    → (rehash c r h).recomputed ≡ r.record_hash
unfolding rehash
recomputed-rehash c r h e = ground arith

-- The issues that a round adds: of order, of hashes, and of what neither concerns.
abbrev pub added :
    Jcs → Checks → ℕ → SealedRecord → Scan → List VerifyIssue × List Key → List VerifyIssue
added c k n r s found =
    let h = rehash c r s.prev in
    order_issues n r
    ++ (h.issues
        ++ (found.0
            ++ ((number_issues k.adapter r s.numbered).0
                ++ (principal_issues k r
                    ++ ((signature_issues k r h.hashable).0
                        ++ ((countersignature_issues c k r h.hashable).0
                            ++ identity_issues k r))))))

others-Untampered :
    (c : Jcs) (k : Checks) (r : SealedRecord) (s : Scan) (b : Bool)
    (found : List VerifyIssue × List Key)
    → correlate k.adapter r s.attempts ≡ ok found
    → Untampered (
        found.0
        ++ ((number_issues k.adapter r s.numbered).0
            ++ (principal_issues k r
                ++ ((signature_issues k r b).0
                    ++ ((countersignature_issues c k r b).0 ++ identity_issues k r)))))
others-Untampered c k r s b found e =
    join found.0 _ (correlate-Untampered k.adapter r s.attempts found e) (
      join (number_issues k.adapter r s.numbered).0 _
        (number_issues-Untampered k.adapter r s.numbered)
        (join (principal_issues k r) _ (principal_issues-Untampered k r) (
          join (signature_issues k r b).0 _ (signature_issues-Untampered k r b) (
            join (countersignature_issues c k r b).0 _ (countersignature_issues-Untampered c k r b)
              (identity_issues-Untampered k r)))))
  where
    join : (xs ys : List VerifyIssue) → Untampered xs → Untampered ys → Untampered (xs ++ ys)
    join xs ys u v = All-append (λ i. of_tampering i.kind ≡ false) xs ys u v

pub added_iff :
    (c : Jcs) (k : Checks) (n : ℕ) (r : SealedRecord) (s : Scan)
    (found : List VerifyIssue × List Key)
    → correlate k.adapter r s.attempts ≡ ok found
    → Untampered (added c k n r s found) ↔ Fits c n s.prev r
added_iff c k n r s found e =
    let others = others-Untampered c k r s (rehash c r s.prev).hashable found e in
    let outer = All-append_iff (λ i. of_tampering i.kind ≡ false) (order_issues n r) _ in
    let inner = All-append_iff (λ i. of_tampering i.kind ≡ false) (rehash c r s.prev).issues _ in
    let hashed = rehash_iff c r s.prev in
    let ordered = order_issues_iff n r in
    (
      λ u.
          let position = ordered.0 (outer.0 u).0 in
          let h = hashed.0 (inner.0 (outer.0 u).1).0 in (position, h.0, rw position at h.1),
      λ f. outer.1 (ordered.1 f.0, inner.1 (hashed.1 (f.1, rw f.0 f.2), others)),
    )
