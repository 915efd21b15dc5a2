-- ===== src/Verify/Intact.antt =====
-- The issues of tampering that `verify_chain` reports, against the chain that the records form.
use auditable_mcp_sdk_python.Base.{
  ℕ, suc, ◌+◌, ◌≡◌, refl, sym, ap, ◌∙◌, ◌↔◌, true, false, Option, some, List, [], ◌∷◌, ◌++◌, Str,
  arith, str_eq_iff,
}
use auditable_mcp_sdk_python.Base.Lists.{All-append, All-append_iff, length}
use auditable_mcp_sdk_python.Base.Result.{ok, value_error, ◌>>=◌, >>=-eq-ok, unraised}
use auditable_mcp_sdk_python.Canonical.{Jcs}
use auditable_mcp_sdk_python.Hashing.{genesis_hash}
use auditable_mcp_sdk_python.Ledger.{SealedRecord}
use auditable_mcp_sdk_python.Ledger.Chain.{IsChain, tail_of}
use auditable_mcp_sdk_python.Verify.Value.{Key}
use auditable_mcp_sdk_python.Verify.Accounting.{UnaccountedSignerSeq, unaccounted_signer_seq}
use auditable_mcp_sdk_python.Verify.Report.{is_empty, is_ok, VerifyIssue, VerifyReport, Checks}
use auditable_mcp_sdk_python.Verify.Record.{rehash, correlate}
use auditable_mcp_sdk_python.Verify.{
  Scan, structured, start, check_record, scan, gap_issues, digest_issues, events_of, report_of,
  verify_chain,
}
use auditable_mcp_sdk_python.Verify.Round.{
  of_tampering, Untampered, Fits, added, added_iff, recomputed-rehash,
}

-- A round that returns: its issues are those before and those added, and its link is the new hash.
check_record-eq :
    (c : Jcs) (k : Checks) (n : ℕ) (r : SealedRecord) (s s' : Scan)
    → check_record c k n r s ≡ ok s'
    → (found : List VerifyIssue × List Key) × (correlate k.adapter r s.attempts ≡ ok found)
      × (s.issues ++ added c k n r s found ≡ s'.issues)
      × ((rehash c r s.prev).recomputed ≡ s'.prev)
unfolding check_record
check_record-eq c k n r s s' e =
    let (found, got, built) = >>=-eq-ok (correlate k.adapter r s.attempts) _ e in
    (found, got, cc, cc)

-- After a record that fits, the rest continues the chain from its hash.
chained :
    (c : Jcs) (n : ℕ) (r : SealedRecord) (h next : Str) (rs : List SealedRecord)
    → Fits c n h r
    → (rehash c r h).recomputed ≡ next
    → IsChain c (n + 1) next rs ≡ IsChain c (suc n) r.record_hash rs
chained c n r h next rs f e =
    let z : n + 1 ≡ suc n = omega arith in
    let hashed = recomputed-rehash c r h (rw f.0 f.2) in rw (z, ← e, hashed)

scan_iff :
    (c : Jcs) (k : Checks) (n : ℕ) (rs : List SealedRecord) (s s' : Scan)
    → scan c k n rs s ≡ ok s'
    → Untampered s'.issues ↔ (Untampered s.issues × IsChain c n s.prev rs)
unfolding scan
scan_iff c k n [] s s' e = let same : s ≡ s' = cc in (λ u. (rw same u, tt), λ u. rw (← same) u.0)
scan_iff c k n (r ∷ rs) s s' e =
    let (mid, stepped, rest) = >>=-eq-ok (check_record c k n r s) _ e in
    let (found, got, grown, linked) = check_record-eq c k n r s mid stepped in
    let later = scan_iff c k (n + 1) rs mid s' rest in
    let both = All-append_iff (λ i. of_tampering i.kind ≡ false) s.issues (added c k n r s found) in
    let here = added_iff c k n r s found got in
    (
      λ u.
          let parts = both.0 (rw grown (later.0 u).0) in
          let f = here.0 parts.1 in
          (
            parts.0,
            (f.0, f.1, f.2, rw (← chained c n r s.prev mid.prev rs f linked) (later.0 u).1),
          ),
      λ (u, (position, link, hash, chain)).
          let f : Fits c n s.prev r = (position, link, hash) in
          later.1 (
            rw (← grown) (both.1 (u, here.1 f)),
            rw (chained c n r s.prev mid.prev rs f linked) chain,
          ),
    )

prev-scan :
    (c : Jcs) (k : Checks) (n : ℕ) (rs : List SealedRecord) (s s' : Scan)
    → scan c k n rs s ≡ ok s'
    → IsChain c n s.prev rs
    → s'.prev ≡ tail_of s.prev rs
unfolding scan
prev-scan c k n [] s s' e h = cc
prev-scan c k n (r ∷ rs) s s' e (position, link, hash, chain) =
    let (mid, stepped, rest) = >>=-eq-ok (check_record c k n r s) _ e in
    let (found, got, grown, linked) = check_record-eq c k n r s mid stepped in
    let f : Fits c n s.prev r = (position, link, hash) in
    let next : mid.prev ≡ r.record_hash =
      sym linked ∙ recomputed-rehash c r s.prev (rw position hash) in
    prev-scan c k (n + 1) rs mid s' rest (rw (chained c n r s.prev mid.prev rs f linked) chain)
    ∙ ap (λ h. tail_of h rs) next

gap_issues-Untampered : (gs : List UnaccountedSignerSeq) → Untampered (gap_issues gs)
unfolding gap_issues
gap_issues-Untampered [] = tt
gap_issues-Untampered (g ∷ gs) = (refl, gap_issues-Untampered gs)

digest_issues-Untampered : (a : Option Str) (h : Str) → Untampered (digest_issues a h)
unfolding digest_issues
digest_issues-Untampered a h = ground arith

-- A report, when one is given, comes from a scan of the records.
pub verify_chain-eq :
    (c : Jcs) (rs : List SealedRecord) (anchored : Option Str) (k : Checks) (report : VerifyReport)
    → verify_chain c rs anchored k ≡ ok report
    → (s : Scan) × (gaps : List UnaccountedSignerSeq) × (scan c k 0 rs start ≡ ok s)
      × (report_of (length rs) anchored s gaps ≡ report)
unfolding verify_chain
verify_chain-eq c rs anchored k report e =
    let gaps_then = λ (s : Scan). unaccounted_signer_seq (events_of k.adapter rs) >>= λ gaps.
    ok (report_of (length rs) anchored s gaps) in
    let run : (scan c k 0 rs start >>= gaps_then) ≡ ok report =
      unraised (structured k.expected_principal) value_error (scan c k 0 rs start >>= gaps_then)
        e in
    let (s, scanned, rest) = >>=-eq-ok (scan c k 0 rs start) gaps_then run in
    let (gaps, counted, built) =
      >>=-eq-ok (unaccounted_signer_seq (events_of k.adapter rs))
        (λ gaps. ok (report_of (length rs) anchored s gaps)) rest in
    (s, gaps, scanned, cc)

-- Where a verification gives a report, no issue in it says that a record is out of order, unlinked,
-- wrongly hashed or without a canonical form, exactly when the records are a chain from the genesis
-- hash: each at its position, naming the hash before it and carrying the hash of its content.
pub verify_chain-intact_iff :
    (c : Jcs) (rs : List SealedRecord) (anchored : Option Str) (k : Checks) (report : VerifyReport)
    → verify_chain c rs anchored k ≡ ok report
    → Untampered report.issues ↔ IsChain c 0 genesis_hash rs
unfolding report_of
verify_chain-intact_iff c rs anchored k report e =
    let (s, gaps, scanned, built) = verify_chain-eq c rs anchored k report e in
    let scanned_iff = scan_iff c k 0 rs start s scanned in
    let both =
      All-append_iff (λ i. of_tampering i.kind ≡ false) s.issues
        (gap_issues gaps ++ digest_issues anchored s.prev) in
    let after =
      All-append (λ i. of_tampering i.kind ≡ false) (gap_issues gaps)
        (digest_issues anchored s.prev) (gap_issues-Untampered gaps)
        (digest_issues-Untampered anchored s.prev) in
    rw (← built, report_of)
      (λ u. (scanned_iff.0 (both.0 u).0).1, λ h. both.1 (scanned_iff.1 (tt, h), after))

-- The digest that is computed of a chain is its last hash.
pub computed_digest-verify_chain :
    (c : Jcs) (rs : List SealedRecord) (anchored : Option Str) (k : Checks) (report : VerifyReport)
    → verify_chain c rs anchored k ≡ ok report
    → IsChain c 0 genesis_hash rs
    → report.computed_digest ≡ tail_of genesis_hash rs
unfolding report_of
computed_digest-verify_chain c rs anchored k report e h =
    let (s, gaps, scanned, built) = verify_chain-eq c rs anchored k report e in
    rw (← built, report_of) (prev-scan c k 0 rs start s scanned h)

empty_parts : {A : Type 0} (xs ys : List A) → is_empty (xs ++ ys) ≡ true → is_empty ys ≡ true
empty_parts [] ys h = h
empty_parts (x ∷ xs) ys h = cc

all_of_empty : (is : List VerifyIssue) → is_empty is ≡ true → Untampered is
all_of_empty [] h = tt
all_of_empty (i ∷ is) h = cc

digest_issues-empty : (d h : Str) → is_empty (digest_issues (some d) h) ≡ true → d ≡ h
unfolding digest_issues
digest_issues-empty d h e = ground (arith, str_eq_iff d h)

anchored-report_of :
    (n : ℕ) (d : Str) (s : Scan) (gaps : List UnaccountedSignerSeq)
    → is_empty (report_of n (some d) s gaps).issues ≡ true
    → d ≡ (report_of n (some d) s gaps).computed_digest
unfolding report_of
anchored-report_of n d s gaps h =
    let after = empty_parts s.issues (gap_issues gaps ++ digest_issues (some d) s.prev) h in
    digest_issues-empty d s.prev (empty_parts (gap_issues gaps) _ after)

-- Where a verification against an anchored digest gives a report without issues, the records are a
-- chain from the genesis hash, and the anchored digest is their last hash.
pub verify_chain-clean :
    (c : Jcs) (rs : List SealedRecord) (d : Str) (k : Checks) (report : VerifyReport)
    → verify_chain c rs (some d) k ≡ ok report
    → is_ok report ≡ true
    → IsChain c 0 genesis_hash rs × (d ≡ tail_of genesis_hash rs)
unfolding is_ok
verify_chain-clean c rs d k report e clean =
    let (s, gaps, scanned, built) = verify_chain-eq c rs (some d) k report e in
    let chain =
      (verify_chain-intact_iff c rs (some d) k report e).0 (all_of_empty report.issues clean) in
    (chain, anchored s gaps built ∙ computed_digest-verify_chain c rs (some d) k report e chain)
  where
    anchored :
        (s : Scan) (gaps : List UnaccountedSignerSeq)
        → report_of (length rs) (some d) s gaps ≡ report
        → d ≡ report.computed_digest
    anchored s gaps built = rw built at (anchored-report_of (length rs) d s gaps (rw built clean))
