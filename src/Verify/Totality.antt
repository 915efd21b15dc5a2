-- ===== src/Verify/Totality.antt =====
-- When `verify_chain` gives a report.
use auditable_mcp_sdk_python.Base.{
  ℕ, ◌+◌, ◌≡◌, refl, Bool, true, false, not, ◌&&◌, Option, some, List, [], ◌∷◌, Str, arith,
  Bool-cases, Option-cases, inl, inr, if◌then◌else◌, Str_eq, Pair_eq,
}
use auditable_mcp_sdk_python.Base.Lists.{All, All-append}
use auditable_mcp_sdk_python.Base.Dict.{lookup, insert, get_or}
use auditable_mcp_sdk_python.Base.Result.{Result, ok, ◌>>=◌}
use auditable_mcp_sdk_python.Json.{Json, obj, Fields, get, is_str}
use auditable_mcp_sdk_python.Fields
use auditable_mcp_sdk_python.Canonical.{Jcs}
use auditable_mcp_sdk_python.Models.{outcome_value, aborted}
use auditable_mcp_sdk_python.Ledger.{SealedRecord}
use auditable_mcp_sdk_python.Verify.Value.{Key, key_in, hashable, hashable_key, or_null}
use auditable_mcp_sdk_python.Verify.Accounting.{
  numbered_of, Sealed, Groups, add_to_group, correlation_key, is_attempt, group, refusal_reason,
  refusals, account_groups, unaccounted_signer_seq,
}
use auditable_mcp_sdk_python.Verify.Report.{RecordAdapter, Checks}
use auditable_mcp_sdk_python.Verify.Record.{correlate}
use auditable_mcp_sdk_python.Verify.{
  Scan, start, structured, check_record, scan, events_of, verify_chain,
}

-- The members that the accounting hashes are no list and no dict.
abbrev pub Accountable : Json → Type 0
Accountable (obj e) =
    (hashable_key (correlation_key e) ≡ true) × (hashable (or_null (get Fields.reason e)) ≡ true)
Accountable _ = Unit

-- The key that the adapter gives, and the embedded event, can be hashed.
abbrev pub IsReadable : RecordAdapter → SealedRecord → Type 0
IsReadable a r =
    ((k : Key) → a.id_of r.event ≡ some k → hashable_key k ≡ true)
    × Accountable (a.event_of r.event)

-- The call returns.
abbrev pub Returns : {A : Type 0} → Result A → Type 0
Returns {A} m = (a : A) × (m ≡ ok a)

bind-Returns :
    {A B : Type 0} (m : Result A) (f : A → Result B) (a : A)
    → m ≡ ok a
    → Returns (f a)
    → Returns (m >>= f)
bind-Returns m f a e (b, p) = (b, rw e p)

correlate-Returns :
    (a : RecordAdapter) (r : SealedRecord) (ks : List Key)
    → IsReadable a r
    → Returns (correlate a r ks)
unfolding correlate
correlate-Returns a r ks h = elim (Option-cases (a.id_of r.event)) [
  | inl e ↦ rw (e, correlate) (([], ks), refl)
  | inr (k, e) ↦
      rw (e, h.0 k e, correlate)
        (elim (Bool-cases (a.is_attempt r.event)) [
          | inl b ↦ rw b (([], k ∷ ks), refl)
          | inr b ↦ rw b (_, refl)
        ])
]

check_record-Returns :
    (c : Jcs) (k : Checks) (n : ℕ) (r : SealedRecord) (s : Scan)
    → IsReadable k.adapter r
    → Returns (check_record c k n r s)
unfolding check_record
check_record-Returns c k n r s h =
    let (found, e) = correlate-Returns k.adapter r s.attempts h in rw e (_, refl)

scan-Returns :
    (c : Jcs) (k : Checks) (n : ℕ) (rs : List SealedRecord) (s : Scan)
    → All (IsReadable k.adapter) rs
    → Returns (scan c k n rs s)
unfolding scan
scan-Returns c k n [] s h = (s, refl)
scan-Returns c k n (r ∷ rs) s h =
    let (mid, e) = check_record-Returns c k n r s h.0 in
    bind-Returns (check_record c k n r s) (λ s'. scan c k (n + 1) rs s') mid e
      (scan-Returns c k (n + 1) rs mid h.1)

-- What the groups hold can be accounted for.
abbrev Countable : List Sealed → Type 0
Countable = All (λ s. hashable (or_null (get Fields.reason s.event)) ≡ true)

abbrev CountableGroups : Groups → Type 0
CountableGroups = All (λ g. Countable g.1)

insert-Countable :
    (who : Str × Str) (g : List Sealed) (gs : Groups)
    → Countable g
    → CountableGroups gs
    → CountableGroups (insert who g gs)
unfolding insert
insert-Countable who g [] h k = (h, tt)
insert-Countable who g ((w, f) ∷ gs) h k = ground (arith, insert-Countable who g gs)

get_or-Countable :
    (who : Str × Str) (gs : Groups) → CountableGroups gs → Countable (get_or who [] gs)
unfolding get_or lookup
get_or-Countable who [] k = tt
get_or-Countable who ((w, f) ∷ gs) k = ground (arith, get_or-Countable who gs)

add_to_group-Countable :
    (e : Fields) (b : Bool) (gs : Groups)
    → hashable (or_null (get Fields.reason e)) ≡ true
    → CountableGroups gs
    → CountableGroups (add_to_group e b gs)
unfolding add_to_group
add_to_group-Countable e b gs h k = elim (Option-cases (numbered_of e)) [
  | inl x ↦ rw (x, add_to_group) k
  | inr ((who, n), x) ↦
      rw (x, add_to_group)
        (insert-Countable who _ gs
          (All-append (λ s. hashable (or_null (get Fields.reason s.event)) ≡ true)
            (get_or who [] gs) _ (get_or-Countable who gs k) (h, tt))
          k)
]

group-Returns :
    (es : List Json) (ks : List Key) (gs : Groups)
    → All Accountable es
    → CountableGroups gs
    → (found : Groups) × (group es ks gs ≡ ok found) × CountableGroups found
unfolding group
group-Returns [] ks gs h k = (gs, refl, k)
group-Returns (obj e ∷ es) ks gs h k =
    let rest =
      group-Returns es (if is_attempt e then correlation_key e ∷ ks else ks)
        (add_to_group e (key_in (correlation_key e) ks) gs) h.1
        (add_to_group-Countable e (key_in (correlation_key e) ks) gs h.0.1 k) in
    (rest.0, rw h.0.0 rest.1, rest.2)
group-Returns (_ ∷ es) ks gs h k = group-Returns es ks gs h.1 k

refusals-Returns : (g : List Sealed) → Countable g → Returns (refusals g)
unfolding refusals
refusals-Returns [] h = ([], refl)
refusals-Returns (s ∷ g) h =
    let (rs, e) = refusals-Returns g h.1 in
    elim (Bool-cases (not (is_str (get Fields.outcome s.event) (outcome_value aborted)))) [
      | inl a ↦ rw a (rs, e)
      | inr a ↦
          rw (a, h.0)
            (elim (Bool-cases
              (refusal_reason (or_null (get Fields.reason s.event)) && not s.correlated)) [
                | inl b ↦ rw (b, e) (_, refl)
                | inr b ↦ rw b (rs, e)
              ])
    ]

account_groups-Returns : (gs : Groups) → CountableGroups gs → Returns (account_groups gs)
unfolding account_groups
account_groups-Returns [] h = ([], refl)
account_groups-Returns ((who, g) ∷ gs) h =
    let (rs, e) = refusals-Returns g h.0 in
    let (gaps, f) = account_groups-Returns gs h.1 in rw (e, f) (_, refl)

events_of-Accountable :
    (a : RecordAdapter) (rs : List SealedRecord)
    → All (IsReadable a) rs
    → All Accountable (events_of a rs)
unfolding events_of
events_of-Accountable a [] h = tt
events_of-Accountable a (r ∷ rs) h = (h.0.1, events_of-Accountable a rs h.1)

-- A verification against no expected principal or a primitive one gives a report, where the key by
-- which the adapter names each record, and the session, the id and the reason of each embedded
-- event, are no list and no dict.
pub verify_chain-Returns :
    (c : Jcs) (rs : List SealedRecord) (anchored : Option Str) (k : Checks)
    → structured k.expected_principal ≡ false
    → All (IsReadable k.adapter) rs
    → Returns (verify_chain c rs anchored k)
unfolding verify_chain unaccounted_signer_seq
verify_chain-Returns c rs anchored k p h =
    let (s, scanned) = scan-Returns c k 0 rs start h in
    let (gs, grouped, countable) =
      group-Returns (events_of k.adapter rs) [] [] (events_of-Accountable k.adapter rs h) tt in
    let (gaps, counted) = account_groups-Returns gs countable in
    rw (p, scanned, grouped, counted) (_, refl)
