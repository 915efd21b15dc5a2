-- ===== src/Reconcile/Exact.antt =====
-- Which destinations `reconcile` reports.
use auditable_mcp_sdk_python.Base.{
  ◌≡◌, ◌↔◌, inl, inr, true, not, some, List, [], ◌∷◌, Str, arith, str_eq, Str_eq, str_eq_iff, map,
  false, refl, Bool-cases, ◌&&◌,
}
use auditable_mcp_sdk_python.Base.Order.{str_leb}
use auditable_mcp_sdk_python.Base.Lists.{
  member, keep, sort, Any, member-sort, member-keep, member-add,
}
use auditable_mcp_sdk_python.Json.{Json, get, is_str, truthy}
use auditable_mcp_sdk_python.Base.Result.{Result, ok, raised, type_error, ◌>>=◌}
use auditable_mcp_sdk_python.Verify.Value.{hashable}
use auditable_mcp_sdk_python.Fields
use auditable_mcp_sdk_python.Ledger.{SealedRecord}
use auditable_mcp_sdk_python.Reconcile.{
  EgressObservation, ReconcileAnomaly, target_ref, reports, reported, is_reported, observed,
  reconcile,
}

-- The boundary saw the session reach the destination.
abbrev pub WasObserved : Str → Str → EgressObservation → Type 0
WasObserved s d o = (o.session_id ≡ s) × (o.destination ≡ d)

-- The record is the session's report of an egress to the destination.
abbrev pub Reports : Str → Str → SealedRecord → Type 0
Reports s d r =
    (is_str (get Fields.session_id r.event) s ≡ true)
    × (truthy (get Fields.egress r.event) ≡ true)
    × (is_str (some (target_ref r.event)) d ≡ true)

abbrev pub Names : Str → ReconcileAnomaly → Type 0
Names d a = a.destination ≡ d

observed_iff :
    (os : List EgressObservation) (s d : Str)
    → (member d (observed os s) ≡ true) ↔ Any (WasObserved s d) os
unfolding observed member
observed_iff [] s d = (λ h. cc, λ h. elim h [ ])
observed_iff (o ∷ os) s d =
    let rest = observed_iff os s d in
    let grown = member-add d o.destination (observed os s) in
    (
      λ h. elim (Bool-cases (str_eq o.session_id s && str_eq d o.destination)) [
        | inl e ↦
            inl (
              ground (arith, str_eq_iff o.session_id s),
              ground (arith, str_eq_iff d o.destination),
            )
        | inr e ↦ inr (rest.0 (ground (arith, grown)))
      ],
      λ h. elim h [
        | inl w ↦ ground (arith, grown, str_eq_iff o.session_id s, str_eq_iff d o.destination)
        | inr w ↦ ground (arith, grown, rest.1 w)
      ],
    )

-- The record is the session's report of an egress to what is no hashable value.
abbrev pub Unhashable : Str → SealedRecord → Type 0
Unhashable s r =
    (is_str (get Fields.session_id r.event) s ≡ true)
    × (truthy (get Fields.egress r.event) ≡ true)
    × (hashable (target_ref r.event) ≡ false)

-- What the set of reported references is, as far as it is made.
abbrev IsReported : List SealedRecord → Str → Str → Result (List Json) → Type 0
IsReported rs s d (ok found) =
    ((is_reported d found ≡ true) ↔ Any (Reports s d) rs) × ¬ Any (Unhashable s) rs
IsReported rs s d (raised x) = (x ≡ type_error) × Any (Unhashable s) rs

module _ (s d : Str) (r : SealedRecord) (rs : List SealedRecord) where
  -- A record that is no report of the session changes nothing.
  silent_record :
      (m : Result (List Json))
      → reports s r ≡ false
      → IsReported rs s d m
      → IsReported (r ∷ rs) s d m
  unfolding reports
  silent_record (ok found) e h = (
    (λ k. inr (h.0.0 k), λ k. elim k [ inl q ↦ ground arith | inr q ↦ h.0.1 q ]),
    λ k. elim k [ inl q ↦ ground arith | inr q ↦ h.1 q ],
  )
  silent_record (raised x) e h = (h.0, inr h.1)

  -- A report whose reference can be hashed joins the set.
  joining_record :
      (m : Result (List Json))
      → reports s r ≡ true
      → hashable (target_ref r.event) ≡ true
      → IsReported rs s d m
      → IsReported (r ∷ rs) s d (m >>= (λ found. ok (target_ref r.event ∷ found)))
  unfolding reports is_reported
  joining_record (ok found) e k h = (
    (
      λ q. elim (Bool-cases (is_str (some (target_ref r.event)) d)) [
        | inl b ↦ inl (ground arith, ground arith, b)
        | inr b ↦ inr (h.0.0 (ground arith))
      ],
      λ q. elim q [ inl p ↦ ground arith | inr p ↦ ground (arith, h.0.1 p) ],
    ),
    λ q. elim q [ inl p ↦ ground arith | inr p ↦ h.1 p ],
  )
  joining_record (raised x) e k h = (h.0, inr h.1)

reported_lem : (rs : List SealedRecord) (s d : Str) → IsReported rs s d (reported rs s)
unfolding reported is_reported reports
reported_lem [] s d = ((λ h. cc, λ h. elim h [ ]), λ h. elim h [ ])
reported_lem (r ∷ rs) s d = elim (Bool-cases (reports s r)) [
  | inl e ↦ elim (Bool-cases (hashable (target_ref r.event))) [
    | inl k ↦ rw (e, k) (joining_record s d r rs (reported rs s) e k (reported_lem rs s d))
    | inr k ↦ rw (e, k) (refl, inl (ground arith, ground arith, k))
  ]
  | inr e ↦ rw e (silent_record s d r rs (reported rs s) e (reported_lem rs s d))
]

named_iff :
    (s d : Str) (ds : List Str)
    → (member d ds ≡ true)
      ↔ Any (Names d) (map (λ x. record { session_id = s; destination = x }) ds)
unfolding member
named_iff s d [] = (λ h. cc, λ h. elim h [ ])
named_iff s d (x ∷ ds) =
    let rest = named_iff s d ds in
    (
      λ h. elim (Bool-cases (str_eq d x)) [
        | inl e ↦ inl (ground (arith, str_eq_iff d x))
        | inr e ↦ inr (rest.0 (ground arith))
      ],
      λ h. elim h [ inl w ↦ ground (arith, str_eq_iff d x) | inr w ↦ ground (arith, rest.1 w) ],
    )

-- What a reconciliation of the session gives for a destination.
abbrev pub Reconciled :
    List SealedRecord → List EgressObservation → Str → Str → Result (List ReconcileAnomaly) → Type 0
Reconciled rs os s d (ok found) =
    (Any (Names d) found ↔ (Any (WasObserved s d) os × ¬ Any (Reports s d) rs))
    × ¬ Any (Unhashable s) rs
Reconciled rs os s d (raised x) = (x ≡ type_error) × Any (Unhashable s) rs

-- A reconciliation raises a type error exactly when some sealed record of the session reports an
-- egress whose reference is a list or a dict. Otherwise an egress is reported as an anomaly exactly
-- when the boundary observed it in the session and no sealed record of the session reports an egress
-- to that destination.
pub reconcile_lem :
    (rs : List SealedRecord) (os : List EgressObservation) (s d : Str)
    → Reconciled rs os s d (reconcile rs os s)
unfolding reconcile
reconcile_lem rs os s d = of (reported rs s) (reported_lem rs s d)
  where
    of :
        (m : Result (List Json))
        → IsReported rs s d m
        → Reconciled rs os s d (
            m >>= (λ found. ok (
              map
                (λ x. record { session_id = s; destination = x })
                (sort str_leb (keep (λ x. not (is_reported x found)) (observed os s))))))
    of (raised x) h = h
    of (ok found) (h, readable) =
        let silent = λ (x : Str). not (is_reported x found) in
        let kept = keep silent (observed os s) in
        let named = named_iff s d (sort str_leb kept) in
        let sorted = member-sort str_leb d kept in
        let chosen = member-keep d silent (observed os s) in
        (
          (
            λ k. (
              (observed_iff os s d).0 (ground (arith, named.1 k, sorted, chosen)),
              λ r. ground (arith, named.1 k, sorted, chosen, h.1 r),
            ),
            λ (o, quiet). named.0 (elim (Bool-cases (is_reported d found)) [
              | inl e ↦ absurd (quiet (h.0 e))
              | inr e ↦ ground (arith, sorted, chosen, (observed_iff os s d).1 o)
            ]),
          ),
          readable,
        )
