-- ===== src/Reconcile.antt =====
-- l2/reconcile.py: boundary-observed egress against self-reported events (§7.5).
pub mod Exact
use auditable_mcp_sdk_python.Base.{
  ◌≡◌, ◌↔◌, Bool, true, false, not, ◌&&◌, ◌||◌, Option, none, some, List, [], ◌∷◌, Str, arith,
  str_eq, if◌then◌else◌, Str_eq, map,
}
use auditable_mcp_sdk_python.Base.Order.{str_leb}
use auditable_mcp_sdk_python.Base.Lists.{add, keep, sort}
use auditable_mcp_sdk_python.Json.{Json, null, obj, Fields, get, is_str, truthy}
use auditable_mcp_sdk_python.Base.Result.{Result, ok, raised, type_error, ◌>>=◌}
use auditable_mcp_sdk_python.Verify.Value.{hashable, or_null}
use auditable_mcp_sdk_python.Fields
use auditable_mcp_sdk_python.Ledger.{SealedRecord}

pub record EgressObservation : Type 0 where
  pub session_id : Str
  pub destination : Str

pub record ReconcileAnomaly : Type 0 where
  pub session_id : Str
  pub destination : Str

-- `BoundaryObserver.observe_egress`
unfoldable pub observe_egress : List EgressObservation → Str → Str → List EgressObservation
observe_egress [] s d = record { session_id = s; destination = d } ∷ []
observe_egress (o ∷ os) s d = o ∷ observe_egress os s d

-- `BoundaryObserver.for_call`
unfoldable pub for_call : List EgressObservation → Str → List EgressObservation
for_call os s = keep (λ o. str_eq o.session_id s) os

-- `_target_ref`
unfoldable pub target_ref : Fields → Json
target_ref event = elim (get Fields.target_resource event) [
  | none ↦ null
  | some t ↦ elim t [ obj fs ↦ or_null (get Fields.ref fs) | _ ↦ null ]
]

reports : Str → SealedRecord → Bool
reports s r = is_str (get Fields.session_id r.event) s && truthy (get Fields.egress r.event)

-- The set of references that the session reports; a list or a dict cannot join it.
unfoldable pub reported : List SealedRecord → Str → Result (List Json)
unfolding reports
reported [] s = ok []
reported (r ∷ rs) s =
    let rest = reported rs s in
    let ref = target_ref r.event in
    if reports s r
    then (if hashable ref then rest >>= (λ found. ok (ref ∷ found)) else raised type_error)
    else rest

-- `destination in reported`
unfoldable pub is_reported : Str → List Json → Bool
is_reported d [] = false
is_reported d (v ∷ vs) = is_str (some v) d || is_reported d vs

-- The set of destinations observed in a session.
unfoldable pub observed : List EgressObservation → Str → List Str
observed [] s = []
observed (o ∷ os) s =
    let rest = observed os s in if str_eq o.session_id s then add o.destination rest else rest

unfoldable pub reconcile :
    List SealedRecord → List EgressObservation → Str → Result (List ReconcileAnomaly)
reconcile rs os s = reported rs s >>= (λ found. ok (
    map (λ d. record { session_id = s; destination = d })
      (sort str_leb (keep (λ d. not (is_reported d found)) (observed os s)))))
