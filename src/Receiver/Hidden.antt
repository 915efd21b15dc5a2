-- ===== src/Receiver/Hidden.antt =====
-- What the host's caller sees of a result.
use auditable_mcp_sdk_python.Base.{
  ◌≡◌, ◌≢◌, ◌∙◌, refl, sym, ap, Option, none, some, List, [], Str, Str_eq, str_eq_iff,
  if◌then◌else◌, arith,
}
use auditable_mcp_sdk_python.Base.Equality.{str_eq}
use auditable_mcp_sdk_python.Json.{
  Json, null, bool, int, float, str, arr, obj, Fields, end, field, get, put, without,
}
use auditable_mcp_sdk_python.Models.Message.{extension_id}
use auditable_mcp_sdk_python.Seam.Frame.{meta}
use auditable_mcp_sdk_python.Declaration.{get-put}
use auditable_mcp_sdk_python.Receiver.{
  without_audit, without_extension, has_none, events_of, carried,
}

get-without :
    (i k : Str) (fs : Fields) → get i (without k fs) ≡ (if str_eq i k then none else get i fs)
unfolding without get
get-without i k end = ground arith
get-without i k (field j v fs) =
    ground
      (arith, get-without i k fs, str_eq_iff i k, str_eq_iff j k, str_eq_iff j i, str_eq_iff i j)

-- A member of the `_meta` of a result, where that is an object.
abbrev pub member_of : Str → Option Json → Option Json
member_of i (some (obj m)) = get i m
member_of i _ = none

-- What the caller is to be shown of a result, with the names j of a member and i of one of its `_meta`.
abbrev pub IsHidden : Str → Str → Fields → Fields → Type 0
IsHidden j i result shown =
    (events_of shown ≡ [])
    × (get j shown ≡ get j result)
    × (member_of i (get meta shown) ≡ member_of i (get meta result))

abbrev shown_meta : Fields → Option Json
shown_meta rest = if has_none rest then none else some (obj rest)

abbrev replaced : Fields → Fields → Fields
replaced rest result = if has_none rest then without meta result else put meta (obj rest) result

get-replaced :
    (j : Str) (rest result : Fields)
    → get j (replaced rest result) ≡ (if str_eq j meta then shown_meta rest else get j result)
get-replaced j end result = get-without j meta result
get-replaced j (field k v fs) result = get-put j meta (obj (field k v fs)) result

-- `_events_of`, of the `_meta` member
abbrev events_in : Option Json → List Json
events_in (some (obj m)) = carried (get extension_id m)
events_in _ = []

events_of-meta : (fs : Fields) (o : Option Json) → get meta fs ≡ o → events_of fs ≡ events_in o
unfolding events_of
events_of-meta fs none h = grind (arith, h)
events_of-meta fs (some (obj m)) h = grind (arith, h)
events_of-meta fs (some null) h = grind (arith, h)
events_of-meta fs (some (bool b)) h = grind (arith, h)
events_of-meta fs (some (int n)) h = grind (arith, h)
events_of-meta fs (some (float x)) h = grind (arith, h)
events_of-meta fs (some (str x)) h = grind (arith, h)
events_of-meta fs (some (arr vs)) h = grind (arith, h)

carried_none : (rest : Fields) → get extension_id rest ≡ none → events_in (shown_meta rest) ≡ []
carried_none end h = refl
carried_none (field k v fs) h = ap carried h

member_shown : (i : Str) (rest : Fields) → member_of i (shown_meta rest) ≡ get i rest
unfolding get
member_shown i end = refl
member_shown i (field k v fs) = refl

extension-IsHidden :
    (j i : Str) (result m : Fields)
    → j ≢ meta
    → i ≢ extension_id
    → get meta result ≡ some (obj m)
    → IsHidden j i result (without_extension m result)
unfolding without str_eq
extension-IsHidden j i result m hj hi h =
    let rest = without extension_id m in
    let shown : get meta (replaced rest result) ≡ shown_meta rest = get-replaced meta rest result in
    let gone : get extension_id rest ≡ none = get-without extension_id extension_id m in
    (
      events_of-meta (replaced rest result) (shown_meta rest) shown ∙ carried_none rest gone,
      ground (arith, get-replaced j rest result, str_eq_iff j meta, hj),
      ap (member_of i) shown
          ∙ member_shown i rest
          ∙ ground (arith, get-without i extension_id m, str_eq_iff i extension_id, hi)
          ∙ sym (ap (member_of i) h),
    )

-- Without a `_meta` object that has the extension's member, the result is shown as it is.
same-IsHidden :
    (j i : Str) (result : Fields) (o : Option Json)
    → get meta result ≡ o
    → events_in o ≡ []
    → IsHidden j i result result
same-IsHidden j i result o h he = (events_of-meta result o h ∙ he, refl, refl)

shown_by :
    (j i : Str) (result m : Fields) (o : Option Json)
    → j ≢ meta
    → i ≢ extension_id
    → get meta result ≡ some (obj m)
    → get extension_id m ≡ o
    → IsHidden j i result (elim o [ none ↦ result | some _ ↦ without_extension m result ])
shown_by j i result m none hj hi h hx = same-IsHidden j i result (some (obj m)) h (ap carried hx)
shown_by j i result m (some x) hj hi h hx = extension-IsHidden j i result m hj hi h

shown_of :
    (j i : Str) (result : Fields) (o : Option Json)
    → j ≢ meta
    → i ≢ extension_id
    → get meta result ≡ o
    → IsHidden j i result (elim o [
      | some (obj m) ↦ elim (get extension_id m) [
        | none ↦ result
        | some _ ↦ without_extension m result
      ]
      | _ ↦ result
    ])
shown_of j i result none hj hi h = same-IsHidden j i result none h refl
shown_of j i result (some (obj m)) hj hi h = shown_by j i result m (get extension_id m) hj hi h refl
shown_of j i result (some null) hj hi h = same-IsHidden j i result (some null) h refl
shown_of j i result (some (bool b)) hj hi h = same-IsHidden j i result (some (bool b)) h refl
shown_of j i result (some (int n)) hj hi h = same-IsHidden j i result (some (int n)) h refl
shown_of j i result (some (float x)) hj hi h = same-IsHidden j i result (some (float x)) h refl
shown_of j i result (some (str x)) hj hi h = same-IsHidden j i result (some (str x)) h refl
shown_of j i result (some (arr vs)) hj hi h = same-IsHidden j i result (some (arr vs)) h refl

-- The host's caller is shown a tool's result without the audit events that it carried, whatever the
-- result is, and with everything else: each other member of the result, and each member of its
-- `_meta` but the extension's.
pub without_audit-IsHidden :
    (j i : Str) (result : Fields)
    → j ≢ meta
    → i ≢ extension_id
    → IsHidden j i result (without_audit result)
unfolding without_audit
without_audit-IsHidden j i result hj hi = shown_of j i result (get meta result) hj hi refl
