-- ===== src/Verify/Accounting.antt =====
-- verify.py: the accounting of `signer_seq` over the sealed events of one partition (§11.4).
use auditable_mcp_sdk_python.Base.{
  ℕ, ◌+◌, ◌-◌, Bool, not, ◌&&◌, ◌||◌, Option, none, some, List, [], ◌∷◌, ◌++◌, Str, text, ltb, leb,
  if◌then◌else◌, Str_eq, Pair_eq, ℕ_eq,
}
use auditable_mcp_sdk_python.Base.Lists.{add, sort}
use auditable_mcp_sdk_python.Base.Dict.{Dict, insert, get_or}
use auditable_mcp_sdk_python.Base.Result.{Result, ok, raised, type_error, ◌>>=◌}
use auditable_mcp_sdk_python.Json.{
  pos, integral, Json, int, float, obj, Fields, get, get_str, is_str,
}
use auditable_mcp_sdk_python.Fields
use auditable_mcp_sdk_python.Canonical.{max_safe_integer}
use auditable_mcp_sdk_python.Models.{outcome_value, attempted, aborted}
use auditable_mcp_sdk_python.Verify.Value.{Key, key_in, hashable_key, hashable, or_null}

-- `_count`
unfoldable pub count_of : Option Json → Option ℕ
count_of (some (int (pos n))) = if leb n max_safe_integer then some n else none
count_of (some (float (integral (pos n)))) = if leb n max_safe_integer then some n else none
count_of _ = none

-- A key and a session, and the number.
abbrev pub Number : Type 0
Number = (Str × Str) × ℕ

-- `_numbered`
unfoldable pub numbered_of : Fields → Option Number
unfolding count_of get_str
numbered_of event = elim (get_str Fields.key_id event) [
  | none ↦ none
  | some k ↦ elim (get_str Fields.session_id event) [
    | none ↦ none
    | some s ↦ elim (count_of (get Fields.signer_seq event)) [
      | none ↦ none
      | some n ↦ some ((k, s), n)
    ]
  ]
]

-- An inclusive run of values.
abbrev pub Run : Type 0
Run = ℕ × ℕ

-- The runs of values from `following` on that are missing before each value.
unfoldable pub runs_from : ℕ → List ℕ → List Run
runs_from following [] = []
runs_from following (v ∷ vs) =
    let rest = runs_from (v + 1) vs in if ltb following v then (following, v - 1) ∷ rest else rest

-- `_missing_runs`, of a set as a list
unfoldable pub missing_runs : List ℕ → List Run
missing_runs present = runs_from 0 (sort leb present)

-- A refusal accounts for the smallest missing value below its own: always the first of the first
-- run.
unfoldable pub account : List Run → ℕ → List Run
account [] refusal = []
account ((first, last) ∷ runs) refusal =
    if leb refusal first
    then (first, last) ∷ runs
    else if ltb last (first + 1)
    then runs
    else (first + 1, last) ∷ runs

unfoldable pub account_all : List Run → List ℕ → List Run
account_all runs [] = runs
account_all runs (r ∷ rs) = account_all (account runs r) rs

-- A numbered event of a group, and whether a sealed attempt before it correlates.
pub record Sealed : Type 0 where
  pub signer_seq : ℕ
  pub event : Fields
  pub correlated : Bool

abbrev pub Groups : Type 0
Groups = Dict (Str × Str) (List Sealed)

-- `groups.setdefault(...).append(...)`
unfoldable pub add_to_group : Fields → Bool → Groups → Groups
add_to_group event correlated groups = elim (numbered_of event) [
  | none ↦ groups
  | some (who, n) ↦
      insert who
        (get_or who [] groups
          ++ record { signer_seq = n; event = event; correlated = correlated } ∷ [])
        groups
]

abbrev pub correlation_key : Fields → Key
correlation_key event = (or_null (get Fields.session_id event), or_null (get Fields.id event))

abbrev pub is_attempt : Fields → Bool
is_attempt event = is_str (get Fields.outcome event) (outcome_value attempted)

-- The first loop of `unaccounted_signer_seq`; an event that is no mapping is passed over.
unfoldable pub group : List Json → List Key → Groups → Result Groups
group [] attempts groups = ok groups
group (obj event ∷ events) attempts groups =
    let k = correlation_key event in
    let rest =
      group events (if is_attempt event then k ∷ attempts else attempts)
        (add_to_group event (key_in k attempts) groups) in
    if hashable_key k then rest else raised type_error
group (_ ∷ events) attempts groups = group events attempts groups

-- `event.get(REASON) in _REFUSAL_REASONS`
unfoldable pub refusal_reason : Json → Bool
refusal_reason v =
    is_str (some v) (text "host-rejected") || is_str (some v) (text "host-unavailable")

unfoldable pub refusals : List Sealed → Result (List ℕ)
refusals [] = ok []
refusals (s ∷ group) =
    let reason = or_null (get Fields.reason s.event) in
    let rest = refusals group in
    if not (is_str (get Fields.outcome s.event) (outcome_value aborted))
    then rest
    else if not (hashable reason)
    then raised type_error
    else if refusal_reason reason && not s.correlated
    then (rest >>= λ rs. ok (s.signer_seq ∷ rs))
    else rest

unfoldable pub present_in : List Sealed → List ℕ
present_in [] = []
present_in (s ∷ group) = add s.signer_seq (present_in group)

pub record UnaccountedSignerSeq : Type 0 where
  pub key_id : Str
  pub session_id : Str
  pub first : ℕ
  pub last : ℕ

unfoldable pub gaps_of : Str × Str → List Run → List UnaccountedSignerSeq
gaps_of who [] = []
gaps_of who ((a, b) ∷ runs) =
    record { key_id = who.0; session_id = who.1; first = a; last = b } ∷ gaps_of who runs

-- The second loop.
unfoldable pub account_groups : Groups → Result (List UnaccountedSignerSeq)
account_groups [] = ok []
account_groups ((who, group) ∷ groups) =
    let rest = account_groups groups in
    refusals group >>= λ rs. rest >>= λ gaps.
    ok (gaps_of who (account_all (missing_runs (present_in group)) (sort leb rs)) ++ gaps)

unfoldable pub unaccounted_signer_seq : List Json → Result (List UnaccountedSignerSeq)
unaccounted_signer_seq events = group events [] [] >>= account_groups
