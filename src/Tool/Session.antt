-- ===== src/Tool/Session.antt =====
-- session.py: `AmcpSession` and `AuditedAction`, as they are made.
use auditable_mcp_sdk_python.Base.{
  ℕ, Bool, true, false, not, ◌&&◌, ◌||◌, Option, none, some, ◌∷◌, Str, str_eq, if◌then◌else◌,
}
use auditable_mcp_sdk_python.Json.{Json, null, str, obj, Fields, end, field, get}
use auditable_mcp_sdk_python.Fields
use auditable_mcp_sdk_python.Canonical.{hash_canonical, has_lone_surrogate}
use auditable_mcp_sdk_python.Models.Pattern.{matches, session_id_pattern}
use auditable_mcp_sdk_python.SaltedHash.{new_salt, disclosure_of, salted_hash_of}
use auditable_mcp_sdk_python.Tool.World.{
  usage_error, value_error, Ended, returned, failed, Call, Seams, ◌>>=◌,
}

pub record AmcpSession : Type 0 where
  pub session_id : Str
  pub has_signer : Bool
  pub polluted_stop : Bool
  pub has_verifier : Bool
  pub require_countersign : Bool

-- `required if polluted_stop is None else polluted_stop`
abbrev pub stop_or : Bool → Option Bool → Bool
stop_or required none = required
stop_or required (some chosen) = chosen

abbrev switched_off : Option Bool → Bool
switched_off (some false) = true
switched_off _ = false

-- `AmcpSession.__init__`
unfoldable pub new_amcp_session :
    (ℕ → Bool) → Str → Bool → Option Bool → Bool → Bool → Ended AmcpSession
new_amcp_session digit session_id has_signer polluted_stop has_verifier require_countersign =
    if not (matches digit session_id_pattern session_id)
    then failed usage_error
    else if require_countersign && not has_verifier
    then failed value_error
    else if switched_off polluted_stop && has_signer
    then failed value_error
    else if switched_off polluted_stop && require_countersign
    then failed value_error
    else returned (record {
      session_id = session_id;
      has_signer = has_signer;
      polluted_stop = stop_or (has_signer || require_countersign) polluted_stop;
      has_verifier = has_verifier;
      require_countersign = require_countersign;
    })

pub record TargetResource : Type 0 where
  pub kind : Str
  pub ref : Str
  pub scope_hint : Option Str

-- The caller's `TargetResource`, or a dict to make one of.
pub data TargetInput : Type 0 where
  resource : TargetResource → TargetInput
  members : Fields → TargetInput

pub record AuditedAction : Type 0 where
  pub id : Str
  pub action_type : Str
  pub target : TargetResource
  pub mutates : Bool
  pub egress : Bool
  pub disclose : Option Fields
  pub commit_hash : Option Str
  pub disclosure : Option Str
  pub salted_hash : Option Str

-- No member but the three that the model declares.
target_closed : Fields → Bool
target_closed end = true
target_closed (field k v fs) =
    (str_eq k Fields.kind || str_eq k Fields.ref || str_eq k Fields.scope_hint) && target_closed fs

abbrev hinted : Str → Str → Option Json → Option TargetResource
hinted kind ref none = some (record { kind = kind; ref = ref; scope_hint = none })
hinted kind ref (some null) = some (record { kind = kind; ref = ref; scope_hint = none })
hinted kind ref (some (str s)) = some (record { kind = kind; ref = ref; scope_hint = some s })
hinted kind ref _ = none

abbrev target_of : Option Json → Option Json → Option Json → Option TargetResource
target_of (some (str (c ∷ kind))) (some (str (d ∷ ref))) hint = hinted (c ∷ kind) (d ∷ ref) hint
target_of _ _ _ = none

-- `TargetResource.model_validate` of a dict; `none` where it raises.
unfoldable pub read_target : Fields → Option TargetResource
unfolding target_closed
read_target fs =
    if has_lone_surrogate (obj fs) || not (target_closed fs)
    then none
    else target_of (get Fields.kind fs) (get Fields.ref fs) (get Fields.scope_hint fs)

abbrev pub given : TargetInput → Option TargetResource
given (resource t) = some t
given (members fs) = read_target fs

abbrev or_value_error : {A : Type 0} → Option A → Ended A
or_value_error none = failed value_error
or_value_error (some a) = returned a

module _ {W : Type 0} (seams : Seams W) where
  -- `hash_canonical(commit) if commit is not None else None`
  unfoldable pub commit_hash_of : Json → Call W (Option Str)
  commit_hash_of null w = (returned none, w)
  commit_hash_of commit w = elim (hash_canonical seams.jcs commit) [
    | none ↦ (failed value_error, w)
    | some h ↦ (returned (some h), w)
  ]

  unfoldable pub new_disclosure : Option Fields → Call W (Option Str)
  new_disclosure none w = (returned none, w)
  new_disclosure (some context) w =
      let (random, w') = seams.token_bytes w in
      elim (disclosure_of seams.packages (new_salt random) context) [
        | none ↦ (failed value_error, w')
        | some d ↦ (returned (some d), w')
      ]

  abbrev pub hash_disclosed : Option Str → Option Str
  hash_disclosed none = none
  hash_disclosed (some d) = some (salted_hash_of seams.packages d)

  -- `AmcpSession.action`, with `AuditedAction.__init__`
  unfoldable pub action :
      Str → TargetInput → Bool → Bool → Option Fields → Json → Option Fields → Call W AuditedAction
  action action_type target mutates egress disclose commit commit_salted =
      (λ w. (or_value_error (given target), w)) >>= (λ t.
        (λ w. let (id, w') = seams.new_id w in (returned id, w')) >>= (λ id.
          commit_hash_of commit >>= (λ committed. new_disclosure commit_salted >>= (λ disclosure.
            λ w. (
              returned (record {
                id = id;
                action_type = action_type;
                target = t;
                mutates = mutates;
                egress = egress;
                disclose = disclose;
                commit_hash = committed;
                disclosure = disclosure;
                salted_hash = hash_disclosed disclosure;
              }),
              w,
            )))))
