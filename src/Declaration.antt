-- ===== src/Declaration.antt =====
-- mcp/declaration.py: the audit capability in the `extensions` member of a capabilities object as it
-- travels (§6.1).
pub mod RoundTrip
use auditable_mcp_sdk_python.Base.{
  ◌≡◌, ◌≢◌, refl, ℕ, Bool, Option, none, some, Str, text, str_eq, str_eq_iff, if◌then◌else◌, arith,
}
use auditable_mcp_sdk_python.Json.{Json, obj, Fields, end, field, get, put}
use auditable_mcp_sdk_python.Models.{AuditCapability}
use auditable_mcp_sdk_python.Models.Message.{extension_id, capability_to_wire, read_capability}

-- EXTENSIONS_MEMBER
abbrev pub extensions_member : Str
extensions_member = text "extensions"

abbrev object_of : Option Json → Fields
object_of (some (obj fs)) = fs
object_of _ = end

-- `_extensions`
unfoldable pub extensions : Option Json → Fields
extensions (some (obj fs)) = object_of (get extensions_member fs)
extensions _ = end

unfoldable pub declare_into : Fields → AuditCapability → Fields
unfolding extensions
declare_into capabilities c =
    let merged =
      put extension_id (obj (capability_to_wire c)) (extensions (some (obj capabilities))) in
    put extensions_member (obj merged) capabilities

unfoldable pub capability_of : (ℕ → Bool) → Option Json → Option AuditCapability
unfolding extensions read_capability
capability_of d capabilities = elim (get extension_id (extensions capabilities)) [
  | none ↦ none
  | some declared ↦ read_capability d declared
]

pub get-put :
    (j k : Str) (v : Json) (fs : Fields)
    → get j (put k v fs) ≡ (if str_eq j k then some v else get j fs)
unfolding get put
get-put j k v end = refl
get-put j k v (field i w fs) =
    ground (arith, get-put j k v fs, str_eq_iff j k, str_eq_iff k i, str_eq_iff j i)
