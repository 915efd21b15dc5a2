-- ===== src/Seam/Token.antt =====
-- mcp/seam.py: what names an instance, a round and the HTTP header of a session (§6.4).
pub mod RoundTrip
use auditable_mcp_sdk_python.Base.{
  ℕ, zero, suc, ◌*◌, ◌/◌, ◌%◌, ◌+◌, Bool, true, false, ◌&&◌, not, Option, none, some, List, [], ◌∷◌,
  ◌++◌, leb, nat_eq, Str, text, str_eq, Str_eq, if◌then◌else◌,
}
use auditable_mcp_sdk_python.Base.Lists.{length, keep}
use auditable_mcp_sdk_python.Base.Dict.{Dict, insert}
use auditable_mcp_sdk_python.Json.{Json, str}
use auditable_mcp_sdk_python.Models.Pattern.{in_ranges}

-- `[A-Za-z0-9_-]`
unfoldable pub is_token_char : ℕ → Bool
unfolding in_ranges
is_token_char =
    in_ranges ((b'A', b'Z') ∷ (b'a', b'z') ∷ (b'0', b'9') ∷ (b'_', b'_') ∷ (b'-', b'-') ∷ [])

unfoldable pub all_token_chars : Str → Bool
all_token_chars [] = true
all_token_chars (c ∷ s) = is_token_char c && all_token_chars s

-- INSTANCE_PATTERN, `[A-Za-z0-9_-]{1,64}`
unfoldable pub is_instance : Str → Bool
is_instance s = all_token_chars s && leb 1 (length s) && leb (length s) 64

-- _ROUND_SECRET_PATTERN, `[A-Za-z0-9_-]{43}`
unfoldable pub is_secret : Str → Bool
is_secret s = all_token_chars s && nat_eq (length s) 43

-- ROUND_TOKEN_PREFIX
abbrev pub round_token_prefix : Str
round_token_prefix = text "amcp."

-- ID_PREFIX
abbrev pub id_prefix : Str
id_prefix = text "amcp-"

-- AFFINITY_HEADER
abbrev pub affinity_header : Str
affinity_header = text "Auditable-Mcp-Session"

-- `s[len(prefix):] if s.startswith(prefix)`
unfoldable pub after_prefix : Str → Str → Option Str
after_prefix [] s = some s
after_prefix (p ∷ ps) [] = none
after_prefix (p ∷ ps) (c ∷ s) = let rest = after_prefix ps s in if nat_eq p c then rest else none

-- `s.partition('.')`; `none` where there is no separator
unfoldable pub partition_dot : Str → Option (Str × Str)
partition_dot [] = none
partition_dot (c ∷ s) =
    let rest : Option (Str × Str) = elim (partition_dot s) [
      | none ↦ none
      | some p ↦ some (c ∷ p.0, p.1)
    ] in
    if nat_eq c b'.' then some ([], s) else rest

-- `none` where the code raises ValueError
unfoldable pub check_instance : Str → Option Str
check_instance s = if is_instance s then some s else none

-- The token of a round, as `_end_round` writes it.
unfoldable pub round_token : Str → Str → Str
round_token instance secret = round_token_prefix ++ instance ++ text "." ++ secret

abbrev pub named_instance : Option (Str × Str) → Option Str
named_instance none = none
named_instance (some p) = if is_instance p.0 && is_secret p.1 then some p.0 else none

abbrev pub instance_after : Option Str → Option Str
unfolding partition_dot
instance_after none = none
instance_after (some rest) = named_instance (partition_dot rest)

unfoldable pub round_token_instance : Option Json → Option Str
unfolding after_prefix partition_dot
round_token_instance (some (str s)) = instance_after (after_prefix round_token_prefix s)
round_token_instance _ = none

-- `request_state.startswith(ROUND_TOKEN_PREFIX)` of a string
abbrev pub claims_round : Option Json → Option Str
claims_round (some (str s)) = elim (after_prefix round_token_prefix s) [
  | none ↦ none
  | some _ ↦ some s
]
claims_round _ = none

-- `str(n)` of a number
unfoldable digits : ℕ → ℕ → Str → Str
digits zero n s = s
digits (suc f) n s =
    let s' = (b'0' + n % 10) ∷ s in
    let more = digits f (n / 10) s' in if nat_eq (n / 10) 0 then s' else more

unfoldable pub decimal : ℕ → Str
unfolding digits
decimal n = digits (suc n) n []

-- `lower` is `str.lower`; the headers that spell the name otherwise go
unfoldable pub with_affinity_header : (Str → Str) → Dict Str Str → Str → Dict Str Str
with_affinity_header lower headers session_id =
    insert affinity_header session_id
      (keep (λ (h : Str × Str). not (str_eq (lower h.0) (lower affinity_header))) headers)
