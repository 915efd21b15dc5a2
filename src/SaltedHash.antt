-- ===== src/SaltedHash.antt =====
-- salted_hash.py: the salted hash of an internal context. `json`, the UTF-8 codec and SHA-256 are
-- packages: the record `Packages` stands for them.
pub mod Opening
use auditable_mcp_sdk_python.Base.{Bool, Option, none, some, Str, str_eq, if◌then◌else◌}
use auditable_mcp_sdk_python.Json.{Json, str, arr, obj, nil, cons, Fields}
use auditable_mcp_sdk_python.Encoding.{Bytes, b64url_encode, decode_url}

pub record Packages : Type 0 where
  -- `json.dumps(value, ensure_ascii=False, separators=(',', ':')).encode('utf-8')`; `none` where it
  -- raises.
  pub dumps : Json → Option Bytes
  -- `json.loads(raw.decode('utf-8'))`; `none` where it raises.
  pub loads : Bytes → Option Json
  -- `sha256(text.encode('ascii')).digest()`
  pub sha256 : Str → Bytes

unfoldable pub new_salt : Bytes → Str
new_salt random = b64url_encode random

-- `[salt, context]`
abbrev pub salted : Str → Fields → Json
salted salt context = arr (cons (str salt) (cons (obj context) nil))

abbrev pub encoded : Option Bytes → Option Str
encoded none = none
encoded (some raw) = some (b64url_encode raw)

-- `none` where it raises.
unfoldable pub disclosure_of : Packages → Str → Fields → Option Str
disclosure_of p salt context = encoded (p.dumps (salted salt context))

unfoldable pub salted_hash_of : Packages → Str → Str
salted_hash_of p disclosure = b64url_encode (p.sha256 disclosure)

-- The context of a two-element array of a string and an object.
abbrev pub context_of : Option Json → Option Fields
context_of (some (arr (cons (str salt) (cons (obj context) nil)))) = some context
context_of _ = none

unfoldable pub open_raw : Packages → Str → Str → Option Bytes → Option Fields
open_raw p disclosure salted_hash none = none
open_raw p disclosure salted_hash (some raw) =
    if str_eq (salted_hash_of p disclosure) salted_hash then context_of (p.loads raw) else none

unfoldable pub open_salted_hash : Packages → Str → Str → Option Fields
open_salted_hash p disclosure salted_hash =
    open_raw p disclosure salted_hash (decode_url disclosure)
