-- ===== src/Canonical.antt =====
-- canonical.py: the domain in which RFC 8785 canonicalization is the same everywhere, and the
-- canonical form. `rfc8785.dumps` and `hashlib.sha256` are third-party code: the record `Jcs`
-- stands for them.
pub mod Domain
use auditable_mcp_sdk_python.Base.{
  ℕ, ◌-◌, ◌^◌, Bool, true, false, not, ◌&&◌, ◌||◌, Option, none, some, [], ◌∷◌, ◌++◌, ltb, leb, Str,
  text, if◌then◌else◌,
}
use auditable_mcp_sdk_python.Json.{
  magnitude, Float, nan, infinite, integral, fraction, Json, null, bool, int, float, str, arr, obj,
  Items, nil, cons, Fields, end, field,
}

-- MAX_SAFE_INTEGER
abbrev pub max_safe_integer : ℕ
max_safe_integer = 2 ^ 53 - 1

unfoldable pub unsafe_float : Float → Bool
unsafe_float nan = true
unsafe_float (infinite _) = true
unsafe_float (integral z) = ltb max_safe_integer (magnitude z)
unsafe_float (fraction _ _) = false

unfoldable mutual
  pub has_unsafe_number : Json → Bool
  has_unsafe_number null = false
  has_unsafe_number (bool _) = false
  has_unsafe_number (int z) = ltb max_safe_integer (magnitude z)
  has_unsafe_number (float f) = unsafe_float f
  has_unsafe_number (str _) = false
  has_unsafe_number (arr xs) = unsafe_items xs
  has_unsafe_number (obj fs) = unsafe_fields fs

  pub unsafe_items : Items → Bool
  unsafe_items nil = false
  unsafe_items (cons v xs) = has_unsafe_number v || unsafe_items xs

  pub unsafe_fields : Fields → Bool
  unsafe_fields end = false
  unsafe_fields (field _ v fs) = has_unsafe_number v || unsafe_fields fs

-- `_LONE_SURROGATE.search(s) is not None`
unfoldable pub surrogate_in : Str → Bool
surrogate_in [] = false
surrogate_in (c ∷ s) = leb 0xd800 c && leb c 0xdfff || surrogate_in s

unfoldable mutual
  pub has_lone_surrogate : Json → Bool
  has_lone_surrogate (str s) = surrogate_in s
  has_lone_surrogate (obj fs) = surrogate_fields fs
  has_lone_surrogate (arr xs) = surrogate_items xs
  has_lone_surrogate null = false
  has_lone_surrogate (bool _) = false
  has_lone_surrogate (int _) = false
  has_lone_surrogate (float _) = false

  pub surrogate_items : Items → Bool
  surrogate_items nil = false
  surrogate_items (cons v xs) = has_lone_surrogate v || surrogate_items xs

  pub surrogate_fields : Fields → Bool
  surrogate_fields end = false
  surrogate_fields (field k v fs) = surrogate_in k || has_lone_surrogate v || surrogate_fields fs

unfoldable pub outside_canonical_domain : Json → Bool
outside_canonical_domain v = has_unsafe_number v || has_lone_surrogate v

-- `rfc8785.dumps`, decoded from UTF-8 (`none` where it raises), and `sha256(...).hexdigest()`.
pub record Jcs : Type 0 where
  pub dumps : Json → Option Str
  pub digest_hex : Str → Str

-- `none` where the code raises `CanonicalizationError`.
unfoldable pub canonicalize : Jcs → Json → Option Str
canonicalize c v =
    if has_unsafe_number v then none else if has_lone_surrogate v then none else c.dumps v

unfoldable pub sha256_hex : Jcs → Str → Str
sha256_hex c s = c.digest_hex s

-- `hash_canonical`
unfoldable pub hash_canonical : Jcs → Json → Option Str
unfolding canonicalize sha256_hex
hash_canonical c v = elim (canonicalize c v) [
  | none ↦ none
  | some s ↦ some (text "sha256:" ++ sha256_hex c s)
]
