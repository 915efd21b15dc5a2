-- ===== src/Json.antt =====
-- The JSON-compatible Python values that events are made of (`dict[str, object]`, `list`, `str`,
-- `int`, `float`, `bool`, `None`), and the reads that the program makes of them.
use auditable_mcp_sdk_python.Base.{
  ℕ, zero, suc, Bool, true, false, Option, none, some, [], Str, str_eq, if◌then◌else◌,
}

-- A Python `int`: `negsuc n` is -(n + 1).
pub data ℤ : Type 0 where
  pos : ℕ → ℤ
  negsuc : ℕ → ℤ

-- `abs(z)`
abbrev pub magnitude : ℤ → ℕ
magnitude (pos n) = n
magnitude (negsuc n) = suc n

-- A Python `float`: not a number, an infinity, a finite value that is an integer, or the odd
-- numerator and the exponent of a finite one that is not.
pub data Float : Type 0 where
  nan : Float
  infinite : Bool → Float
  integral : ℤ → Float
  fraction : ℤ → ℕ → Float

mutual
  pub data Json : Type 0 where
    null : Json
    bool : Bool → Json
    int : ℤ → Json
    float : Float → Json
    str : Str → Json
    arr : Items → Json
    obj : Fields → Json

  pub data Items : Type 0 where
    nil : Items
    cons : Json → Items → Items

  pub data Fields : Type 0 where
    end : Fields
    field : Str → Json → Fields → Fields

-- `fields.get(key)`
unfoldable pub get : Str → Fields → Option Json
get k end = none
get k (field j v fs) = if str_eq k j then some v else get k fs

-- `{key: value for key, value in fields.items() if key != k}`
unfoldable pub without : Str → Fields → Fields
without k end = end
without k (field j v fs) = let rest = without k fs in if str_eq j k then rest else field j v rest

-- `{**fields, k: v}`
unfoldable pub put : Str → Json → Fields → Fields
put k v end = field k v end
put k v (field j w fs) = if str_eq k j then field j v fs else field j w (put k v fs)

-- `v if isinstance(v, str) else None`
abbrev pub as_str : Option Json → Option Str
as_str (some (str s)) = some s
as_str _ = none

-- `fields.get(key)` where the value is a string
unfoldable pub get_str : Str → Fields → Option Str
unfolding get
get_str k fs = as_str (get k fs)

-- `v == s` for a string `s`
abbrev pub is_str : Option Json → Str → Bool
is_str (some (str t)) s = str_eq t s
is_str _ s = false

-- `bool(v)`; a missing member is `None`
unfoldable pub truthy : Option Json → Bool
truthy none = false
truthy (some null) = false
truthy (some (bool b)) = b
truthy (some (int (pos zero))) = false
truthy (some (int _)) = true
truthy (some (float (integral (pos zero)))) = false
truthy (some (float _)) = true
truthy (some (str [])) = false
truthy (some (str _)) = true
truthy (some (arr nil)) = false
truthy (some (arr _)) = true
truthy (some (obj end)) = false
truthy (some (obj _)) = true
