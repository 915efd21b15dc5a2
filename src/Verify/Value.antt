-- ===== src/Verify/Value.antt =====
-- Python's `==` and hash on the values that the verifier puts in sets and compares.
use auditable_mcp_sdk_python.Base.{
  Bool, true, false, ◌&&◌, ◌||◌, Option, none, some, List, [], ◌∷◌, nat_eq, str_eq,
}
use auditable_mcp_sdk_python.Json.{
  ℤ, pos, negsuc, Float, infinite, integral, fraction, Json, null, bool, int, float, str, arr, obj,
}

-- A list or a dict has no hash: a set or a lookup of it raises `TypeError`.
unfoldable pub hashable : Json → Bool
hashable (arr _) = false
hashable (obj _) = false
hashable _ = true

abbrev pub ℤ_eq : ℤ → ℤ → Bool
ℤ_eq (pos a) (pos b) = nat_eq a b
ℤ_eq (negsuc a) (negsuc b) = nat_eq a b
ℤ_eq _ _ = false

abbrev bool_eq : Bool → Bool → Bool
bool_eq true b = b
bool_eq false true = false
bool_eq false false = true

-- `True`, `1` and `1.0` are equal; nan is equal to nothing.
abbrev number_of : Json → Option Float
number_of (bool true) = some (integral (pos 1))
number_of (bool false) = some (integral (pos 0))
number_of (int z) = some (integral z)
number_of (float f) = some f
number_of _ = none

abbrev float_eq : Float → Float → Bool
float_eq (integral a) (integral b) = ℤ_eq a b
float_eq (infinite a) (infinite b) = bool_eq a b
float_eq (fraction a e) (fraction b f) = ℤ_eq a b && nat_eq e f
float_eq _ _ = false

abbrev numbers_eq : Option Float → Option Float → Bool
numbers_eq (some a) (some b) = float_eq a b
numbers_eq _ _ = false

-- `a == b` where one of the two is no list and no dict
unfoldable pub scalar_eq : Json → Json → Bool
scalar_eq null null = true
scalar_eq (str s) (str t) = str_eq s t
scalar_eq a b = numbers_eq (number_of a) (number_of b)

-- The pair of a scope and an id, by which an outcome is correlated with its attempt.
abbrev pub Key : Type 0
Key = Json × Json

abbrev pub key_eq : Key → Key → Bool
key_eq p q = scalar_eq p.0 q.0 && scalar_eq p.1 q.1

unfoldable pub key_in : Key → List Key → Bool
key_in k [] = false
key_in k (j ∷ js) = key_eq k j || key_in k js

abbrev pub hashable_key : Key → Bool
hashable_key k = hashable k.0 && hashable k.1

-- A missing member is `None`.
abbrev pub or_null : Option Json → Json
or_null none = null
or_null (some v) = v
