-- ===== src/Keys/Words.antt =====
-- Python's `int.to_bytes` and `int.from_bytes`, big-endian.
use auditable_mcp_sdk_python.Base.{
  ℕ, zero, suc, ◌+◌, ◌*◌, ◌/◌, ◌%◌, ◌^◌, ◌<◌, ◌≡◌, refl, [], ◌∷◌, ◌++◌, arith, ltb, ltb_iff, Option,
  none, some, if◌then◌else◌,
}
use native.Mathlib.Numerals.{unary_clauses}
use auditable_mcp_sdk_python.Base.Lists.{length, length-append}
use auditable_mcp_sdk_python.Encoding.{Bytes}
use auditable_mcp_sdk_python.Encoding.RoundTrip.{IsBytes}

-- The low `n` bytes of a number.
unfoldable pub low_bytes : ℕ → ℕ → Bytes
low_bytes zero x = []
low_bytes (suc n) x = low_bytes n (x / 256) ++ (x % 256) ∷ []

unfoldable pub from_bytes : ℕ → Bytes → ℕ
from_bytes x [] = x
from_bytes x (b ∷ raw) = from_bytes (x * 256 + b) raw

-- `x.to_bytes(n, 'big')`; `none` where it raises OverflowError
unfoldable pub to_bytes : ℕ → ℕ → Option Bytes
to_bytes n x = if ltb x (256 ^ n) then some (low_bytes n x) else none

-- `int.from_bytes(raw, 'big')`
unfoldable pub int_of : Bytes → ℕ
int_of raw = from_bytes 0 raw

pub length-low_bytes : (n x : ℕ) → length (low_bytes n x) ≡ n
unfolding low_bytes
length-low_bytes zero x = refl
length-low_bytes (suc n) x =
    omega
      (arith, length-append (low_bytes n (x / 256)) ((x % 256) ∷ []), length-low_bytes n (x / 256))

IsBytes-append : (s : Bytes) (b : ℕ) → IsBytes s → b < 256 → IsBytes (s ++ b ∷ [])
IsBytes-append [] b h k = (k, tt)
IsBytes-append (a ∷ s) b h k = (h.0, IsBytes-append s b h.1 k)

pub low_bytes-IsBytes : (n x : ℕ) → IsBytes (low_bytes n x)
unfolding low_bytes
low_bytes-IsBytes zero x = tt
low_bytes-IsBytes (suc n) x =
    IsBytes-append (low_bytes n (x / 256)) (x % 256) (low_bytes-IsBytes n (x / 256)) (omega arith)

from_bytes-append :
    (x : ℕ) (s : Bytes) (b : ℕ) → from_bytes x (s ++ b ∷ []) ≡ from_bytes x s * 256 + b
unfolding from_bytes
from_bytes-append x [] b = refl
from_bytes-append x (a ∷ s) b = from_bytes-append (x * 256 + a) s b

-- A number that fits is read back.
pub int_of-low_bytes : (n x : ℕ) → x < 256 ^ n → int_of (low_bytes n x) ≡ x
unfolding int_of low_bytes from_bytes
int_of-low_bytes zero x h = omega arith
int_of-low_bytes (suc n) x h =
    let wide : x < 256 ^ n * 256 = simp unary_clauses at h in
    let fits : x / 256 < 256 ^ n = omega arith in
    let back = int_of-low_bytes n (x / 256) fits in
    rw (from_bytes-append 0 (low_bytes n (x / 256)) (x % 256), back) (omega arith)

pub to_bytes_lem : (n x : ℕ) → x < 256 ^ n → to_bytes n x ≡ some (low_bytes n x)
unfolding to_bytes
to_bytes_lem n x h = rw ((ltb_iff x (256 ^ n)).1 h) refl
