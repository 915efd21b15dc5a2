-- ===== src/Base/Result.antt =====
-- What a call gives back: a value, or the exception that it raises.
use mathlib.Core.Path.{◌≡◌, refl}
use mathlib.Core.Bool.{Bool, true, false}
use auditable_mcp_sdk_python.Base.Tests.{if◌then◌else◌}

pub data Exception : Type 0 where
  value_error type_error canonicalization_error runtime_error : Exception
  repository_error other_error cancelled : Exception

pub data Result {ℓ} (A : Type ℓ) : Type ℓ where
  ok : A → Result A
  raised : Exception → Result A

infixl 5 ◌>>=◌
abbrev pub ◌>>=◌ {ℓ κ} : {A : Type ℓ} {B : Type κ} → Result A → (A → Result B) → Result B
raised e >>= next = raised e
ok a >>= next = next a

module _ {ℓ κ} {A : Type ℓ} {B : Type κ} where
  -- A chain that returns: its first step returned, and the rest did.
  pub >>=-eq-ok :
      (m : Result A) (next : A → Result B) {b : B}
      → (m >>= next) ≡ ok b
      → (a : A) × (m ≡ ok a) × (next a ≡ ok b)
  >>=-eq-ok (raised e) next h = cc
  >>=-eq-ok (ok a) next h = (a, refl, h)

-- A test that raises was not met where the call returned.
pub unraised {ℓ} :
    {A : Type ℓ} (b : Bool) (x : Exception) (m : Result A) {r : A}
    → (if b then raised x else m) ≡ ok r
    → m ≡ ok r
unraised true x m e = cc
unraised false x m e = e
