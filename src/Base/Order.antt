-- ===== src/Base/Order.antt =====
-- Python's `<=` on text, by code points.
use mathlib.Core.Path.{◌≡◌, refl}
use native.Mathlib.Omega.{arith}
use mathlib.Core.Bool.{Bool, true, false}
use mathlib.Core.List.{[], ◌∷◌}
use auditable_mcp_sdk_python.Base.Tests.{ltb, if◌then◌else◌}
use auditable_mcp_sdk_python.Base.Equality.{Str}

unfoldable pub str_leb : Str → Str → Bool
str_leb [] t = true
str_leb (a ∷ s) [] = false
str_leb (a ∷ s) (b ∷ t) = if ltb a b then true else if ltb b a then false else str_leb s t

-- Of two texts, one is at most the other.
pub str_leb_total : (s t : Str) → str_leb s t ≡ false → str_leb t s ≡ true
unfolding str_leb
str_leb_total [] t h = ground arith
str_leb_total (a ∷ s) [] h = refl
str_leb_total (a ∷ s) (b ∷ t) h = ground (arith, str_leb_total s t)
