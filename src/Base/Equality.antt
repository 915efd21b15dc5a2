-- ===== src/Base/Equality.antt =====
-- Python's `==` on the values that the program compares: an interface with one law, and its
-- instances for numbers, text, pairs and optional values.
use Prim.Native.Nat.{ℕ}
use Prim.Native.Char.{code}
use Prim.Native.String.{String}
use mathlib.Core.Path.{◌≡◌, refl}
use mathlib.Core.Logic.{◌↔◌}
use mathlib.Core.Bool.{Bool, true, false, ◌&&◌}
use mathlib.Core.Option.{Option, none, some}
use mathlib.Core.List.{List, [], ◌∷◌}
use native.Mathlib.Omega.{arith}
use auditable_mcp_sdk_python.Base.Tests.{nat_eq, nat_eq_iff}

pub record Eq {ℓ} (A : Type ℓ) : Type ℓ where
  pub beq : A → A → Bool
  pub beq_iff : (a b : A) → (beq a b ≡ true) ↔ (a ≡ b)

pub beq_refl {ℓ} : {A : Type ℓ} ⦃e : Eq A⦄ (a : A) → e.beq a a ≡ true
beq_refl ⦃e⦄ a = (e.beq_iff a a).1 refl

instance abbrev pub ℕ_eq : Eq ℕ
ℕ_eq = record { beq = nat_eq; beq_iff = nat_eq_iff }

-- A Python `str`: its code points, lone surrogates included.
abbrev pub Str : Type 0
Str = List ℕ

-- The code points of a literal of the source.
abbrev pub text : String → Str
text String.[] = []
text (String.◌∷◌ c s) = code c ∷ text s

unfoldable pub str_eq : Str → Str → Bool
str_eq [] [] = true
str_eq (a ∷ s) (b ∷ t) = nat_eq a b && str_eq s t
str_eq _ _ = false

eq_of-str_eq : (s t : Str) → str_eq s t ≡ true → s ≡ t
unfolding str_eq
eq_of-str_eq [] [] h = refl
eq_of-str_eq (a ∷ s) (b ∷ t) h = ground (arith, eq_of-str_eq s t)
eq_of-str_eq [] (b ∷ t) h = ground arith
eq_of-str_eq (a ∷ s) [] h = ground arith

str_eq_self : (s : Str) → str_eq s s ≡ true
unfolding str_eq
str_eq_self [] = refl
str_eq_self (a ∷ s) = ground (arith, str_eq_self s)

pub str_eq_iff : (s t : Str) → (str_eq s t ≡ true) ↔ (s ≡ t)
str_eq_iff s t = (eq_of-str_eq s t, λ h. ground (arith, str_eq_self s))

instance abbrev pub Str_eq : Eq Str
Str_eq = record { beq = str_eq; beq_iff = str_eq_iff }

module _ {ℓ} {A B : Type ℓ} ⦃e : Eq A⦄ ⦃f : Eq B⦄ where
  unfoldable pub pair_eq : A × B → A × B → Bool
  pair_eq p q = e.beq p.0 q.0 && f.beq p.1 q.1

  pub pair_eq_iff : (p q : A × B) → (pair_eq p q ≡ true) ↔ (p ≡ q)
  unfolding pair_eq
  pair_eq_iff (a, b) (c, d) = (
    λ h. ground (arith, e.beq_iff a c, f.beq_iff b d),
    λ h. ground (arith, e.beq_iff a c, f.beq_iff b d),
  )

  instance abbrev pub Pair_eq : Eq (A × B)
  Pair_eq = record { beq = pair_eq; beq_iff = pair_eq_iff }

module _ {ℓ} {A : Type ℓ} ⦃e : Eq A⦄ where
  abbrev pub option_eq : Option A → Option A → Bool
  option_eq none none = true
  option_eq (some a) (some b) = e.beq a b
  option_eq _ _ = false

  pub option_eq_iff : (p q : Option A) → (option_eq p q ≡ true) ↔ (p ≡ q)
  option_eq_iff none none = (λ h. refl, λ h. refl)
  option_eq_iff (some a) (some b) =
      (λ h. ground (arith, e.beq_iff a b), λ h. ground (arith, e.beq_iff a b))
  option_eq_iff none (some b) = (λ h. cc, λ h. cc)
  option_eq_iff (some a) none = (λ h. cc, λ h. cc)

  instance abbrev pub Option_eq : Eq (Option A)
  Option_eq = record { beq = option_eq; beq_iff = option_eq_iff }
