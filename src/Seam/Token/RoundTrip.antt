-- ===== src/Seam/Token/RoundTrip.antt =====
-- A round's token names its instance, and no other text is taken for a token.
use mathlib.Core.Path.{subst}
use auditable_mcp_sdk_python.Base.{
  ◌≡◌, ◌↔◌, ◌∙◌, refl, sym, ap, ℕ, true, false, Option, none, some, [], ◌∷◌, ◌++◌, nat_eq,
  nat_eq_iff, Str, text, arith, Option-cases, inl, inr,
}
use auditable_mcp_sdk_python.Json.{str}
use auditable_mcp_sdk_python.Models.Pattern.{in_ranges}
use auditable_mcp_sdk_python.Seam.Token.{
  is_token_char, all_token_chars, is_instance, is_secret, round_token_prefix, after_prefix,
  partition_dot, round_token, named_instance, instance_after, round_token_instance,
}

after_prefix-append : (p s : Str) → after_prefix p (p ++ s) ≡ some s
unfolding after_prefix
after_prefix-append [] s = refl
after_prefix-append (c ∷ p) s = ground (arith, after_prefix-append p s, nat_eq_iff c c)

append-after_prefix : (p s t : Str) → after_prefix p s ≡ some t → s ≡ p ++ t
unfolding after_prefix
append-after_prefix [] s t h = cc
append-after_prefix (c ∷ p) [] t h = cc
append-after_prefix (c ∷ p) (d ∷ s) t h = ground (arith, append-after_prefix p s t, nat_eq_iff c d)

not_dot : (c : ℕ) → is_token_char c ≡ true → nat_eq c b'.' ≡ false
unfolding is_token_char in_ranges
not_dot c h = ground arith

-- The parts round the first separator.
partition_dot-append :
    (i s : Str) → all_token_chars i ≡ true → partition_dot (i ++ text "." ++ s) ≡ some (i, s)
unfolding partition_dot all_token_chars
partition_dot-append [] s h = refl
partition_dot-append (c ∷ i) s h = ground (arith, partition_dot-append i s, not_dot c)

append-partition_dot :
    (t : Str) (p : Str × Str) → partition_dot t ≡ some p → t ≡ p.0 ++ text "." ++ p.1
unfolding partition_dot
append-partition_dot [] p h = cc
append-partition_dot (c ∷ t) p h = elim (Option-cases (partition_dot t)) [
  | inl e ↦ ground (arith, nat_eq_iff c b'.')
  | inr (q, e) ↦ ground (arith, nat_eq_iff c b'.', append-partition_dot t q e)
]

is_instance-chars : (i : Str) → is_instance i ≡ true → all_token_chars i ≡ true
unfolding is_instance
is_instance-chars i h = ground arith

-- Every token that the seam issues for a round names its own instance.
instance-round_token :
    (i s : Str)
    → is_instance i ≡ true
    → is_secret s ≡ true
    → round_token_instance (some (str (round_token i s))) ≡ some i
unfolding round_token_instance round_token after_prefix
instance-round_token i s hi hs =
    let found = partition_dot-append i s (is_instance-chars i hi) in
    subst (λ (o : Option (Str × Str)). named_instance o ≡ some i) (sym found) (rw (hi, hs))

read_instance :
    (o : Option (Str × Str)) (i : Str)
    → named_instance o ≡ some i
    → (s : Str) × (o ≡ some (i, s)) × (is_instance i ≡ true) × (is_secret s ≡ true)
read_instance none i h = cc
read_instance (some (j, s)) i h = (s, ground arith, ground arith, ground arith)

read_after :
    (t i : Str) (o : Option Str)
    → after_prefix round_token_prefix t ≡ o
    → instance_after o ≡ some i
    → (s : Str) × (t ≡ round_token i s) × (is_instance i ≡ true) × (is_secret s ≡ true)
unfolding round_token partition_dot
read_after t i none e h = cc
read_after t i (some rest) e h =
    let (s, split, hi, hs) = read_instance (partition_dot rest) i h in
    (
      s,
      append-after_prefix round_token_prefix t rest e
          ∙ ap (λ (r : Str). round_token_prefix ++ r) (append-partition_dot rest (i, s) split),
      hi,
      hs,
    )

-- A `requestState` names an instance exactly when it is `amcp.<instance>.<secret>` with that
-- instance, where the instance and the secret have the form that a token's have.
pub round_token_instance_iff :
    (t i : Str)
    → (round_token_instance (some (str t)) ≡ some i)
      ↔ ((s : Str) × (t ≡ round_token i s) × (is_instance i ≡ true) × (is_secret s ≡ true))
unfolding round_token_instance round_token
round_token_instance_iff t i = (
  λ h. read_after t i (after_prefix round_token_prefix t) refl h,
  λ (s, e, hi, hs). rw e (instance-round_token i s hi hs),
)
