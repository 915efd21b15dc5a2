-- ===== src/Encoding/RoundTrip.antt =====
-- encoding.py: base64 decodes what it encoded, and padding comes off and on again.
use auditable_mcp_sdk_python.Base.{
  ℕ, suc, ◌+◌, ◌-◌, ◌*◌, ◌/◌, ◌%◌, ◌≡◌, ◌<◌, refl, ap, false, some, [], ◌∷◌, ◌++◌, Str, nat_eq,
  if◌then◌else◌, arith,
}
use auditable_mcp_sdk_python.Base.Lists.{length}
use auditable_mcp_sdk_python.Encoding.{
  Bytes, Alphabet, padding, char_of, encode, decode, strip_padding, replicate, pad,
}
use auditable_mcp_sdk_python.Encoding.Digits.{value_of-char_of, char_of-ne-padding}

-- Every value is one of a byte.
abbrev pub IsBytes : Bytes → Type 0
IsBytes [] = Unit
IsBytes (b ∷ raw) = (b < 256) × IsBytes raw

-- The characters without padding, group by group.
unfoldable pub unpadded : Alphabet → Bytes → Str
unpadded al [] = []
unpadded al (a ∷ []) = char_of al (a / 4) ∷ char_of al (a % 4 * 16) ∷ []
unpadded al (a ∷ b ∷ []) =
    char_of al (a / 4) ∷ char_of al (a % 4 * 16 + b / 16) ∷ char_of al (b % 16 * 4) ∷ []
unpadded al (a ∷ b ∷ c ∷ rest) =
    char_of al (a / 4)
    ∷ char_of al (a % 4 * 16 + b / 16)
    ∷ char_of al (b % 16 * 4 + c / 64)
    ∷ char_of al (c % 64)
    ∷ unpadded al rest

strip_padding-kept :
    (c : ℕ) (s : Str) → nat_eq c padding ≡ false → strip_padding (c ∷ s) ≡ c ∷ strip_padding s
unfolding strip_padding
strip_padding-kept c s h = of (strip_padding s)
  where
    of :
        (rest : Str)
        → (elim rest [ [] ↦ if nat_eq c padding then [] else c ∷ [] | x ∷ xs ↦ c ∷ x ∷ xs ])
          ≡ c ∷ rest
    of [] = rw h refl
    of (x ∷ xs) = refl

-- A character of the alphabet is kept.
kept :
    (al : Alphabet) (n : ℕ) (s : Str)
    → n < 64
    → strip_padding (char_of al n ∷ s) ≡ char_of al n ∷ strip_padding s
kept al n s h = strip_padding-kept (char_of al n) s (char_of-ne-padding al n h)

pub strip_padding-encode :
    (al : Alphabet) (raw : Bytes) → IsBytes raw → strip_padding (encode al raw) ≡ unpadded al raw
unfolding encode unpadded strip_padding
strip_padding-encode al [] h = refl
strip_padding-encode al (a ∷ []) (ha, _) =
    rw (kept al (a / 4) _ (omega arith), kept al (a % 4 * 16) _ (omega arith)) refl
strip_padding-encode al (a ∷ b ∷ []) (ha, (hb, _)) =
    rw
      (
        kept al (a / 4) _ (omega arith),
        kept al (a % 4 * 16 + b / 16) _ (omega arith),
        kept al (b % 16 * 4) _ (omega arith),
      )
      refl
strip_padding-encode al (a ∷ b ∷ c ∷ rest) (ha, (hb, (hc, h))) =
    rw
      (
        kept al (a / 4) _ (omega arith),
        kept al (a % 4 * 16 + b / 16) _ (omega arith),
        kept al (b % 16 * 4 + c / 64) _ (omega arith),
        kept al (c % 64) _ (omega arith),
        strip_padding-encode al rest h,
      )
      refl

pad-group : (p q r t : ℕ) (s : Str) → pad (p ∷ q ∷ r ∷ t ∷ s) ≡ p ∷ q ∷ r ∷ t ∷ pad s
unfolding pad
pad-group p q r t s =
    let same : (4 - suc (suc (suc (suc (length s)))) % 4) % 4 ≡ (4 - length s % 4) % 4 =
      omega arith in
    ap (λ n. p ∷ q ∷ r ∷ t ∷ (s ++ replicate n padding)) same

pub pad-unpadded : (al : Alphabet) (raw : Bytes) → pad (unpadded al raw) ≡ encode al raw
unfolding encode unpadded pad replicate
pad-unpadded al [] = refl
pad-unpadded al (a ∷ []) = refl
pad-unpadded al (a ∷ b ∷ []) = refl
pad-unpadded al (a ∷ b ∷ c ∷ rest) =
    rw (pad-group _ _ _ _ (unpadded al rest), pad-unpadded al rest) refl

pub decode-encode :
    (al : Alphabet) (raw : Bytes) → IsBytes raw → decode al (encode al raw) ≡ some raw
unfolding encode decode
decode-encode al [] h = refl
decode-encode al (a ∷ []) (ha, _) =
    rw (value_of-char_of al (a / 4) (omega arith), value_of-char_of al (a % 4 * 16) (omega arith))
      (first (omega arith))
  where
    first : {x : ℕ} → x ≡ a → some (x ∷ []) ≡ some (a ∷ [])
    first e = rw e refl
decode-encode al (a ∷ b ∷ []) (ha, (hb, _)) =
    rw
      (
        char_of-ne-padding al (b % 16 * 4) (omega arith),
        value_of-char_of al (a / 4) (omega arith),
        value_of-char_of al (a % 4 * 16 + b / 16) (omega arith),
        value_of-char_of al (b % 16 * 4) (omega arith),
      )
      (both (omega arith) (omega arith))
  where
    both : {x y : ℕ} → x ≡ a → y ≡ b → some (x ∷ y ∷ []) ≡ some (a ∷ b ∷ [])
    both e f = rw (e, f) refl
decode-encode al (a ∷ b ∷ c ∷ rest) (ha, (hb, (hc, h))) =
    rw
      (
        decode-encode al rest h,
        char_of-ne-padding al (c % 64) (omega arith),
        value_of-char_of al (a / 4) (omega arith),
        value_of-char_of al (a % 4 * 16 + b / 16) (omega arith),
        value_of-char_of al (b % 16 * 4 + c / 64) (omega arith),
        value_of-char_of al (c % 64) (omega arith),
      )
      (all_three (omega arith) (omega arith) (omega arith))
  where
    all_three :
        {x y z : ℕ} → x ≡ a → y ≡ b → z ≡ c → some (x ∷ y ∷ z ∷ rest) ≡ some (a ∷ b ∷ c ∷ rest)
    all_three e f g = rw (e, f, g) refl
