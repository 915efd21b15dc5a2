-- ===== src/Encoding/Exact.antt =====
-- encoding.py: the strict decoders read what the encoder writes, and nothing else.
use auditable_mcp_sdk_python.Base.{
  ℕ, ◌+◌, ◌*◌, ◌/◌, ◌%◌, ◌≡◌, ◌≢◌, ◌<◌, refl, true, false, not, ◌||◌, Option, none, some, [], ◌∷◌,
  Str, str_eq, str_eq_iff, nat_eq, arith, ◌↔◌, Bool-cases, inl, inr,
}
use auditable_mcp_sdk_python.Base.Lists.{length}
use auditable_mcp_sdk_python.Encoding.{
  Bytes, Alphabet, url, padding, char_of, value_of, one_byte, two_bytes, three_bytes, last_quantum,
  decode, b64url_encode, all_in, pad, if_canonical, decode_url,
}
use auditable_mcp_sdk_python.Encoding.Digits.{value_of-char_of, value_of-lt}
use auditable_mcp_sdk_python.Encoding.RoundTrip.{
  IsBytes, unpadded, strip_padding-encode, pad-unpadded, decode-encode,
}

all_in-char_of :
    (al : Alphabet) (n : ℕ) (s : Str) → n < 64 → all_in al (char_of al n ∷ s) ≡ all_in al s
unfolding all_in
all_in-char_of al n s h = rw (value_of-char_of al n h) refl

all_in-unpadded : (al : Alphabet) (raw : Bytes) → IsBytes raw → all_in al (unpadded al raw) ≡ true
unfolding unpadded all_in
all_in-unpadded al [] h = refl
all_in-unpadded al (a ∷ []) (ha, _) =
    rw (all_in-char_of al (a / 4) _ (omega arith), all_in-char_of al (a % 4 * 16) _ (omega arith))
      refl
all_in-unpadded al (a ∷ b ∷ []) (ha, (hb, _)) =
    rw
      (
        all_in-char_of al (a / 4) _ (omega arith),
        all_in-char_of al (a % 4 * 16 + b / 16) _ (omega arith),
        all_in-char_of al (b % 16 * 4) _ (omega arith),
      )
      refl
all_in-unpadded al (a ∷ b ∷ c ∷ rest) (ha, (hb, (hc, h))) =
    rw
      (
        all_in-char_of al (a / 4) _ (omega arith),
        all_in-char_of al (a % 4 * 16 + b / 16) _ (omega arith),
        all_in-char_of al (b % 16 * 4 + c / 64) _ (omega arith),
        all_in-char_of al (c % 64) _ (omega arith),
      )
      (all_in-unpadded al rest h)

-- No group has one character.
length-unpadded : (al : Alphabet) (raw : Bytes) → length (unpadded al raw) % 4 ≢ 1
unfolding unpadded
length-unpadded al [] h = omega arith
length-unpadded al (a ∷ []) h = omega arith
length-unpadded al (a ∷ b ∷ []) h = omega arith
length-unpadded al (a ∷ b ∷ c ∷ rest) h = omega (arith, length-unpadded al rest)

-- A value of six bits, where there is one.
abbrev IsSmall : Option ℕ → Type 0
IsSmall o = (n : ℕ) → o ≡ some n → n < 64

one_byte-IsBytes :
    (x y : Option ℕ) (raw : Bytes) → IsSmall x → IsSmall y → one_byte x y ≡ some raw → IsBytes raw
one_byte-IsBytes none y raw f g e = cc
one_byte-IsBytes (some x) none raw f g e = cc
one_byte-IsBytes (some x) (some y) raw f g e =
    let p = f x refl in
    let q = g y refl in let same : raw ≡ (x * 4 + y / 16) ∷ [] = cc in rw same (omega arith, tt)

two_bytes-IsBytes :
    (x y z : Option ℕ) (raw : Bytes)
    → IsSmall x
    → IsSmall y
    → IsSmall z
    → two_bytes x y z ≡ some raw
    → IsBytes raw
two_bytes-IsBytes none y z raw f g h e = cc
two_bytes-IsBytes (some x) none z raw f g h e = cc
two_bytes-IsBytes (some x) (some y) none raw f g h e = cc
two_bytes-IsBytes (some x) (some y) (some z) raw f g h e =
    let p = f x refl in
    let q = g y refl in
    let r = h z refl in
    let same : raw ≡ (x * 4 + y / 16) ∷ (y % 16 * 16 + z / 4) ∷ [] = cc in
    rw same (omega arith, (omega arith, tt))

three_bytes-IsBytes :
    (x y z t : Option ℕ) (more : Option Bytes) (raw : Bytes)
    → IsSmall x
    → IsSmall y
    → IsSmall z
    → IsSmall t
    → ((rest : Bytes) → more ≡ some rest → IsBytes rest)
    → three_bytes x y z t more ≡ some raw
    → IsBytes raw
three_bytes-IsBytes none y z t more raw f g h k m e = cc
three_bytes-IsBytes (some x) none z t more raw f g h k m e = cc
three_bytes-IsBytes (some x) (some y) none t more raw f g h k m e = cc
three_bytes-IsBytes (some x) (some y) (some z) none more raw f g h k m e = cc
three_bytes-IsBytes (some x) (some y) (some z) (some t) none raw f g h k m e = cc
three_bytes-IsBytes (some x) (some y) (some z) (some t) (some rest) raw f g h k m e =
    let p = f x refl in
    let q = g y refl in
    let r = h z refl in
    let u = k t refl in
    let same : raw ≡ (x * 4 + y / 16) ∷ (y % 16 * 16 + z / 4) ∷ (z % 4 * 64 + t) ∷ rest = cc in
    rw same (omega arith, (omega arith, (omega arith, m rest refl)))

last_quantum-IsBytes :
    (al : Alphabet) (a b c : ℕ) (s : Str) (raw : Bytes)
    → last_quantum al a b c s ≡ some raw
    → IsBytes raw
last_quantum-IsBytes al a b c (x ∷ s) raw e = cc
last_quantum-IsBytes al a b c [] raw e = elim (Bool-cases (nat_eq c padding)) [
  | inl p ↦
      one_byte-IsBytes (value_of al a) (value_of al b) raw (value_of-lt al a) (value_of-lt al b)
        (rw p at e)
  | inr p ↦
      two_bytes-IsBytes (value_of al a) (value_of al b) (value_of al c) raw (value_of-lt al a)
        (value_of-lt al b) (value_of-lt al c) (rw p at e)
]

decode-IsBytes : (al : Alphabet) (s : Str) (raw : Bytes) → decode al s ≡ some raw → IsBytes raw
unfolding decode
decode-IsBytes al [] raw e = let same : raw ≡ [] = cc in rw same tt
decode-IsBytes al (a ∷ []) raw e = cc
decode-IsBytes al (a ∷ b ∷ []) raw e = cc
decode-IsBytes al (a ∷ b ∷ c ∷ []) raw e = cc
decode-IsBytes al (a ∷ b ∷ c ∷ d ∷ s) raw e = elim (Bool-cases (nat_eq d padding)) [
  | inl p ↦ last_quantum-IsBytes al a b c s raw (rw p at e)
  | inr p ↦
      three_bytes-IsBytes (value_of al a) (value_of al b) (value_of al c) (value_of al d)
        (decode al s) raw (value_of-lt al a) (value_of-lt al b) (value_of-lt al c)
        (value_of-lt al d) (decode-IsBytes al s) (rw p at e)
]

-- Of a canonical value: the bytes that were decoded, printed again.
if_canonical_eq :
    (value : Str) (o : Option Bytes) (print : Bytes → Str) (raw : Bytes)
    → if_canonical value o print ≡ some raw
    → (o ≡ some raw) × (print raw ≡ value)
if_canonical_eq value none print raw e = cc
if_canonical_eq value (some r) print raw e = elim (Bool-cases (str_eq (print r) value)) [
  | inl p ↦
      let whole : some r ≡ some raw = rw p at e in
      let same : r ≡ raw = cc in (whole, rw (← same) ((str_eq_iff (print r) value).0 p))
  | inr p ↦ let nothing : none ≡ some raw = rw p at e in cc
]

decode_url-b64url_encode : (raw : Bytes) → IsBytes raw → decode_url (b64url_encode raw) ≡ some raw
unfolding decode_url b64url_encode
decode_url-b64url_encode raw h =
    let short = length-unpadded url raw in
    let odd : nat_eq (length (unpadded url raw) % 4) 1 ≡ false = ground arith in
    rw
      (
        strip_padding-encode url raw h,
        all_in-unpadded url raw h,
        odd,
        pad-unpadded url raw,
        decode-encode url raw h,
        strip_padding-encode url raw h,
      )
      (rw ((str_eq_iff (unpadded url raw) (unpadded url raw)).1 refl) refl)

read_back :
    (value : Str) (raw : Bytes)
    → decode_url value ≡ some raw
    → IsBytes raw × (b64url_encode raw ≡ value)
unfolding decode_url
read_back value raw e = elim (Bool-cases (not (all_in url value) || nat_eq (length value % 4) 1)) [
  | inl p ↦ let nothing : none ≡ some raw = rw p at e in cc
  | inr p ↦
      let (decoded, same) =
        if_canonical_eq value (decode url (pad value)) b64url_encode raw (rw p at e) in
      (decode-IsBytes url (pad value) raw decoded, same)
]

-- `b64url_decode` gives bytes for a text if and only if the text is what `b64url_encode` writes for
-- these bytes: it reads back every encoding, and refuses any other alphabet, padding and stray bits,
-- so no bytes have two texts.
pub decode_url_iff :
    (value : Str) (raw : Bytes)
    → (decode_url value ≡ some raw) ↔ (IsBytes raw × (b64url_encode raw ≡ value))
decode_url_iff value raw =
    (read_back value raw, λ (h, e). rw (← e) (decode_url-b64url_encode raw h))
