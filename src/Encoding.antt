-- ===== src/Encoding.antt =====
-- encoding.py: base64url without padding, and the padded standard base64 of earlier records.
pub mod Digits
pub mod RoundTrip
pub mod Exact
use auditable_mcp_sdk_python.Base.{
  ℕ, ◌+◌, ◌-◌, ◌*◌, ◌/◌, ◌%◌, Bool, true, false, not, ◌&&◌, ◌||◌, Option, none, some, List, [], ◌∷◌,
  ◌++◌, Str, leb, nat_eq, str_eq, if◌then◌else◌, zero, suc, ltb,
}
use auditable_mcp_sdk_python.Base.Lists.{length}
use auditable_mcp_sdk_python.Json.{Json, str}

-- A Python `bytes`.
abbrev pub Bytes : Type 0
Bytes = List ℕ

-- The two alphabets of RFC 4648.
pub data Alphabet : Type 0 where
  url standard : Alphabet

abbrev pub char_62 : Alphabet → ℕ
char_62 url = 45
char_62 standard = 43

abbrev pub char_63 : Alphabet → ℕ
char_63 url = 95
char_63 standard = 47

abbrev pub padding : ℕ
padding = 61

-- The character of a value of six bits.
unfoldable pub char_of : Alphabet → ℕ → ℕ
char_of al n =
    if ltb n 26
    then n + 65
    else if ltb n 52
    then n + 71
    else if ltb n 62
    then n - 4
    else if nat_eq n 62
    then char_62 al
    else char_63 al

unfoldable pub value_of : Alphabet → ℕ → Option ℕ
value_of al c =
    if leb 65 c && leb c 90
    then some (c - 65)
    else if leb 97 c && leb c 122
    then some (c - 71)
    else if leb 48 c && leb c 57
    then some (c + 4)
    else if nat_eq c (char_62 al)
    then some 62
    else if nat_eq c (char_63 al)
    then some 63
    else none

-- `base64.b64encode` and `base64.urlsafe_b64encode`
unfoldable pub encode : Alphabet → Bytes → Str
encode al [] = []
encode al (a ∷ []) = char_of al (a / 4) ∷ char_of al (a % 4 * 16) ∷ padding ∷ padding ∷ []
encode al (a ∷ b ∷ []) =
    char_of al (a / 4) ∷ char_of al (a % 4 * 16 + b / 16) ∷ char_of al (b % 16 * 4) ∷ padding ∷ []
encode al (a ∷ b ∷ c ∷ rest) =
    char_of al (a / 4)
    ∷ char_of al (a % 4 * 16 + b / 16)
    ∷ char_of al (b % 16 * 4 + c / 64)
    ∷ char_of al (c % 64)
    ∷ encode al rest

abbrev is_padding : ℕ → Bool
is_padding c = nat_eq c padding

-- The bytes of a quantum: one, two or three.
abbrev pub one_byte : Option ℕ → Option ℕ → Option Bytes
one_byte (some a) (some b) = some ((a * 4 + b / 16) ∷ [])
one_byte _ _ = none

abbrev pub two_bytes : Option ℕ → Option ℕ → Option ℕ → Option Bytes
two_bytes (some a) (some b) (some c) = some ((a * 4 + b / 16) ∷ (b % 16 * 16 + c / 4) ∷ [])
two_bytes _ _ _ = none

abbrev pub three_bytes : Option ℕ → Option ℕ → Option ℕ → Option ℕ → Option Bytes → Option Bytes
three_bytes (some a) (some b) (some c) (some d) (some rest) =
    some ((a * 4 + b / 16) ∷ (b % 16 * 16 + c / 4) ∷ (c % 4 * 64 + d) ∷ rest)
three_bytes _ _ _ _ _ = none

abbrev last_quantum : Alphabet → ℕ → ℕ → ℕ → Str → Option Bytes
last_quantum al a b c (_ ∷ _) = none
last_quantum al a b c [] =
    if is_padding c
    then one_byte (value_of al a) (value_of al b)
    else two_bytes (value_of al a) (value_of al b) (value_of al c)

-- `base64.b64decode` of characters of the alphabet and the padding behind them; `none` where it
-- raises. Bits behind the last byte are dropped.
unfoldable pub decode : Alphabet → Str → Option Bytes
decode al [] = some []
decode al (a ∷ b ∷ c ∷ d ∷ rest) =
    let more = decode al rest in
    if is_padding d
    then last_quantum al a b c rest
    else three_bytes (value_of al a) (value_of al b) (value_of al c) (value_of al d) more
decode al _ = none

-- `s.rstrip(b'=')`
unfoldable pub strip_padding : Str → Str
strip_padding [] = []
strip_padding (c ∷ s) =
    let rest = strip_padding s in
    elim rest [ [] ↦ if is_padding c then [] else c ∷ [] | x ∷ xs ↦ c ∷ x ∷ xs ]

unfoldable pub b64url_encode : Bytes → Str
b64url_encode raw = strip_padding (encode url raw)

-- `[A-Za-z0-9_-]*` matches the whole text.
unfoldable pub all_in : Alphabet → Str → Bool
all_in al [] = true
all_in al (c ∷ s) = elim (value_of al c) [ none ↦ false | some _ ↦ true ] && all_in al s

pub replicate : ℕ → ℕ → Str
replicate zero c = []
replicate (suc n) c = c ∷ replicate n c

-- `s + '=' * (-len(s) % 4)`
unfoldable pub pad : Str → Str
unfolding replicate
pad s = s ++ replicate ((4 - length s % 4) % 4) padding

abbrev pub if_canonical : Str → Option Bytes → (Bytes → Str) → Option Bytes
if_canonical value none print = none
if_canonical value (some raw) print = if str_eq (print raw) value then some raw else none

-- Of a text.
unfoldable pub decode_url : Str → Option Bytes
decode_url value =
    if not (all_in url value) || nat_eq (length value % 4) 1
    then none
    else if_canonical value (decode url (pad value)) b64url_encode

unfoldable pub b64url_decode : Json → Option Bytes
unfolding decode_url
b64url_decode (str value) = decode_url value
b64url_decode _ = none

-- `[A-Za-z0-9+/]+={0,2}` matches the whole text.
abbrev short_padding : Str → Bool
short_padding [] = true
short_padding (c ∷ []) = is_padding c
short_padding (c ∷ d ∷ []) = is_padding c && is_padding d
short_padding _ = false

unfoldable pub standard_rest : Str → Bool
standard_rest [] = true
standard_rest (c ∷ s) =
    let rest = standard_rest s in
    elim (value_of standard c) [ none ↦ short_padding (c ∷ s) | some _ ↦ rest ]

unfoldable pub is_standard : Str → Bool
unfolding standard_rest
is_standard [] = false
is_standard (c ∷ s) = elim (value_of standard c) [ none ↦ false | some _ ↦ standard_rest s ]

unfoldable pub decode_standard : Str → Option Bytes
decode_standard value =
    if not (is_standard value) || not (nat_eq (length value % 4) 0)
    then none
    else if_canonical value (decode standard value) (encode standard)

unfoldable pub b64_standard_decode : Json → Option Bytes
unfolding decode_standard
b64_standard_decode (str value) = decode_standard value
b64_standard_decode _ = none
