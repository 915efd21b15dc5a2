-- ===== src/Encoding/Digits.antt =====
-- The characters of base64 and the values of six bits that they stand for.
use auditable_mcp_sdk_python.Base.{ℕ, ◌≡◌, ◌<◌, false, some, arith, nat_eq}
use auditable_mcp_sdk_python.Encoding.{Alphabet, url, standard, padding, char_of, value_of}

pub value_of-char_of : (al : Alphabet) (n : ℕ) → n < 64 → value_of al (char_of al n) ≡ some n
unfolding value_of char_of
value_of-char_of url n h = ground arith
value_of-char_of standard n h = ground arith

pub char_of-ne-padding : (al : Alphabet) (n : ℕ) → n < 64 → nat_eq (char_of al n) padding ≡ false
unfolding char_of
char_of-ne-padding url n h = ground arith
char_of-ne-padding standard n h = ground arith

pub value_of-lt : (al : Alphabet) (c n : ℕ) → value_of al c ≡ some n → n < 64
unfolding value_of
value_of-lt url c n h = ground arith
value_of-lt standard c n h = ground arith
