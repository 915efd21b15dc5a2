-- ===== src/Models/Pattern.antt =====
-- The regular expressions of models.py and salted_hash.py, anchored at both ends. What the engine's
-- `\d` takes is the engine's: the argument `d` says so.
use auditable_mcp_sdk_python.Base.{
  ℕ, zero, suc, Bool, true, false, ◌&&◌, ◌||◌, List, [], ◌∷◌, ◌++◌, leb, Str, text, if◌then◌else◌,
}

pub data Pattern : Type 0 where
  eps : Pattern
  -- one character in one of the ranges
  cls : List (ℕ × ℕ) → Pattern
  digit : Pattern
  seq alt : Pattern → Pattern → Pattern
  -- one or more characters of a class, or of `\d`
  some_cls : List (ℕ × ℕ) → Pattern
  some_digits : Pattern

unfoldable pub in_ranges : List (ℕ × ℕ) → ℕ → Bool
in_ranges [] c = false
in_ranges ((a, b) ∷ r) c = leb a c && leb c b || in_ranges r c

-- What is left after one character that passes, and after one or more.
unfoldable pub one : (ℕ → Bool) → Str → List Str
one p [] = []
one p (c ∷ s) = if p c then s ∷ [] else []

unfoldable pub many : (ℕ → Bool) → Str → List Str
many p [] = []
many p (c ∷ s) = let rest = many p s in if p c then s ∷ rest else []

unfoldable pub on_each : (Str → List Str) → List Str → List Str
on_each f [] = []
on_each f (s ∷ ss) = f s ++ on_each f ss

-- Every remainder of the text after a prefix that the pattern matches.
unfoldable pub rests : (ℕ → Bool) → Pattern → Str → List Str
unfolding in_ranges one many on_each
rests d eps s = s ∷ []
rests d (cls r) s = one (in_ranges r) s
rests d digit s = one d s
rests d (seq p q) s = on_each (rests d q) (rests d p s)
rests d (alt p q) s = rests d p s ++ rests d q s
rests d (some_cls r) s = many (in_ranges r) s
rests d some_digits s = many d s

has_empty : List Str → Bool
has_empty [] = false
has_empty ([] ∷ ss) = true
has_empty ((_ ∷ _) ∷ ss) = has_empty ss

-- `re.fullmatch`
unfoldable pub matches : (ℕ → Bool) → Pattern → Str → Bool
unfolding rests has_empty
matches d p s = has_empty (rests d p s)

abbrev lit : Str → Pattern
lit [] = eps
lit (c ∷ s) = seq (cls ((c, c) ∷ [])) (lit s)

abbrev times : ℕ → Pattern → Pattern
times zero p = eps
times (suc n) p = seq p (times n p)

abbrev opt : Pattern → Pattern
opt p = alt p eps

infixr 60 ◌⊳◌
abbrev ◌⊳◌ : Pattern → Pattern → Pattern
p ⊳ q = seq p q

abbrev dash : Pattern
dash = cls ((b'-', b'-') ∷ [])

-- `[0-9a-f]`
abbrev hex : List (ℕ × ℕ)
hex = (b'0', b'9') ∷ (b'a', b'f') ∷ []

-- `[0-9a-fA-F]`
abbrev any_hex : List (ℕ × ℕ)
any_hex = (b'0', b'9') ∷ (b'a', b'f') ∷ (b'A', b'F') ∷ []

abbrev uuid_of : List (ℕ × ℕ) → List (ℕ × ℕ) → Pattern
uuid_of h variant =
    times 8 (cls h)
    ⊳ dash
    ⊳ times 4 (cls h)
    ⊳ dash
    ⊳ cls ((b'1', b'8') ∷ [])
    ⊳ times 3 (cls h)
    ⊳ dash
    ⊳ cls variant
    ⊳ times 3 (cls h)
    ⊳ dash
    ⊳ times 12 (cls h)

abbrev nil_uuid : Pattern
nil_uuid = lit (text "00000000-0000-0000-0000-000000000000")

-- SESSION_ID_PATTERN
abbrev pub session_id_pattern : Pattern
session_id_pattern = uuid_of hex ((b'8', b'9') ∷ (b'a', b'b') ∷ [])

-- UUID_PATTERN
abbrev pub uuid_pattern : Pattern
uuid_pattern = alt session_id_pattern nil_uuid

-- EARLIER_UUID_PATTERN
abbrev pub earlier_uuid_pattern : Pattern
earlier_uuid_pattern =
    alt (uuid_of any_hex ((b'8', b'9') ∷ (b'a', b'b') ∷ (b'A', b'B') ∷ [])) nil_uuid

-- CHAIN_HASH_PATTERN
abbrev pub chain_hash_pattern : Pattern
chain_hash_pattern = times 64 (cls hex)

-- CONTEXT_HASH_PATTERN
abbrev pub context_hash_pattern : Pattern
context_hash_pattern = lit (text "sha256:") ⊳ times 64 (cls hex)

abbrev base64url : List (ℕ × ℕ)
base64url = (b'A', b'Z') ∷ (b'a', b'z') ∷ (b'0', b'9') ∷ (b'_', b'_') ∷ (b'-', b'-') ∷ []

-- SIGNATURE_PATTERN
abbrev pub signature_pattern : Pattern
signature_pattern = some_cls base64url

-- SALTED_HASH_PATTERN
abbrev pub salted_hash_pattern : Pattern
salted_hash_pattern = times 43 (cls base64url)

-- Standard base64 with padding, of `EarlierSealedAuditEvent`.
abbrev pub earlier_signature_pattern : Pattern
earlier_signature_pattern =
    some_cls ((b'A', b'Z') ∷ (b'a', b'z') ∷ (b'0', b'9') ∷ (b'+', b'+') ∷ (b'/', b'/') ∷ [])
    ⊳ opt (lit (text "="))
    ⊳ opt (lit (text "="))

abbrev range : ℕ → ℕ → Pattern
range a b = cls ((a, b) ∷ [])

abbrev even_first : Pattern
even_first = cls ((b'2', b'2') ∷ (b'4', b'4') ∷ (b'6', b'6') ∷ (b'8', b'8') ∷ [])

abbrev by_four : Pattern
by_four = cls ((b'0', b'0') ∷ (b'4', b'4') ∷ (b'8', b'8') ∷ [])

abbrev odd_first : Pattern
odd_first = cls ((b'1', b'1') ∷ (b'3', b'3') ∷ (b'5', b'5') ∷ (b'7', b'7') ∷ (b'9', b'9') ∷ [])

abbrev two_six : Pattern
two_six = cls ((b'2', b'2') ∷ (b'6', b'6') ∷ [])

abbrev even_all : Pattern
even_all = cls ((b'0', b'0') ∷ (b'2', b'2') ∷ (b'4', b'4') ∷ (b'6', b'6') ∷ (b'8', b'8') ∷ [])

abbrev leap_day : Pattern
leap_day =
    alt (digit ⊳ digit ⊳ even_first ⊳ by_four) (
      alt (digit ⊳ digit ⊳ odd_first ⊳ two_six) (
        alt (digit ⊳ digit ⊳ lit (text "0") ⊳ cls ((b'4', b'4') ∷ (b'8', b'8') ∷ []))
          (alt (even_all ⊳ by_four ⊳ lit (text "00")) (odd_first ⊳ two_six ⊳ lit (text "00")))))
    ⊳ lit (text "-02-29")

abbrev month_day : Pattern
month_day =
    alt
      (alt (lit (text "0") ⊳ cls ((b'1', b'1') ∷ (b'3', b'3') ∷ (b'5', b'5') ∷ (b'7', b'8') ∷ []))
          (lit (text "1") ⊳ cls ((b'0', b'0') ∷ (b'2', b'2') ∷ []))
        ⊳ dash
        ⊳ alt (lit (text "0") ⊳ range b'1' b'9')
            (alt (range b'1' b'2' ⊳ digit) (lit (text "3") ⊳ range b'0' b'1')))
      (alt
        (alt (lit (text "0") ⊳ cls ((b'4', b'4') ∷ (b'6', b'6') ∷ (b'9', b'9') ∷ []))
            (lit (text "11"))
          ⊳ dash
          ⊳ alt (lit (text "0") ⊳ range b'1' b'9')
              (alt (range b'1' b'2' ⊳ digit) (lit (text "30"))))
        (lit (text "02")
          ⊳ dash
          ⊳ alt (lit (text "0") ⊳ range b'1' b'9')
              (alt (lit (text "1") ⊳ digit) (lit (text "2") ⊳ range b'0' b'8'))))

abbrev date : Pattern
date = alt leap_day (times 4 digit ⊳ dash ⊳ month_day)

abbrev hour : Pattern
hour = alt (range b'0' b'1' ⊳ digit) (lit (text "2") ⊳ range b'0' b'3')

abbrev sixty : Pattern
sixty = range b'0' b'5' ⊳ digit

abbrev fraction : Pattern
fraction = opt (lit (text ".") ⊳ some_digits)

-- DATETIME_PATTERN
abbrev pub datetime_pattern : Pattern
datetime_pattern =
    date
    ⊳ lit (text "T")
    ⊳ hour
    ⊳ lit (text ":")
    ⊳ sixty
    ⊳ lit (text ":")
    ⊳ sixty
    ⊳ fraction
    ⊳ lit (text "Z")

-- EARLIER_DATETIME_PATTERN
abbrev pub earlier_datetime_pattern : Pattern
earlier_datetime_pattern =
    date
    ⊳ lit (text "T")
    ⊳ hour
    ⊳ lit (text ":")
    ⊳ sixty
    ⊳ opt (lit (text ":") ⊳ sixty ⊳ fraction)
    ⊳ lit (text "Z")
