-- ===== src/Tests/Codecs.antt =====
-- Stand-ins for the packages of the encodings and of the keys.
use auditable_mcp_sdk_python.Base.{
  ◌⊎◌, ℕ, zero, suc, ◌≡◌, refl, ap, ◌^◌, ◌↔◌, true, false, none, some, [], ◌∷◌, Str, text, arith,
  ltb_iff,
}
use auditable_mcp_sdk_python.Base.Equality.{str_eq}
use auditable_mcp_sdk_python.Base.Dict.{lookup, insert}
use auditable_mcp_sdk_python.Base.Result.{ok}
use auditable_mcp_sdk_python.Json.{
  str, arr, obj, nil, cons, Fields, end, field, get, get_str, put, without,
}
use auditable_mcp_sdk_python.Fields
use auditable_mcp_sdk_python.Models.{spec_version}
use auditable_mcp_sdk_python.Reasons.{unknown_key}
use auditable_mcp_sdk_python.Canonical.{
  canonicalize, has_unsafe_number, unsafe_fields, unsafe_float, has_lone_surrogate,
  surrogate_fields, surrogate_in,
}
use auditable_mcp_sdk_python.Encoding.{
  Bytes, b64url_encode, b64url_decode, decode_url, all_in, value_of, char_of, encode, decode,
  strip_padding, pad,
}
use auditable_mcp_sdk_python.Encoding.RoundTrip.{IsBytes}
use auditable_mcp_sdk_python.Encoding.Exact.{decode_url_iff}
use auditable_mcp_sdk_python.SaltedHash.{
  Packages, salted, disclosure_of, salted_hash_of, open_salted_hash,
}
use auditable_mcp_sdk_python.SaltedHash.Opening.{
  ReadsBack, IsDigest, Collide, open_salted_hash-disclosure_of, open_salted_hash-binding,
}
use auditable_mcp_sdk_python.Keys.{
  Crypto, ed25519, tool, ed, is_key_of, same_algorithm, same_role, same_key,
}
use auditable_mcp_sdk_python.Keys.Words.{low_bytes, low_bytes-IsBytes, length-low_bytes}
use auditable_mcp_sdk_python.Keys.Jwk.{
  x_member, entry_jwk, public_jwk, public_key_of, read_public, algorithm_of, check_alg, role_of,
  check_revoked, material_of, bytes_32,
}
use auditable_mcp_sdk_python.Keys.RoundTrip.{IsCrypto, IsRead, public_key_of-public_jwk}
use auditable_mcp_sdk_python.Keys.Registry.{
  RegisteredKey, KeyRegistry, revoke, entry, current, revoked_entry, load_jwks, keys_member,
  objects, read_all, check_roles, register_all, register, register_under, revoke_all,
}
use auditable_mcp_sdk_python.Keys.Forward.{IsForward, load_jwks-IsForward}
use auditable_mcp_sdk_python.Signatures.{numbered, sign_event, signature_payload, verify, check}
use auditable_mcp_sdk_python.Signatures.Laws.{
  IsSigning, IsCurrent, Binds, verify-sign_event, revoke-verify,
}
use auditable_mcp_sdk_python.Tests.Framing.{framing}

decode_url_iff_example :
    (decode_url (text "AQI") ≡ some (1 ∷ 2 ∷ []))
    ↔ (IsBytes (1 ∷ 2 ∷ []) × (b64url_encode (1 ∷ 2 ∷ []) ≡ text "AQI"))
decode_url_iff_example = decode_url_iff (text "AQI") (1 ∷ 2 ∷ [])

-- A digest that no two texts share: each number in unary.
unary : ℕ → Bytes → Bytes
unary zero rest = 1 ∷ rest
unary (suc n) rest = 0 ∷ unary n rest

spell : Str → Bytes
unfolding unary
spell [] = []
spell (n ∷ s) = unary n (spell s)

head_tail : {x y : ℕ} {s t : Bytes} → x ∷ s ≡ y ∷ t → (x ≡ y) × (s ≡ t)
head_tail e = (cc, cc)

unary_once : (n m : ℕ) (r q : Bytes) → unary n r ≡ unary m q → (n ≡ m) × (r ≡ q)
unfolding unary
unary_once zero zero r q e = (refl, (head_tail e).1)
unary_once zero (suc m) r q e = let apart = (head_tail e).0 in absurd (omega arith)
unary_once (suc n) zero r q e = let apart = (head_tail e).0 in absurd (omega arith)
unary_once (suc n) (suc m) r q e = let (a, b) = unary_once n m r q (head_tail e).1 in (ap suc a, b)

spell_once : (s t : Str) → spell s ≡ spell t → s ≡ t
unfolding spell
spell_once [] [] e = refl
spell_once [] (zero ∷ t) e = cc
spell_once [] (suc n ∷ t) e = cc
spell_once (zero ∷ s) [] e = cc
spell_once (suc n ∷ s) [] e = cc
spell_once (n ∷ s) (m ∷ t) e =
    let (a, b) = unary_once n m (spell s) (spell t) e in let rest = spell_once s t b in cc

unary-IsBytes : (n : ℕ) (r : Bytes) → IsBytes r → IsBytes (unary n r)
unfolding unary
unary-IsBytes zero r h = (omega arith, h)
unary-IsBytes (suc n) r h = (omega arith, unary-IsBytes n r h)

spell-IsBytes : (s : Str) → IsBytes (spell s)
unfolding spell
spell-IsBytes [] = tt
spell-IsBytes (n ∷ s) = unary-IsBytes n (spell s) (spell-IsBytes s)

abbrev context : Fields
context = field (text "query") (str (text "x")) end

abbrev spelling : Packages
spelling = record {
  dumps = λ v. some (1 ∷ 2 ∷ []);
  loads = λ raw. some (salted (text "salt") context);
  sha256 = λ s. spell s;
}

spelling-ReadsBack : ReadsBack spelling (salted (text "salt") context)
spelling-ReadsBack raw e =
    let same : raw ≡ 1 ∷ 2 ∷ [] = cc in rw same ((omega arith, (omega arith, tt)), refl)

spelling-IsDigest : IsDigest spelling
spelling-IsDigest = spell-IsBytes

abbrev disclosure : Str
disclosure = b64url_encode (1 ∷ 2 ∷ [])

made : disclosure_of spelling (text "salt") context ≡ some disclosure
unfolding disclosure_of
made = refl

open_salted_hash-disclosure_of_example :
    open_salted_hash spelling disclosure (salted_hash_of spelling disclosure) ≡ some context
open_salted_hash-disclosure_of_example =
    open_salted_hash-disclosure_of spelling (text "salt") context spelling-ReadsBack disclosure made

opens : open_salted_hash spelling disclosure (salted_hash_of spelling disclosure) ≡ some context
opens =
    open_salted_hash-disclosure_of spelling (text "salt") context spelling-ReadsBack disclosure made

open_salted_hash-binding_example :
    ((disclosure ≡ disclosure) × (context ≡ context)) ⊎ Collide spelling disclosure disclosure
open_salted_hash-binding_example =
    open_salted_hash-binding spelling spelling-IsDigest disclosure disclosure
      (salted_hash_of spelling disclosure) context context opens opens

-- One key of each kind; a signature is one byte.
abbrev toy : Crypto
toy = record {
  Ed25519PublicKey = Unit;
  EllipticCurvePublicKey = Unit;
  Ed25519PrivateKey = Unit;
  ed_raw = λ k. low_bytes 32 9;
  ed_of = λ raw. some tt;
  on_p256 = λ k. true;
  ec_x = λ k. 5;
  ec_y = λ k. 7;
  p256_of = λ x y. some tt;
  ed_der = λ k. 1 ∷ [];
  ec_der = λ k. 2 ∷ [];
  public_key = λ k. k;
  sign = λ k s. 3 ∷ [];
  ed_verify = λ k b s. str_eq b (3 ∷ []);
  ec_verify = λ k b s. false;
  encode_dss_signature = λ r s. [];
}

toy-IsCrypto : IsCrypto toy
toy-IsCrypto = record {
  raw_bytes = λ k. low_bytes-IsBytes 32 9;
  raw_length = λ k. length-low_bytes 32 9;
  raw_again = λ k. refl;
  x_fits = λ k h. (ltb_iff 5 (256 ^ 32)).0 refl;
  y_fits = λ k h. (ltb_iff 7 (256 ^ 32)).0 refl;
  point_again = λ k h. refl;
}

public_key_of-public_jwk_example :
    (jwk : Fields) × (public_jwk toy (text "k1") (ed tt) ed25519 tool true ≡ ok jwk)
    × IsRead toy (text "k1") (ed tt) ed25519 tool true jwk
unfolding is_key_of
public_key_of-public_jwk_example =
    public_key_of-public_jwk toy toy-IsCrypto 107 (49 ∷ []) (ed tt) ed25519 tool true refl

abbrev tool_key : RegisteredKey toy
tool_key = record { algorithm = ed25519; public_key = ed tt; revoked = false }

abbrev provisioned : KeyRegistry toy
provisioned = record { role = tool; keys = (text "k1", tool_key) ∷ [] }

abbrev withdrawn : KeyRegistry toy
withdrawn = record { role = tool; keys = (text "k1", revoked_entry toy tool_key) ∷ [] }

revokes : revoke toy (text "k1") provisioned ≡ ok withdrawn
unfolding revoke lookup insert str_eq
revokes = refl

-- A set that holds the key as it is not registered: revoked.
abbrev key_set : Fields
key_set =
    field (keys_member toy)
      (arr (
        cons
          (obj (
            entry_jwk (text "k1") ed25519 tool true
              (field x_member (str (b64url_encode (low_bytes 32 9))))))
          nil))
      end

loads_set : load_jwks toy key_set provisioned ≡ ok withdrawn
unfolding load_jwks objects read_all public_key_of read_public algorithm_of check_alg role_of
    check_revoked material_of bytes_32 b64url_decode decode_url b64url_encode check_roles
    register_all register register_under same_algorithm same_role same_key is_key_of revoke_all
    revoke lookup insert str_eq get all_in value_of char_of encode decode strip_padding pad
    low_bytes
loads_set = refl

load_jwks-IsForward_example : IsForward toy provisioned withdrawn
load_jwks-IsForward_example = load_jwks-IsForward toy key_set provisioned withdrawn loads_set

toy-IsSigning : IsSigning toy
unfolding str_eq
toy-IsSigning = record { bytes = λ k s. (omega arith, tt); verifies = λ k s. refl }

abbrev plain_event : Fields
plain_event = field Fields.spec_version (str spec_version) end

abbrev signed_event : Fields
signed_event =
    put Fields.signature (str (b64url_encode (3 ∷ []))) (numbered plain_event (text "k1") 4)

signs_event : sign_event toy framing plain_event (text "k1") 4 tt ≡ some signed_event
unfolding sign_event signature_payload canonicalize has_unsafe_number unsafe_fields unsafe_float
    has_lone_surrogate surrogate_fields surrogate_in put without str_eq
signs_event = refl

IsCurrent-event : IsCurrent plain_event
unfolding get str_eq
IsCurrent-event = refl

signer_current : Binds toy (current toy (text "k1") provisioned) tt
unfolding current entry lookup str_eq
signer_current = (tool_key, refl, refl, refl)

verify-sign_event_example :
    (verify toy framing provisioned signed_event ≡ ok none)
    × (check toy framing provisioned signed_event ≡ ok true)
verify-sign_event_example =
    verify-sign_event toy toy-IsSigning framing provisioned plain_event signed_event (text "k1") 4
      tt IsCurrent-event signs_event signer_current

names_key : get_str Fields.key_id signed_event ≡ some (text "k1")
unfolding get_str get put str_eq
names_key = refl

revoke-verify_example :
    (verify toy framing withdrawn signed_event ≡ ok (some unknown_key))
    × (check toy framing withdrawn signed_event ≡ check toy framing provisioned signed_event)
revoke-verify_example =
    revoke-verify toy framing (text "k1") provisioned withdrawn revokes signed_event signed_event
      names_key
