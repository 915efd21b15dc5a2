-- ===== src/Keys.antt =====
-- l2/algorithms.py and l2/keys.py: algorithms, roles and public keys, and what registries of them do.
pub mod Jwk
pub mod RoundTrip
pub mod Registry
pub mod Forward
pub mod Words
use auditable_mcp_sdk_python.Base.{
  ℕ, Bool, true, false, ◌&&◌, Option, none, some, Str, text, str_eq, nat_eq,
}
use auditable_mcp_sdk_python.Encoding.{Bytes}

pub data SignatureAlgorithm : Type 0 where
  ed25519 es256 : SignatureAlgorithm

pub data KeyRole : Type 0 where
  tool host : KeyRole

abbrev pub role_value : KeyRole → Str
role_value tool = text "tool"
role_value host = text "host"

unfoldable pub same_algorithm : SignatureAlgorithm → SignatureAlgorithm → Bool
same_algorithm ed25519 ed25519 = true
same_algorithm es256 es256 = true
same_algorithm _ _ = false

unfoldable pub same_role : KeyRole → KeyRole → Bool
same_role tool tool = true
same_role host host = true
same_role _ _ = false

-- The package `cryptography`: its two classes of public key, and what the program calls of them.
-- `none` stands for a ValueError.
pub record Crypto : Type 1 where
  pub Ed25519PublicKey : Type 0
  pub EllipticCurvePublicKey : Type 0
  pub Ed25519PrivateKey : Type 0
  -- `public_bytes_raw` and `from_public_bytes`
  pub ed_raw : Ed25519PublicKey → Bytes
  pub ed_of : Bytes → Option Ed25519PublicKey
  -- `isinstance(key.curve, SECP256R1)`
  pub on_p256 : EllipticCurvePublicKey → Bool
  -- `public_numbers()`, and `EllipticCurvePublicNumbers(x, y, SECP256R1()).public_key()`
  pub ec_x : EllipticCurvePublicKey → ℕ
  pub ec_y : EllipticCurvePublicKey → ℕ
  pub p256_of : ℕ → ℕ → Option EllipticCurvePublicKey
  -- `public_bytes` in DER, of either class
  pub ed_der : Ed25519PublicKey → Bytes
  pub ec_der : EllipticCurvePublicKey → Bytes
  pub public_key : Ed25519PrivateKey → Ed25519PublicKey
  -- Of the text whose UTF-8 is signed.
  pub sign : Ed25519PrivateKey → Str → Bytes
  -- Whether `verify` raises no InvalidSignature.
  pub ed_verify : Ed25519PublicKey → Bytes → Str → Bool
  pub ec_verify : EllipticCurvePublicKey → Bytes → Str → Bool
  -- `encode_dss_signature`
  pub encode_dss_signature : ℕ → ℕ → Bytes

pub data PublicKey (c : Crypto) : Type 0 where
  ed : c.Ed25519PublicKey → PublicKey c
  ec : c.EllipticCurvePublicKey → PublicKey c

-- A list of bytes for `==` is a list of numbers, as a text is.
abbrev pub bytes_eq : Bytes → Bytes → Bool
bytes_eq a b = str_eq a b

module _ (c : Crypto) where
  abbrev pub der : PublicKey c → Bytes
  der (ed k) = c.ed_der k
  der (ec k) = c.ec_der k

  -- `_same_key`
  unfoldable pub same_key : PublicKey c → PublicKey c → Bool
  same_key left right = bytes_eq (der left) (der right)

  -- `_is_key_of`
  unfoldable pub is_key_of : PublicKey c → SignatureAlgorithm → Bool
  is_key_of (ed k) ed25519 = true
  is_key_of (ec k) es256 = c.on_p256 k
  is_key_of _ _ = false
