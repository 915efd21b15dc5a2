-- ===== src/Keys/RoundTrip.antt =====
-- l2/jwk.py: a JWK is read back as the entry that it was rendered from.
use auditable_mcp_sdk_python.Base.{
  ℕ, ◌≡◌, ◌<◌, ◌^◌, refl, Bool, true, false, Option, some, ◌∷◌, Str,
}
use auditable_mcp_sdk_python.Base.Equality.{str_eq}
use auditable_mcp_sdk_python.Base.Lists.{length}
use auditable_mcp_sdk_python.Base.Result.{ok, ◌>>=◌}
use auditable_mcp_sdk_python.Json.{Json, str, Fields, field, get}
use auditable_mcp_sdk_python.Encoding.{Bytes, b64url_encode, b64url_decode}
use auditable_mcp_sdk_python.Encoding.RoundTrip.{IsBytes}
use auditable_mcp_sdk_python.Encoding.Exact.{decode_url_iff}
use auditable_mcp_sdk_python.Keys.{
  SignatureAlgorithm, ed25519, es256, KeyRole, tool, host, Crypto, PublicKey, ed, ec, is_key_of,
}
use auditable_mcp_sdk_python.Keys.Words.{
  int_of, low_bytes, to_bytes_lem, length-low_bytes, low_bytes-IsBytes, int_of-low_bytes,
}
use auditable_mcp_sdk_python.Keys.Jwk.{
  kid, x_member, y_member, revoked_member, coordinate, entry_jwk, public_jwk, bytes_32,
  algorithm_of, check_alg, role_of, check_revoked, ed_key, ec_key, material_of, read_public,
  public_key_of,
}
use auditable_mcp_sdk_python.Keys.Registry.{is_true, kid_text}

-- What the package documents of its keys: an Ed25519 key has 32 raw bytes and is made of them again,
-- and a P-256 key's coordinates fit 32 bytes and give the key again.
pub record IsCrypto (c : Crypto) : Type 0 where
  pub raw_bytes : (k : c.Ed25519PublicKey) → IsBytes (c.ed_raw k)
  pub raw_length : (k : c.Ed25519PublicKey) → length (c.ed_raw k) ≡ 32
  pub raw_again : (k : c.Ed25519PublicKey) → c.ed_of (c.ed_raw k) ≡ some k
  pub x_fits : (k : c.EllipticCurvePublicKey) → c.on_p256 k ≡ true → c.ec_x k < 256 ^ 32
  pub y_fits : (k : c.EllipticCurvePublicKey) → c.on_p256 k ≡ true → c.ec_y k < 256 ^ 32
  pub point_again :
      (k : c.EllipticCurvePublicKey) → c.on_p256 k ≡ true → c.p256_of (c.ec_x k) (c.ec_y k) ≡ some k

bytes_32-b64url_encode :
    (raw : Bytes)
    → IsBytes raw
    → length raw ≡ 32
    → bytes_32 (some (str (b64url_encode raw))) ≡ ok raw
unfolding bytes_32 b64url_decode
bytes_32-b64url_encode raw h l = rw ((decode_url_iff (b64url_encode raw) raw).1 (h, refl), l) refl

coordinate_lem : (x : ℕ) → x < 256 ^ 32 → coordinate x ≡ ok (b64url_encode (low_bytes 32 x))
unfolding coordinate
coordinate_lem x h = rw (to_bytes_lem 32 x h, coordinate) refl

-- The JWK is read as the entry: its name, key, algorithm and role, and whether it is revoked.
abbrev pub IsRead :
    (c : Crypto) → Str → PublicKey c → SignatureAlgorithm → KeyRole → Bool → Fields → Type 0
IsRead c key_id key algorithm role revoked jwk =
    (public_key_of c jwk ≡ ok (key_id, key, algorithm, role))
    × (is_true c (get revoked_member jwk) ≡ revoked)
    × (kid_text c (get kid jwk) ≡ key_id)

module _ (c : Crypto) (law : IsCrypto c) where
  ed_part :
      (k : c.Ed25519PublicKey)
      → bytes_32 (some (str (b64url_encode (c.ed_raw k)))) >>= (λ raw. ed_key c (c.ed_of raw))
        ≡ ok (ed k)
  ed_part k =
      rw (bytes_32-b64url_encode (c.ed_raw k) (law.raw_bytes k) (law.raw_length k), law.raw_again k)
        refl

  abbrev coordinate_json : ℕ → Option Json
  coordinate_json x = some (str (b64url_encode (low_bytes 32 x)))

  ec_part :
      (k : c.EllipticCurvePublicKey)
      → c.on_p256 k ≡ true
      → bytes_32 (coordinate_json (c.ec_x k)) >>= (λ x.
        bytes_32 (coordinate_json (c.ec_y k)) >>= (λ y. ec_key c (c.p256_of (int_of x) (int_of y))))
        ≡ ok (ec k)
  ec_part k p =
      let x = c.ec_x k in
      let y = c.ec_y k in
      rw
        (
          bytes_32-b64url_encode (low_bytes 32 x) (low_bytes-IsBytes 32 x) (length-low_bytes 32 x),
          bytes_32-b64url_encode (low_bytes 32 y) (low_bytes-IsBytes 32 y) (length-low_bytes 32 y),
          int_of-low_bytes 32 x (law.x_fits k p),
          int_of-low_bytes 32 y (law.y_fits k p),
          law.point_again k p,
        )
        refl

  ed-IsRead :
      (n : ℕ) (s : Str) (k : c.Ed25519PublicKey) (role : KeyRole) (revoked : Bool)
      → IsRead c (n ∷ s) (ed k) ed25519 role revoked (
          entry_jwk
            (n ∷ s)
            ed25519
            role
            revoked
            (field x_member (str (b64url_encode (c.ed_raw k)))))
  unfolding public_key_of read_public algorithm_of check_alg role_of check_revoked material_of get
      str_eq
  ed-IsRead n s k tool true = (rw (ed_part k) refl, refl, refl)
  ed-IsRead n s k tool false = (rw (ed_part k) refl, refl, refl)
  ed-IsRead n s k host true = (rw (ed_part k) refl, refl, refl)
  ed-IsRead n s k host false = (rw (ed_part k) refl, refl, refl)

  ec-IsRead :
      (n : ℕ) (s : Str) (k : c.EllipticCurvePublicKey)
      → c.on_p256 k ≡ true
      → (role : KeyRole) (revoked : Bool)
      → IsRead c (n ∷ s) (ec k) es256 role revoked (
          entry_jwk (n ∷ s) es256 role revoked (λ fs.
            field x_member
              (str (b64url_encode (low_bytes 32 (c.ec_x k))))
              (field y_member (str (b64url_encode (low_bytes 32 (c.ec_y k)))) fs)))
  unfolding public_key_of read_public algorithm_of check_alg role_of check_revoked material_of get
      str_eq
  ec-IsRead n s k p tool true = (rw (ec_part k p) refl, refl, refl)
  ec-IsRead n s k p tool false = (rw (ec_part k p) refl, refl, refl)
  ec-IsRead n s k p host true = (rw (ec_part k p) refl, refl, refl)
  ec-IsRead n s k p host false = (rw (ec_part k p) refl, refl, refl)

  -- Every entry that a registry can hold, with a name that is not empty and a key of its algorithm,
  -- has a JWK, and the JWK is read back as the entry: its name, the same key, its algorithm, its role
  -- and whether it is revoked.
  pub public_key_of-public_jwk :
      (n : ℕ) (s : Str) (key : PublicKey c) (algorithm : SignatureAlgorithm) (role : KeyRole)
      (revoked : Bool)
      → is_key_of c key algorithm ≡ true
      → (jwk : Fields) × (public_jwk c (n ∷ s) key algorithm role revoked ≡ ok jwk)
        × IsRead c (n ∷ s) key algorithm role revoked jwk
  unfolding public_jwk is_key_of
  public_key_of-public_jwk n s (ed k) ed25519 role revoked h =
      (_, refl, ed-IsRead n s k role revoked)
  public_key_of-public_jwk n s (ed k) es256 role revoked h = cc
  public_key_of-public_jwk n s (ec k) ed25519 role revoked h = cc
  public_key_of-public_jwk n s (ec k) es256 role revoked h = (
    _,
    rw (coordinate_lem (c.ec_x k) (law.x_fits k h), coordinate_lem (c.ec_y k) (law.y_fits k h))
        refl,
    ec-IsRead n s k h role revoked,
  )
