-- ===== src/Keys/Jwk.antt =====
-- l2/jwk.py: one registry entry as a JWK, and back.
use auditable_mcp_sdk_python.Base.{
  ℕ, Bool, true, false, ◌&&◌, Option, none, some, ◌∷◌, Str, text, str_eq, nat_eq, if◌then◌else◌,
  is_some,
}
use auditable_mcp_sdk_python.Base.Lists.{length}
use auditable_mcp_sdk_python.Base.Result.{
  Result, ok, raised, value_error, type_error, other_error, ◌>>=◌,
}
use auditable_mcp_sdk_python.Json.{Json, bool, str, arr, obj, Fields, end, field, get, is_str}
use auditable_mcp_sdk_python.Encoding.{Bytes, b64url_encode, b64url_decode}
use auditable_mcp_sdk_python.Keys.{
  SignatureAlgorithm, ed25519, es256, KeyRole, tool, host, role_value, Crypto, PublicKey, ed, ec,
}
use auditable_mcp_sdk_python.Keys.Words.{to_bytes, int_of}

abbrev pub kid : Str
kid = text "kid"

abbrev pub kty : Str
kty = text "kty"

abbrev pub crv : Str
crv = text "crv"

abbrev pub alg : Str
alg = text "alg"

abbrev pub x_member : Str
x_member = text "x"

abbrev pub y_member : Str
y_member = text "y"

abbrev pub private_member : Str
private_member = text "d"

abbrev pub role_member : Str
role_member = text "amcp_role"

abbrev pub revoked_member : Str
revoked_member = text "amcp_revoked"

-- _PARAMETERS
abbrev pub kty_of : SignatureAlgorithm → Str
kty_of ed25519 = text "OKP"
kty_of es256 = text "EC"

abbrev pub crv_of : SignatureAlgorithm → Str
crv_of ed25519 = text "Ed25519"
crv_of es256 = text "P-256"

abbrev pub alg_of : SignatureAlgorithm → Str
alg_of ed25519 = text "Ed25519"
alg_of es256 = text "ES256"

-- `jwk[REVOKED_MEMBER] = True` where it is revoked
abbrev pub mark : Bool → Fields
mark true = field revoked_member (bool true) end
mark false = end

-- `x.to_bytes(32, 'big')` in base64url; an OverflowError is no ValueError.
unfoldable pub coordinate : ℕ → Result Str
coordinate x = elim (to_bytes 32 x) [
  | none ↦ raised other_error
  | some raw ↦ ok (b64url_encode raw)
]

abbrev pub entry_jwk : Str → SignatureAlgorithm → KeyRole → Bool → (Fields → Fields) → Fields
entry_jwk key_id algorithm role revoked material = field kid (str key_id) (
    field kty (str (kty_of algorithm)) (
      field crv (str (crv_of algorithm)) (
        field alg (str (alg_of algorithm))
          (material (field role_member (str (role_value role)) (mark revoked))))))

module _ (c : Crypto) where
  unfoldable pub public_jwk :
      Str → PublicKey c → SignatureAlgorithm → KeyRole → Bool → Result Fields
  public_jwk key_id (ed k) ed25519 role revoked =
      ok (entry_jwk key_id ed25519 role revoked (field x_member (str (b64url_encode (c.ed_raw k)))))
  public_jwk key_id (ec k) es256 role revoked = coordinate (c.ec_x k) >>= (λ x.
      coordinate (c.ec_y k) >>= (λ y. ok (
        entry_jwk key_id es256 role revoked
          (λ fs. field x_member (str x) (field y_member (str y) fs)))))
  public_jwk key_id _ _ role revoked = raised value_error

-- `_unb64url`
abbrev pub or_value_error : {A : Type 0} → Option A → Result A
or_value_error none = raised value_error
or_value_error (some a) = ok a

abbrev pub unb64url : Option Json → Result Bytes
unb64url none = raised value_error
unb64url (some v) = or_value_error (b64url_decode v)

-- The member, of 32 bytes.
unfoldable pub bytes_32 : Option Json → Result Bytes
bytes_32 v = unb64url v >>= (λ raw. if nat_eq (length raw) 32 then ok raw else raised value_error)

-- A `kid` that is a text and not empty.
abbrev pub named : Option Json → Result Str
named (some (str (x ∷ s))) = ok (x ∷ s)
named _ = raised value_error

-- `_BY_PARAMETERS.get((str(kty), str(crv)))`; no value but a text is printed as one of these names.
unfoldable pub algorithm_of : Fields → Result SignatureAlgorithm
algorithm_of jwk =
    if is_str (get kty jwk) (kty_of ed25519) && is_str (get crv jwk) (crv_of ed25519)
    then ok ed25519
    else if is_str (get kty jwk) (kty_of es256) && is_str (get crv jwk) (crv_of es256)
    then ok es256
    else raised value_error

-- `'alg' in jwk and jwk['alg'] not in _ACCEPTED_ALG[algorithm]`: a list or a dict has no hash.
unfoldable pub check_alg : SignatureAlgorithm → Option Json → Result (Unit {0})
check_alg algorithm none = ok tt
check_alg algorithm (some (arr xs)) = raised type_error
check_alg algorithm (some (obj fs)) = raised type_error
check_alg algorithm (some (str s)) =
    if str_eq s (alg_of algorithm) then ok tt else raised value_error
check_alg algorithm (some _) = raised value_error

-- `KeyRole(str(jwk.get(ROLE_MEMBER)))`
unfoldable pub role_of : Option Json → Result KeyRole
role_of v =
    if is_str v (role_value tool)
    then ok tool
    else if is_str v (role_value host)
    then ok host
    else raised value_error

-- `_check_revoked`
unfoldable pub check_revoked : Option Json → Result (Unit {0})
check_revoked none = ok tt
check_revoked (some (bool b)) = ok tt
check_revoked (some _) = raised value_error

module _ (c : Crypto) where
  abbrev pub ed_key : Option c.Ed25519PublicKey → Result (PublicKey c)
  ed_key none = raised value_error
  ed_key (some k) = ok (ed k)

  abbrev pub ec_key : Option c.EllipticCurvePublicKey → Result (PublicKey c)
  ec_key none = raised value_error
  ec_key (some k) = ok (ec k)

  unfoldable pub material_of : SignatureAlgorithm → Fields → Result (PublicKey c)
  material_of ed25519 jwk = bytes_32 (get x_member jwk) >>= (λ raw. ed_key (c.ed_of raw))
  material_of es256 jwk =
      bytes_32 (get x_member jwk)
      >>= (λ x. bytes_32 (get y_member jwk) >>= (λ y. ec_key (c.p256_of (int_of x) (int_of y))))

  -- After the test for a private member.
  unfoldable pub read_public : Fields → Result (Str × PublicKey c × SignatureAlgorithm × KeyRole)
  read_public jwk = named (get kid jwk) >>= (λ key_id. algorithm_of jwk >>= (λ algorithm.
      check_alg algorithm (get alg jwk) >>= (λ _. role_of (get role_member jwk) >>= (λ role.
        check_revoked (get revoked_member jwk)
        >>= (λ _. material_of algorithm jwk >>= (λ key. ok (key_id, key, algorithm, role)))))))

  unfoldable pub public_key_of : Fields → Result (Str × PublicKey c × SignatureAlgorithm × KeyRole)
  public_key_of jwk =
      if is_some (get private_member jwk) then raised value_error else read_public jwk
