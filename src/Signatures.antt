-- ===== src/Signatures.antt =====
-- l2/signing.py and l2/verification.py: detached signatures of events and of countersignatures.
pub mod Laws
use auditable_mcp_sdk_python.Base.{
  ℕ, Bool, true, false, not, ◌&&◌, ◌||◌, Option, none, some, List, [], ◌∷◌, Str, text, nat_eq,
  if◌then◌else◌, is_none, Str_eq,
}
use auditable_mcp_sdk_python.Base.Lists.{length, member}
use auditable_mcp_sdk_python.Base.Result.{
  Result, ok, raised, value_error, canonicalization_error, ◌>>=◌,
}
use auditable_mcp_sdk_python.Json.{Json, pos, int, str, obj, Fields, get, get_str, put, without}
use auditable_mcp_sdk_python.Fields
use auditable_mcp_sdk_python.Canonical.{Jcs, canonicalize}
use auditable_mcp_sdk_python.Reasons.{Reason, unknown_key, signature_invalid}
use auditable_mcp_sdk_python.Encoding.{Bytes, b64url_encode, b64url_decode, b64_standard_decode}
use auditable_mcp_sdk_python.Keys.{
  SignatureAlgorithm, ed25519, es256, KeyRole, tool, host, same_role, Crypto, PublicKey, ed, ec,
}
use auditable_mcp_sdk_python.Keys.Words.{int_of}
use auditable_mcp_sdk_python.Keys.Registry.{RegisteredKey, KeyRegistry, entry, current}

-- `none` where the canonical form raises; the bytes are the text's UTF-8.
unfoldable pub signature_payload : Jcs → Fields → Option Str
signature_payload jcs event = canonicalize jcs (obj (without Fields.signature event))

abbrev pub numbered : Fields → Str → ℕ → Fields
numbered event key_id n = put Fields.signer_seq (int (pos n)) (put Fields.key_id (str key_id) event)

-- The versions before the current one that were published.
abbrev pub earlier_versions : List Str
earlier_versions =
    text "auditable-mcp/0.1"
    ∷ text "auditable-mcp/0.1.1"
    ∷ text "auditable-mcp/0.2"
    ∷ text "auditable-mcp/0.3"
    ∷ []

unfoldable pub is_earlier : Option Json → Bool
is_earlier (some (str s)) = member s earlier_versions
is_earlier _ = false

abbrev decoded_by : (Json → Option Bytes) → Option Json → Option Bytes
decoded_by decode none = none
decoded_by decode (some v) = decode v

-- `_decode_signature`
unfoldable pub decode_signature : Fields → Option Bytes
decode_signature event =
    if is_earlier (get Fields.spec_version event)
    then decoded_by b64_standard_decode (get Fields.signature event)
    else decoded_by b64url_decode (get Fields.signature event)

-- The first bytes, and the rest.
unfoldable pub split : ℕ → Bytes → Bytes × Bytes
split ℕ.zero raw = ([], raw)
split (ℕ.suc n) [] = ([], [])
split (ℕ.suc n) (b ∷ raw) = let (first, rest) = split n raw in (b ∷ first, rest)

abbrev or_raised : Option Str → Result Str
or_raised none = raised canonicalization_error
or_raised (some s) = ok s

module _ (c : Crypto) where
  unfoldable pub sign_event : Jcs → Fields → Str → ℕ → c.Ed25519PrivateKey → Option Fields
  sign_event jcs event key_id n private_key =
      elim (signature_payload jcs (numbered event key_id n)) [
        | none ↦ none
        | some payload ↦ some (
            put Fields.signature (str (b64url_encode (c.sign private_key payload)))
              (numbered event key_id n))
      ]

  -- `Ed25519Countersigner.sign`
  unfoldable pub sign_payload : c.Ed25519PrivateKey → Str → Str
  sign_payload private_key payload = b64url_encode (c.sign private_key payload)

  -- `r || s` in DER
  unfoldable pub der_of : Bytes → Bytes
  der_of signature = let (r, s) = split 32 signature in c.encode_dss_signature (int_of r) (int_of s)

  unfoldable pub verify_raw : PublicKey c → SignatureAlgorithm → Bytes → Str → Bool
  verify_raw (ed k) ed25519 signature payload = c.ed_verify k signature payload
  verify_raw (ec k) es256 signature payload =
      nat_eq (length signature) 64 && c.ec_verify k (der_of signature) payload
  verify_raw _ _ signature payload = false

  abbrev detached : RegisteredKey c → Str → Option Bytes → Bool
  detached e payload none = false
  detached e payload (some signature) = verify_raw e.public_key e.algorithm signature payload

  unfoldable pub verify_detached_signature : Str → Json → RegisteredKey c → Bool
  verify_detached_signature payload signature e = detached e payload (b64url_decode signature)

  -- `verify_ed25519_signature`, by the decoded signature
  unfoldable pub verify_ed25519 : Jcs → Fields → c.Ed25519PublicKey → Option Bytes → Result Bool
  verify_ed25519 jcs event k none = ok false
  verify_ed25519 jcs event k (some signature) =
      or_raised (signature_payload jcs event) >>= (λ payload. ok (c.ed_verify k signature payload))

  -- `verify_ecdsa_signature`, by the decoded signature
  unfoldable pub verify_ecdsa : Jcs → Fields → c.EllipticCurvePublicKey → Option Bytes → Result Bool
  verify_ecdsa jcs event k none = ok false
  verify_ecdsa jcs event k (some signature) =
      if not (nat_eq (length signature) 64)
      then ok false
      else or_raised (signature_payload jcs event)
        >>= (λ payload. ok (c.ec_verify k (der_of signature) payload))

  -- The primitive of the algorithm that the entry binds.
  unfoldable pub verified_by : Jcs → Fields → PublicKey c → SignatureAlgorithm → Result Bool
  verified_by jcs event (ed k) ed25519 = verify_ed25519 jcs event k (decode_signature event)
  verified_by jcs event (ec k) es256 = verify_ecdsa jcs event k (decode_signature event)
  verified_by jcs event _ _ = ok false

  abbrev pub rejection : Bool → Option Reason
  rejection true = none
  rejection false = some signature_invalid

  abbrev pub reject_by : Jcs → Fields → Option (RegisteredKey c) → Result (Option Reason)
  reject_by jcs event none = ok (some unknown_key)
  reject_by jcs event (some e) =
      verified_by jcs event e.public_key e.algorithm >>= (λ b. ok (rejection b))

  -- `KeyRegistryVerifier.__init__` and `CountersignatureRegistryVerifier.__init__`
  unfoldable pub new_verifier : KeyRole → KeyRegistry c → Result (KeyRegistry c)
  new_verifier role registry =
      if same_role registry.role role then ok registry else raised value_error

  -- `_reject_reason`
  unfoldable pub reject_reason : Jcs → KeyRegistry c → Fields → Bool → Result (Option Reason)
  reject_reason jcs registry event sealed = elim (get_str Fields.key_id event) [
    | none ↦ ok (some unknown_key)
    | some k ↦ reject_by jcs event (if sealed then entry c k registry else current c k registry)
  ]

  unfoldable pub check : Jcs → KeyRegistry c → Fields → Result Bool
  check jcs registry event = reject_reason jcs registry event true >>= (λ r. ok (is_none r))

  unfoldable pub verify : Jcs → KeyRegistry c → Fields → Result (Option Reason)
  verify jcs registry event = reject_reason jcs registry event false

  abbrev by_entry : Str → Str → Option (RegisteredKey c) → Bool
  by_entry payload signature none = false
  by_entry payload signature (some e) = verify_detached_signature payload (str signature) e

  -- `CountersignatureRegistryVerifier.check`
  unfoldable pub check_countersignature : KeyRegistry c → Str → Str → Str → Bool
  check_countersignature registry key signature payload =
      by_entry payload signature (entry c key registry)

  -- `CountersignatureRegistryVerifier.verify`
  unfoldable pub verify_countersignature_by : KeyRegistry c → Str → Str → Str → Bool
  verify_countersignature_by registry key signature payload =
      by_entry payload signature (current c key registry)
