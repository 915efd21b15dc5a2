-- ===== src/Signatures/Laws.antt =====
-- l2/signing.py, l2/verification.py: what is signed verifies, until its key is revoked.
use auditable_mcp_sdk_python.Base.{
  ℕ, ◌≡◌, refl, ◌∙◌, sym, Bool, true, false, Option, none, some, Str, str_eq_iff, if◌then◌else◌,
  Str_eq, Bool-cases, inl, inr, arith, if_false,
}
use auditable_mcp_sdk_python.Base.Equality.{str_eq}
use auditable_mcp_sdk_python.Base.Lists.{member}
use auditable_mcp_sdk_python.Base.Result.{ok}
use auditable_mcp_sdk_python.Json.{
  Json, pos, int, str, Fields, end, field, get, get_str, put, without,
}
use auditable_mcp_sdk_python.Fields
use auditable_mcp_sdk_python.Canonical.{Jcs}
use auditable_mcp_sdk_python.Reasons.{unknown_key}
use auditable_mcp_sdk_python.Models.{spec_version}
use auditable_mcp_sdk_python.Encoding.{b64url_encode, b64url_decode}
use auditable_mcp_sdk_python.Encoding.RoundTrip.{IsBytes}
use auditable_mcp_sdk_python.Encoding.Exact.{decode_url_iff}
use auditable_mcp_sdk_python.Keys.{ed25519, Crypto, ed}
use auditable_mcp_sdk_python.Keys.Registry.{
  RegisteredKey, KeyRegistry, revoked_entry, revoke, entry, current, unless_revoked,
}
use auditable_mcp_sdk_python.Keys.Forward.{revoke_lem}
use auditable_mcp_sdk_python.Signatures.{
  signature_payload, numbered, is_earlier, decode_signature, sign_event, verify_ed25519,
  verified_by, reject_by, reject_reason, check, verify,
}

get-put_same : (k : Str) (v : Json) (fs : Fields) → get k (put k v fs) ≡ some v
unfolding get put
get-put_same k v end = ground (arith, str_eq_iff k k)
get-put_same k v (field j w fs) = ground (arith, str_eq_iff k j, get-put_same k v fs)

get-put_other :
    (j k : Str) (v : Json) (fs : Fields) → str_eq j k ≡ false → get j (put k v fs) ≡ get j fs
unfolding get put
get-put_other j k v end h = ground arith
get-put_other j k v (field i w fs) h =
    ground (arith, str_eq_iff k i, str_eq_iff j i, str_eq_iff j k, get-put_other j k v fs h)

without-put : (k : Str) (v : Json) (fs : Fields) → without k (put k v fs) ≡ without k fs
unfolding without put
without-put k v end = ground (arith, str_eq_iff k k)
without-put k v (field j w fs) = ground (arith, str_eq_iff k j, str_eq_iff j k, without-put k v fs)

-- What the package documents of a pair of keys: a signature is bytes, and verifies under the public
-- half for the payload that was signed.
pub record IsSigning (c : Crypto) : Type 0 where
  pub bytes : (k : c.Ed25519PrivateKey) (s : Str) → IsBytes (c.sign k s)
  pub verifies :
      (k : c.Ed25519PrivateKey) (s : Str) → c.ed_verify (c.public_key k) (c.sign k s) s ≡ true

-- An event of the current version.
abbrev pub IsCurrent : Fields → Type 0
IsCurrent event = get Fields.spec_version event ≡ some (str spec_version)

-- The entry of an Ed25519 tool key.
abbrev pub Binds : (c : Crypto) → Option (RegisteredKey c) → c.Ed25519PrivateKey → Type 0
Binds c o k =
    (e : RegisteredKey c) × (o ≡ some e)
    × (e.algorithm ≡ ed25519)
    × (e.public_key ≡ ed (c.public_key k))

-- By the entry that the event's key names.
reject_reason_named :
    (c : Crypto) (jcs : Jcs) (registry : KeyRegistry c) (event : Fields) (k : Str) (sealed : Bool)
    → get_str Fields.key_id event ≡ some k
    → reject_reason c jcs registry event sealed
      ≡ reject_by c jcs event (if sealed then entry c k registry else current c k registry)
unfolding reject_reason
reject_reason_named c jcs registry event k sealed h = rw (h, reject_reason) refl

-- A current entry is an entry.
current-entry :
    (c : Crypto) (registry : KeyRegistry c) (k : Str) (e : RegisteredKey c)
    → current c k registry ≡ some e
    → entry c k registry ≡ some e
unfolding current
current-entry c registry k e h = of (entry c k registry) h
  where
    of : (o : Option (RegisteredKey c)) → unless_revoked c o ≡ some e → o ≡ some e
    of none q = cc
    of (some f) q = elim (Bool-cases f.revoked) [
      | inl v ↦ let nothing : none ≡ some e = rw v at q in cc
      | inr v ↦ sym (if_false none (some f) v) ∙ q
    ]

module _ (c : Crypto) (law : IsSigning c) (jcs : Jcs) where
  signed_payload :
      (event signed : Fields) (key_id : Str) (n : ℕ) (k : c.Ed25519PrivateKey)
      → sign_event c jcs event key_id n k ≡ some signed
      → (payload : Str) × (signature_payload jcs (numbered event key_id n) ≡ some payload)
        × (signed
            ≡ put Fields.signature
                (str (b64url_encode (c.sign k payload)))
                (numbered event key_id n))
  unfolding sign_event
  signed_payload event signed key_id n k h =
      of (signature_payload jcs (numbered event key_id n)) refl h
    where
      of :
          (o : Option Str)
          → signature_payload jcs (numbered event key_id n) ≡ o
          → (elim o [
            | none ↦ none
            | some payload ↦ some (
                put Fields.signature
                  (str (b64url_encode (c.sign k payload)))
                  (numbered event key_id n))
          ])
            ≡ some signed
          → (payload : Str) × (signature_payload jcs (numbered event key_id n) ≡ some payload)
            × (signed
                ≡ put Fields.signature
                    (str (b64url_encode (c.sign k payload)))
                    (numbered event key_id n))
      of none q e = cc
      of (some payload) q e = (payload, q, cc)

  module _ (event : Fields) (key_id : Str) (n : ℕ) (k : c.Ed25519PrivateKey) (payload : Str) where
    abbrev stamped : Fields
    stamped =
        put Fields.signature (str (b64url_encode (c.sign k payload))) (numbered event key_id n)

    get-stamped :
        (j : Str)
        → str_eq j Fields.signature ≡ false
        → str_eq j Fields.signer_seq ≡ false
        → str_eq j Fields.key_id ≡ false
        → get j stamped ≡ get j event
    get-stamped j a b d =
        rw
          (
            get-put_other j Fields.signature (str (b64url_encode (c.sign k payload)))
                (numbered event key_id n) a,
            get-put_other j Fields.signer_seq (int (pos n)) (put Fields.key_id (str key_id) event)
                b,
            get-put_other j Fields.key_id (str key_id) event d,
          )
          refl

    stamped_key : get_str Fields.key_id stamped ≡ some key_id
    unfolding get_str str_eq
    stamped_key =
        rw
          (
            get-put_other Fields.key_id Fields.signature (str (b64url_encode (c.sign k payload)))
                (numbered event key_id n) refl,
            get-put_other Fields.key_id Fields.signer_seq (int (pos n))
                (put Fields.key_id (str key_id) event) refl,
            get-put_same Fields.key_id (str key_id) event,
          )
          refl

    stamped_signature : IsCurrent event → decode_signature stamped ≡ some (c.sign k payload)
    unfolding decode_signature is_earlier b64url_decode str_eq member
    stamped_signature current =
        rw
          (
            get-stamped Fields.spec_version refl refl refl,
            current,
            get-put_same Fields.signature (str (b64url_encode (c.sign k payload)))
                (numbered event key_id n),
            (decode_url_iff (b64url_encode (c.sign k payload)) (c.sign k payload)).1
                (law.bytes k payload, refl),
          )
          refl

    stamped_payload :
        signature_payload jcs stamped ≡ signature_payload jcs (numbered event key_id n)
    unfolding signature_payload
    stamped_payload =
        rw
          (without-put Fields.signature (str (b64url_encode (c.sign k payload)))
            (numbered event key_id n))
          refl

    stamped_verified :
        IsCurrent event
        → signature_payload jcs (numbered event key_id n) ≡ some payload
        → verified_by c jcs stamped (ed (c.public_key k)) ed25519 ≡ ok true
    unfolding verified_by verify_ed25519
    stamped_verified current q =
        rw (stamped_signature current, verify_ed25519, stamped_payload, q, law.verifies k payload)
          refl

  -- An event of the current version that a tool's key signs verifies: by a registry where the key's
  -- entry is current, a host finds no reason to reject it, and its sealed record checks.
  pub verify-sign_event :
      (registry : KeyRegistry c) (event signed : Fields) (key_id : Str) (n : ℕ)
      (k : c.Ed25519PrivateKey)
      → IsCurrent event
      → sign_event c jcs event key_id n k ≡ some signed
      → Binds c (current c key_id registry) k
      → (verify c jcs registry signed ≡ ok none) × (check c jcs registry signed ≡ ok true)
  unfolding verify check
  verify-sign_event registry event signed key_id n k now h (e, found, a, b) =
      let (payload, q, same) = signed_payload event signed key_id n k h in
      let name = stamped_key event key_id n k payload in
      let good = stamped_verified event key_id n k payload now q in
      (
        rw (same, reject_reason_named c jcs registry _ key_id false name, found, a, b, good) refl,
        rw
            (
              same,
              reject_reason_named c jcs registry _ key_id true name,
              current-entry c registry key_id e found,
              a,
              b,
              good,
            )
            refl,
      )

module _ (c : Crypto) (jcs : Jcs) where
  -- The verdict on a sealed event reads nothing of an entry but its key and its algorithm.
  reject_by_same :
      (event : Fields) (e : RegisteredKey c)
      → reject_by c jcs event (some (revoked_entry c e)) ≡ reject_by c jcs event (some e)
  reject_by_same event e = refl

  check_named :
      (r s : KeyRegistry c) (event : Fields) (o : Option Str)
      → get_str Fields.key_id event ≡ o
      → ((k : Str)
          → o ≡ some k
          → reject_by c jcs event (entry c k s) ≡ reject_by c jcs event (entry c k r))
      → reject_reason c jcs s event true ≡ reject_reason c jcs r event true
  unfolding reject_reason
  check_named r s event none q f = rw (q, reject_reason) refl
  check_named r s event (some k) q f =
      rw (reject_reason_named c jcs s event k true q, reject_reason_named c jcs r event k true q)
        (f k refl)

  -- After a revocation, a host finds the key unknown for every new event that names it, while every
  -- record that was sealed, under this key or another, checks exactly as it did before.
  pub revoke-verify :
      (key_id : Str) (r s : KeyRegistry c)
      → revoke c key_id r ≡ ok s
      → (event sealed : Fields) → get_str Fields.key_id event ≡ some key_id
      → (verify c jcs s event ≡ ok (some unknown_key))
        × (check c jcs s sealed ≡ check c jcs r sealed)
  unfolding verify check
  revoke-verify key_id r s h event sealed named =
      let (e, before, gone, entries) = revoke_lem c key_id r s h in
      (
        rw (reject_reason_named c jcs s event key_id false named, gone) refl,
        rw
            (check_named r s sealed (get_str Fields.key_id sealed) refl (λ k q.
              elim (Bool-cases (str_eq k key_id)) [
                | inl same ↦
                    let here : k ≡ key_id = (str_eq_iff k key_id).0 same in
                    rw (entries k, same) (rw (here, before) refl)
                | inr other ↦ rw (entries k, other) refl
              ]))
            refl,
      )
