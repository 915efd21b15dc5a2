-- ===== src/SaltedHash/Opening.antt =====
-- salted_hash.py: a salted hash opens to the context that it was made of, and to no other.
use auditable_mcp_sdk_python.Base.{
  ◌≡◌, ◌≢◌, ◌⊎◌, refl, sym, ◌∙◌, none, some, Str, str_eq, str_eq_iff, Bool-cases, inl, inr,
  Option-cases,
}
use auditable_mcp_sdk_python.Json.{Json, Fields}
use auditable_mcp_sdk_python.Encoding.{Bytes, b64url_encode, decode_url}
use auditable_mcp_sdk_python.Encoding.RoundTrip.{IsBytes}
use auditable_mcp_sdk_python.Encoding.Exact.{decode_url_iff}
use auditable_mcp_sdk_python.SaltedHash.{
  Packages, salted, disclosure_of, salted_hash_of, open_raw, open_salted_hash,
}

-- JSON text is bytes, and is read back as the value that it was written for.
abbrev pub ReadsBack : Packages → Json → Type 0
ReadsBack p v = (raw : Bytes) → p.dumps v ≡ some raw → IsBytes raw × (p.loads raw ≡ some v)

-- A digest is bytes.
abbrev pub IsDigest : Packages → Type 0
IsDigest p = (s : Str) → IsBytes (p.sha256 s)

-- Two texts with one SHA-256 digest.
abbrev pub Collide : Packages → Str → Str → Type 0
Collide p s t = (s ≢ t) × (p.sha256 s ≡ p.sha256 t)

-- A Disclosure opens the salted hash that is taken of it, to the context that it was made of.
pub open_salted_hash-disclosure_of :
    (p : Packages) (salt : Str) (context : Fields)
    → ReadsBack p (salted salt context)
    → (disclosure : Str) → disclosure_of p salt context ≡ some disclosure
    → open_salted_hash p disclosure (salted_hash_of p disclosure) ≡ some context
unfolding disclosure_of open_salted_hash open_raw
open_salted_hash-disclosure_of p salt context reads d e =
    elim (Option-cases (p.dumps (salted salt context))) [
      | inl n ↦ let nothing : none ≡ some d = rw n at e in cc
      | inr (raw, n) ↦
          let (bytes, back) = reads raw n in
          let whole : some (b64url_encode raw) ≡ some d = rw n at e in
          let same : b64url_encode raw ≡ d = cc in
          rw
            (
              (decode_url_iff d raw).1 (bytes, same),
              (str_eq_iff (salted_hash_of p d) (salted_hash_of p d)).1 refl,
              back,
            )
            refl
    ]

-- What an opening rests on.
opened :
    (p : Packages) (d h : Str) (c : Fields)
    → open_salted_hash p d h ≡ some c
    → salted_hash_of p d ≡ h
unfolding open_salted_hash open_raw
opened p d h c e = elim (Option-cases (decode_url d)) [
  | inl n ↦ let nothing : none ≡ some c = rw n at e in cc
  | inr (raw, n) ↦ elim (Bool-cases (str_eq (salted_hash_of p d) h)) [
    | inl q ↦ (str_eq_iff (salted_hash_of p d) h).0 q
    | inr q ↦ let nothing : none ≡ some c = rw (n, q) at e in cc
  ]
]

encode_once : (a b : Bytes) → IsBytes a → IsBytes b → b64url_encode a ≡ b64url_encode b → a ≡ b
encode_once a b ha hb e =
    let left = (decode_url_iff (b64url_encode b) a).1 (ha, e) in
    let right = (decode_url_iff (b64url_encode b) b).1 (hb, refl) in
    let both : some a ≡ some b = sym left ∙ right in cc

-- Two Disclosures that open one salted hash are the same Disclosure and open it to the same context,
-- or they are two texts with one SHA-256 digest; a digest is taken to be bytes.
pub open_salted_hash-binding :
    (p : Packages)
    → IsDigest p
    → (d d' hash : Str) (c c' : Fields) → open_salted_hash p d hash ≡ some c
    → open_salted_hash p d' hash ≡ some c'
    → ((d ≡ d') × (c ≡ c')) ⊎ Collide p d d'
unfolding salted_hash_of
open_salted_hash-binding p digest d d' hash c c' e e' =
    let texts = opened p d hash c e ∙ sym (opened p d' hash c' e') in
    let digests = encode_once (p.sha256 d) (p.sha256 d') (digest d) (digest d') texts in
    elim (Bool-cases (str_eq d d')) [
      | inl q ↦
          let same = (str_eq_iff d d').0 q in
          let both : some c ≡ some c' = sym e ∙ rw (← same) at e' in inl (same, cc)
      | inr q ↦ inr (λ same. cc (q, (str_eq_iff d d').1 same), digests)
    ]
