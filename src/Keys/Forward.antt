-- ===== src/Keys/Forward.antt =====
-- l2/keys.py: a name is bound to one key for life, and a revocation is not lifted.
use auditable_mcp_sdk_python.Base.{
  ◌≡◌, refl, ◌∙◌, true, false, not, Option, none, some, List, [], ◌∷◌, Str, str_eq, str_eq_iff,
  if◌then◌else◌, Str_eq, Bool-cases, inl, inr,
}
use auditable_mcp_sdk_python.Base.Dict.{lookup, insert, lookup-insert}
use auditable_mcp_sdk_python.Base.Result.{ok, raised, value_error, ◌>>=◌, >>=-eq-ok, unraised}
use auditable_mcp_sdk_python.Json.{Fields, get}
use auditable_mcp_sdk_python.Keys.{SignatureAlgorithm, Crypto, PublicKey, is_key_of}
use auditable_mcp_sdk_python.Keys.Jwk.{kid, revoked_member}
use auditable_mcp_sdk_python.Keys.Registry.{
  RegisteredKey, KeyRegistry, differs, register_under, register, revoked_entry, revoke, entry,
  current, listed, keys_member, Entry, read_all, check_roles, register_all, is_true, kid_text,
  revoke_all, load_jwks,
}

module _ (c : Crypto) where
  -- The entry is the same, or the same and revoked.
  abbrev pub IsSameKey : RegisteredKey c → Option (RegisteredKey c) → Type 0
  IsSameKey e o =
      (f : RegisteredKey c) × (o ≡ some f)
      × (f.algorithm ≡ e.algorithm)
      × (f.public_key ≡ e.public_key)
      × (e.revoked ≡ true → f.revoked ≡ true)

  -- Every entry that was there is there, bound to its key and as revoked as it was.
  pub record IsForward (r s : KeyRegistry c) : Type 0 where
    pub role : s.role ≡ r.role
    pub kept : (k : Str) (e : RegisteredKey c) → entry c k r ≡ some e → IsSameKey e (entry c k s)

  IsForward-self : (r : KeyRegistry c) → IsForward r r
  IsForward-self r = record { role = refl; kept = λ k e q. (e, q, refl, refl, λ h. h) }

  IsForward-on : (r s t : KeyRegistry c) → IsForward r s → IsForward s t → IsForward r t
  IsForward-on r s t p q = record {
    role = q.role ∙ p.role;
    kept = λ k e h.
        let (f, hf, a, b, v) = p.kept k e h in
        let (g, hg, a', b', v') = q.kept k f hf in (g, hg, a' ∙ a, b' ∙ b, λ x. v' (v x));
  }

  -- An entry put under a name that was free, or under its own as the same key.
  abbrev Fits : Option (RegisteredKey c) → RegisteredKey c → Type 0
  Fits none g = Unit
  Fits (some e) g = IsSameKey e (some g)

  insert-IsForward :
      (r : KeyRegistry c) (j : Str) (g : RegisteredKey c)
      → Fits (lookup j r.keys) g
      → IsForward r (record r { keys = insert j g r.keys })
  unfolding entry
  insert-IsForward r j g fits = record {
    role = refl;
    kept = λ k e q. elim (Bool-cases (str_eq k j)) [
      | inl same ↦
          let here : k ≡ j = (str_eq_iff k j).0 same in
          let found : lookup j r.keys ≡ some e = rw (← here) q in
          let (f, hf, a, b, v) : IsSameKey e (some g) = rw found at fits in
          let whole : g ≡ f = cc in
          (g, rw (lookup-insert k j g r.keys, same) refl, rw whole a, rw whole b, rw whole v)
      | inr other ↦ (e, rw (lookup-insert k j g r.keys, other) q, refl, refl, λ h. h)
    ];
  }

  register_under-IsForward :
      (k : Str) (key : PublicKey c) (algorithm : SignatureAlgorithm) (o : Option (RegisteredKey c))
      (r s : KeyRegistry c)
      → lookup k r.keys ≡ o
      → register_under c k key algorithm o r ≡ ok s
      → IsForward r s
  unfolding register_under
  register_under-IsForward k key algorithm none r s q h =
      let added : RegisteredKey c = record {
        algorithm = algorithm;
        public_key = key;
        revoked = false;
      } in
      let same : record r { keys = insert k added r.keys } ≡ s = cc in
      rw (← same) (insert-IsForward r k added (rw q tt))
  register_under-IsForward k key algorithm (some e) r s q h =
      let same : ok r ≡ ok s = unraised (differs c e key algorithm) value_error (ok r) h in
      let whole : r ≡ s = cc in rw (← whole) (IsForward-self r)

  register-IsForward :
      (k : Str) (key : PublicKey c) (algorithm : SignatureAlgorithm) (r s : KeyRegistry c)
      → register c k key algorithm r ≡ ok s
      → IsForward r s
  unfolding register
  register-IsForward [] key algorithm r s h = cc
  register-IsForward (x ∷ k) key algorithm r s h =
      register_under-IsForward (x ∷ k) key algorithm (lookup (x ∷ k) r.keys) r s refl (
        unraised (not (is_key_of c key algorithm)) value_error
          (register_under c (x ∷ k) key algorithm (lookup (x ∷ k) r.keys) r) h)

  revoke_found :
      (k : Str) (o : Option (RegisteredKey c)) (r s : KeyRegistry c)
      → lookup k r.keys ≡ o
      → (elim o [
        | none ↦ raised value_error
        | some e ↦ ok (record r { keys = insert k (revoked_entry c e) r.keys })
      ])
        ≡ ok s
      → (e : RegisteredKey c) × (lookup k r.keys ≡ some e)
        × (s ≡ record r { keys = insert k (revoked_entry c e) r.keys })
  revoke_found k none r s q h = cc
  revoke_found k (some e) r s q h = (e, q, cc)

  revoke-IsForward : (k : Str) (r s : KeyRegistry c) → revoke c k r ≡ ok s → IsForward r s
  unfolding revoke
  revoke-IsForward k r s h =
      let (e, q, same) = revoke_found k (lookup k r.keys) r s refl h in
      rw same (
        insert-IsForward r k (revoked_entry c e)
          (rw q (revoked_entry c e, refl, refl, refl, λ _. refl)))

  -- Revoking a name that is registered keeps its entry for records that are sealed, and leaves it no
  -- entry that confirms anything new; every other name has the entry that it had.
  pub revoke_lem :
      (k : Str) (r s : KeyRegistry c)
      → revoke c k r ≡ ok s
      → (e : RegisteredKey c) × (entry c k r ≡ some e)
        × (current c k s ≡ none)
        × ((j : Str) → entry c j s ≡ (if str_eq j k then some (revoked_entry c e) else entry c j r))
  unfolding revoke entry current
  revoke_lem k r s h =
      let (e, q, same) = revoke_found k (lookup k r.keys) r s refl h in
      let self : str_eq k k ≡ true = (str_eq_iff k k).1 refl in
      let found : lookup k s.keys ≡ some (revoked_entry c e) =
        rw same (rw (lookup-insert k k (revoked_entry c e) r.keys, self) refl) in
      (e, q, rw found refl, λ j. rw same (lookup-insert j k (revoked_entry c e) r.keys))

  register_all-IsForward :
      (es : List (Entry c)) (r s : KeyRegistry c) → register_all c es r ≡ ok s → IsForward r s
  unfolding register_all
  register_all-IsForward [] r s h = let same : r ≡ s = cc in rw (← same) (IsForward-self r)
  register_all-IsForward ((k, key, algorithm, role) ∷ es) r s h =
      let (t, p, q) = >>=-eq-ok (register c k key algorithm r) (register_all c es) h in
      IsForward-on r t s (register-IsForward k key algorithm r t p)
        (register_all-IsForward es t s q)

  revoke_all-IsForward :
      (jwks : List Fields) (r s : KeyRegistry c) → revoke_all c jwks r ≡ ok s → IsForward r s
  unfolding revoke_all
  revoke_all-IsForward [] r s h = let same : r ≡ s = cc in rw (← same) (IsForward-self r)
  revoke_all-IsForward (jwk ∷ jwks) r s h = elim (Bool-cases (is_true c (get revoked_member jwk))) [
    | inl m ↦
        let chain : revoke c (kid_text c (get kid jwk)) r >>= revoke_all c jwks ≡ ok s =
          rw m at h in
        let (t, p, q) =
          >>=-eq-ok (revoke c (kid_text c (get kid jwk)) r) (revoke_all c jwks) chain in
        IsForward-on r t s (revoke-IsForward (kid_text c (get kid jwk)) r t p)
          (revoke_all-IsForward jwks t s q)
    | inr m ↦ revoke_all-IsForward jwks r s (rw m at h)
  ]

  -- Loading a JWK Set adds to a registry and takes nothing away: where it returns, every name that was
  -- bound is bound to the same key and algorithm, and one that was revoked is revoked, whatever copies
  -- of the keys the set holds.
  pub load_jwks-IsForward :
      (document : Fields) (r s : KeyRegistry c) → load_jwks c document r ≡ ok s → IsForward r s
  unfolding load_jwks
  load_jwks-IsForward document r s h =
      let (jwks, p, h1) = >>=-eq-ok (listed c (get (keys_member c) document)) _ h in
      let (entries, q, h2) = >>=-eq-ok (read_all c jwks) _ h1 in
      let (u, t, h3) = >>=-eq-ok (check_roles c r.role entries) _ h2 in
      let (m, a, b) = >>=-eq-ok (register_all c entries r) (revoke_all c jwks) h3 in
      IsForward-on r m s (register_all-IsForward entries r m a) (revoke_all-IsForward jwks m s b)
