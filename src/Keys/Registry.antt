-- ===== src/Keys/Registry.antt =====
-- l2/keys.py: `KeyRegistry`.
use auditable_mcp_sdk_python.Base.{
  Bool, true, false, not, ◌||◌, Option, none, some, List, [], ◌∷◌, Str, text, if◌then◌else◌, Str_eq,
}
use auditable_mcp_sdk_python.Base.Order.{str_leb}
use auditable_mcp_sdk_python.Base.Lists.{sort}
use auditable_mcp_sdk_python.Base.Dict.{Dict, lookup, insert}
use auditable_mcp_sdk_python.Base.Result.{Result, ok, raised, value_error, ◌>>=◌}
use auditable_mcp_sdk_python.Json.{
  Json, bool, str, arr, obj, Items, nil, cons, Fields, end, field, get,
}
use auditable_mcp_sdk_python.Keys.{
  SignatureAlgorithm, ed25519, ed, same_algorithm, KeyRole, tool, host, same_role, Crypto,
  PublicKey, same_key, is_key_of,
}
use auditable_mcp_sdk_python.Keys.Jwk.{kid, revoked_member, public_jwk, public_key_of}

pub record RegisteredKey (c : Crypto) : Type 0 where
  pub algorithm : SignatureAlgorithm
  pub public_key : PublicKey c
  pub revoked : Bool

pub record KeyRegistry (c : Crypto) : Type 0 where
  pub role : KeyRole
  pub keys : Dict Str (RegisteredKey c)

module _ (c : Crypto) where
  abbrev pub new_registry : KeyRole → KeyRegistry c
  new_registry role = record { role = role; keys = [] }

  -- An entry under the same `key_id` has another key or algorithm.
  abbrev pub differs : RegisteredKey c → PublicKey c → SignatureAlgorithm → Bool
  differs e key algorithm =
      not (same_algorithm e.algorithm algorithm) || not (same_key c e.public_key key)

  unfoldable pub register_under :
      Str
      → PublicKey c
      → SignatureAlgorithm
      → Option (RegisteredKey c)
      → KeyRegistry c
      → Result (KeyRegistry c)
  register_under key_id key algorithm none r = ok (record r {
    keys =
        insert key_id (record { algorithm = algorithm; public_key = key; revoked = false }) r.keys;
  })
  register_under key_id key algorithm (some e) r =
      if differs e key algorithm then raised value_error else ok r

  unfoldable pub register :
      Str → PublicKey c → SignatureAlgorithm → KeyRegistry c → Result (KeyRegistry c)
  register [] key algorithm r = raised value_error
  register (x ∷ s) key algorithm r =
      if not (is_key_of c key algorithm)
      then raised value_error
      else register_under (x ∷ s) key algorithm (lookup (x ∷ s) r.keys) r

  -- Of a tool key: its name and its public half.
  unfoldable pub register_tool_key :
      Str → c.Ed25519PublicKey → KeyRegistry c → Result (KeyRegistry c)
  register_tool_key key_id k r = register key_id (ed k) ed25519 r

  abbrev pub revoked_entry : RegisteredKey c → RegisteredKey c
  revoked_entry e = record e { revoked = true }

  unfoldable pub revoke : Str → KeyRegistry c → Result (KeyRegistry c)
  revoke key_id r = elim (lookup key_id r.keys) [
    | none ↦ raised value_error
    | some e ↦ ok (record r { keys = insert key_id (revoked_entry e) r.keys })
  ]

  -- `get`
  unfoldable pub entry : Str → KeyRegistry c → Option (RegisteredKey c)
  entry key_id r = lookup key_id r.keys

  abbrev pub unless_revoked : Option (RegisteredKey c) → Option (RegisteredKey c)
  unless_revoked none = none
  unless_revoked (some e) = if e.revoked then none else some e

  unfoldable pub current : Str → KeyRegistry c → Option (RegisteredKey c)
  current key_id r = unless_revoked (entry key_id r)

  unfoldable pub keys_in : Dict Str (RegisteredKey c) → List (PublicKey c)
  keys_in [] = []
  keys_in ((_, e) ∷ d) = e.public_key ∷ keys_in d

  unfoldable pub public_keys : KeyRegistry c → List (PublicKey c)
  public_keys r = keys_in r.keys

  unfoldable pub jwks_of : KeyRole → Dict Str (RegisteredKey c) → Result Items
  jwks_of role [] = ok nil
  jwks_of role ((key_id, e) ∷ d) =
      let rest = jwks_of role d in
      public_jwk c key_id e.public_key e.algorithm role e.revoked
      >>= (λ jwk. rest >>= (λ jwks. ok (cons (obj jwk) jwks)))

  abbrev pub keys_member : Str
  keys_member = text "keys"

  unfoldable pub to_jwks : KeyRegistry c → Result Fields
  to_jwks r =
      jwks_of r.role (sort (λ p q. str_leb p.0 q.0) r.keys)
      >>= (λ jwks. ok (field keys_member (arr jwks) end))

  -- The objects of the list; a member that is none is refused.
  unfoldable pub objects : Items → Result (List Fields)
  objects nil = ok []
  objects (cons (obj fs) xs) = let rest = objects xs in rest >>= (λ more. ok (fs ∷ more))
  objects (cons _ xs) = raised value_error

  abbrev pub listed : Option Json → Result (List Fields)
  listed (some (arr xs)) = objects xs
  listed _ = raised value_error

  abbrev pub Entry : Type 0
  Entry = Str × PublicKey c × SignatureAlgorithm × KeyRole

  unfoldable pub read_all : List Fields → Result (List Entry)
  read_all [] = ok []
  read_all (jwk ∷ jwks) =
      let rest = read_all jwks in public_key_of c jwk >>= (λ e. rest >>= (λ es. ok (e ∷ es)))

  unfoldable pub check_roles : KeyRole → List Entry → Result (Unit {0})
  check_roles role [] = ok tt
  check_roles role ((_, _, _, own) ∷ es) =
      let rest = check_roles role es in if same_role own role then rest else raised value_error

  unfoldable pub register_all : List Entry → KeyRegistry c → Result (KeyRegistry c)
  register_all [] r = ok r
  register_all ((key_id, key, algorithm, _) ∷ es) r =
      register key_id key algorithm r >>= register_all es

  -- `key.get(REVOKED_MEMBER) is True`
  abbrev pub is_true : Option Json → Bool
  is_true (some (bool b)) = b
  is_true _ = false

  -- `str(key['kid'])`, of a JWK that was read
  abbrev pub kid_text : Option Json → Str
  kid_text (some (str s)) = s
  kid_text _ = []

  unfoldable pub revoke_all : List Fields → KeyRegistry c → Result (KeyRegistry c)
  revoke_all [] r = ok r
  revoke_all (jwk ∷ jwks) r =
      if is_true (get revoked_member jwk)
      then revoke (kid_text (get kid jwk)) r >>= revoke_all jwks
      else revoke_all jwks r

  unfoldable pub load_jwks : Fields → KeyRegistry c → Result (KeyRegistry c)
  load_jwks document r = listed (get keys_member document) >>= (λ jwks.
      read_all jwks >>= (λ entries.
        check_roles r.role entries >>= (λ _. register_all entries r >>= revoke_all jwks)))

  unfoldable pub holds : PublicKey c → List (PublicKey c) → Bool
  holds key [] = false
  holds key (k ∷ ks) = same_key c key k || holds key ks

  unfoldable pub shares : List (PublicKey c) → List (PublicKey c) → Bool
  shares [] hosts = false
  shares (k ∷ ks) hosts = holds k hosts || shares ks hosts

  unfoldable pub assert_registries_disjoint : KeyRegistry c → KeyRegistry c → Result (Unit {0})
  assert_registries_disjoint tools hosts =
      if not (same_role tools.role tool) || not (same_role hosts.role host)
      then raised value_error
      else if shares (public_keys tools) (public_keys hosts)
      then raised value_error
      else ok tt
