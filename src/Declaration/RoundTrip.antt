-- ===== src/Declaration/RoundTrip.antt =====
-- A declaration is read back as it was made, and leaves the rest of the capabilities alone.
use auditable_mcp_sdk_python.Base.{
  ◌≡◌, ◌≢◌, refl, ℕ, Bool, false, some, [], ◌∷◌, Str, str_eq, str_eq_iff, arith,
}
use auditable_mcp_sdk_python.Base.Equality.{str_eq}
use auditable_mcp_sdk_python.Base.Lists.{member}
use auditable_mcp_sdk_python.Json.{Json, obj, Fields, get, get_str, put}
use auditable_mcp_sdk_python.Canonical.{has_lone_surrogate, surrogate_in, surrogate_fields}
use auditable_mcp_sdk_python.Models.{
  AuditCapability, Level, l1, l2, Countersign, no_countersign, host_countersign,
}
use auditable_mcp_sdk_python.Models.Event.{of_model}
use auditable_mcp_sdk_python.Models.Message.{extension_id, capability_to_wire, read_capability}
use auditable_mcp_sdk_python.Declaration.{
  extensions_member, extensions, declare_into, capability_of, get-put,
}

-- What a capability that Pydantic has built satisfies.
pub record IsDeclarable (c : AuditCapability) : Type 0 where
  pub named : c.version ≢ []
  pub scalar : surrogate_in c.version ≡ false

read_built :
    (d : ℕ → Bool) (x : ℕ) (s : Str) (l : Level) (k : Countersign)
    → surrogate_in (x ∷ s) ≡ false
    → let c : AuditCapability = record { version = x ∷ s; level = l; countersign = k } in
      read_capability d (obj (capability_to_wire c)) ≡ some c
unfolding read_capability of_model capability_to_wire get str_eq member has_lone_surrogate
    surrogate_fields surrogate_in get_str
read_built d x s l1 no_countersign h = rw h
read_built d x s l1 host_countersign h = rw h
read_built d x s l2 no_countersign h = rw h
read_built d x s l2 host_countersign h = rw h

read_built_of :
    (d : ℕ → Bool) (v : Str) (l : Level) (k : Countersign)
    → v ≢ []
    → surrogate_in v ≡ false
    → let c : AuditCapability = record { version = v; level = l; countersign = k } in
      read_capability d (obj (capability_to_wire c)) ≡ some c
read_built_of d [] l k n h = absurd (n refl)
read_built_of d (x ∷ s) l k n h = read_built d x s l k h

extensions-declare_into :
    (fs : Fields) (c : AuditCapability)
    → extensions (some (obj (declare_into fs c)))
      ≡ put extension_id (obj (capability_to_wire c)) (extensions (some (obj fs)))
unfolding declare_into extensions
extensions-declare_into fs c = rw (get-put, (str_eq_iff extensions_member extensions_member).1 refl)

get-put_other : (j k : Str) (v : Json) (fs : Fields) → j ≢ k → get j (put k v fs) ≡ get j fs
get-put_other j k v fs n = ground (arith, get-put j k v fs, str_eq_iff j k)

-- A capability with a version and no lone surrogate, declared in a capabilities object, is read back
-- from it as it was, and every other extension and every other member of the object stay as they
-- were.
pub capability_of-declare_into :
    (d : ℕ → Bool) (fs : Fields) (c : AuditCapability) (j k : Str)
    → IsDeclarable c
    → j ≢ extension_id
    → k ≢ extensions_member
    → (capability_of d (some (obj (declare_into fs c))) ≡ some c)
      × (get j (extensions (some (obj (declare_into fs c)))) ≡ get j (extensions (some (obj fs))))
      × (get k (declare_into fs c) ≡ get k fs)
unfolding capability_of
capability_of-declare_into d fs c j k built other elsewhere = (
  rw
      (
        capability_of,
        extensions-declare_into fs c,
        get-put,
        (str_eq_iff extension_id extension_id).1 refl,
      )
      (read_built_of d c.version c.level c.countersign built.named built.scalar),
  rw extensions-declare_into (get-put_other j extension_id _ _ other),
  unfold declare_into in get-put_other k extensions_member _ fs elsewhere,
)
