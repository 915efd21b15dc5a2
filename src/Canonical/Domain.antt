-- ===== src/Canonical/Domain.antt =====
-- What the tests of canonical.py find, against the values that occur in a document.
use auditable_mcp_sdk_python.Base.{
  ◌≡◌, refl, ◌↔◌, ◌⊎◌, ◌≤◌, ◌<◌, Bool, true, false, ◌||◌, some, [], ◌∷◌, inl, inr, Str, arith,
  Bool-cases,
}
use auditable_mcp_sdk_python.Json.{
  magnitude, nan, infinite, integral, fraction, Json, null, bool, int, float, str, arr, obj, Items,
  nil, cons, Fields, end, field,
}
use auditable_mcp_sdk_python.Canonical.{
  Jcs, max_safe_integer, unsafe_float, has_unsafe_number, unsafe_items, unsafe_fields, surrogate_in,
  has_lone_surrogate, surrogate_items, surrogate_fields, outside_canonical_domain, canonicalize,
}

-- `Occurs w v`: the value `w` is `v`, or stands in it at any depth, as an item, as the value of a
-- member or, as a string, as a member's name.
mutual
  pub data Occurs (w : Json) : Json → Type 0 where
    here : Occurs w w
    item : {xs : Items} → InItems w xs → Occurs w (arr xs)
    member : {fs : Fields} → InFields w fs → Occurs w (obj fs)

  pub data InItems (w : Json) : Items → Type 0 where
    first : {v : Json} {xs : Items} → Occurs w v → InItems w (cons v xs)
    later : {v : Json} {xs : Items} → InItems w xs → InItems w (cons v xs)

  pub data InFields (w : Json) : Fields → Type 0 where
    name : {k : Str} {v : Json} {fs : Fields} → w ≡ str k → InFields w (field k v fs)
    value : {k : Str} {v : Json} {fs : Fields} → Occurs w v → InFields w (field k v fs)
    after : {k : Str} {v : Json} {fs : Fields} → InFields w fs → InFields w (field k v fs)

-- Some character of the text is a surrogate.
abbrev pub HasSurrogate : Str → Type 0
HasSurrogate [] = ⊥
HasSurrogate (c ∷ s) = ((0xd800 ≤ c) × (c ≤ 0xdfff)) ⊎ HasSurrogate s

-- A number or a text that the specification excludes.
abbrev pub Outside : Json → Type 0
Outside (int z) = max_safe_integer < magnitude z
Outside (float nan) = Unit
Outside (float (infinite _)) = Unit
Outside (float (integral z)) = max_safe_integer < magnitude z
Outside (float (fraction _ _)) = ⊥
Outside (str s) = HasSurrogate s
Outside _ = ⊥

surrogate_in-HasSurrogate : (s : Str) → surrogate_in s ≡ true → HasSurrogate s
unfolding surrogate_in
surrogate_in-HasSurrogate [] h = cc
surrogate_in-HasSurrogate (c ∷ s) h = elim (Bool-cases (surrogate_in s)) [
  | inl e ↦ inr (surrogate_in-HasSurrogate s e)
  | inr e ↦ inl (ground arith, ground arith)
]

HasSurrogate-surrogate_in : (s : Str) → HasSurrogate s → surrogate_in s ≡ true
unfolding surrogate_in
HasSurrogate-surrogate_in [] h = elim h [ ]
HasSurrogate-surrogate_in (c ∷ s) (inl h) = ground arith
HasSurrogate-surrogate_in (c ∷ s) (inr h) = ground (arith, HasSurrogate-surrogate_in s h)

or_cases : (a b : Bool) → a || b ≡ true → (a ≡ true) ⊎ (b ≡ true)
or_cases true b h = inl refl
or_cases false b h = inr h

abbrev Found : Json → Type 0
Found v = (w : Json) × Occurs w v × Outside w

abbrev FoundInItems : Items → Type 0
FoundInItems xs = (w : Json) × InItems w xs × Outside w

abbrev FoundInFields : Fields → Type 0
FoundInFields fs = (w : Json) × InFields w fs × Outside w

in_first : {v : Json} {xs : Items} → Found v → FoundInItems (cons v xs)
in_first (w, o, b) = (w, first o, b)

in_later : {v : Json} {xs : Items} → FoundInItems xs → FoundInItems (cons v xs)
in_later (w, o, b) = (w, later o, b)

in_value : {k : Str} {v : Json} {fs : Fields} → Found v → FoundInFields (field k v fs)
in_value (w, o, b) = (w, value o, b)

in_after : {k : Str} {v : Json} {fs : Fields} → FoundInFields fs → FoundInFields (field k v fs)
in_after (w, o, b) = (w, after o, b)

in_name : {k : Str} {v : Json} {fs : Fields} → HasSurrogate k → FoundInFields (field k v fs)
in_name {k} h = (str k, name refl, h)

in_arr : {xs : Items} → FoundInItems xs → Found (arr xs)
in_arr (w, o, b) = (w, item o, b)

in_obj : {fs : Fields} → FoundInFields fs → Found (obj fs)
in_obj (w, o, b) = (w, member o, b)

mutual
  unfolding has_unsafe_number unsafe_items unsafe_fields unsafe_float

  unsafe-Found : (v : Json) → has_unsafe_number v ≡ true → Found v
  unsafe-Found null h = cc
  unsafe-Found (bool b) h = cc
  unsafe-Found (int z) h = (int z, here, ground arith)
  unsafe-Found (float nan) h = (float nan, here, tt)
  unsafe-Found (float (infinite b)) h = (float (infinite b), here, tt)
  unsafe-Found (float (integral z)) h = (float (integral z), here, ground arith)
  unsafe-Found (float (fraction m e)) h = cc
  unsafe-Found (str s) h = cc
  unsafe-Found (arr xs) h = in_arr (unsafe_items-Found xs h)
  unsafe-Found (obj fs) h = in_obj (unsafe_fields-Found fs h)

  unsafe_items-Found : (xs : Items) → unsafe_items xs ≡ true → FoundInItems xs
  unsafe_items-Found nil h = cc
  unsafe_items-Found (cons v xs) h = elim (or_cases (has_unsafe_number v) (unsafe_items xs) h) [
    | inl e ↦ in_first (unsafe-Found v e)
    | inr e ↦ in_later (unsafe_items-Found xs e)
  ]

  unsafe_fields-Found : (fs : Fields) → unsafe_fields fs ≡ true → FoundInFields fs
  unsafe_fields-Found end h = cc
  unsafe_fields-Found (field k v fs) h =
      elim (or_cases (has_unsafe_number v) (unsafe_fields fs) h) [
        | inl e ↦ in_value (unsafe-Found v e)
        | inr e ↦ in_after (unsafe_fields-Found fs e)
      ]

mutual
  unfolding has_lone_surrogate surrogate_items surrogate_fields

  surrogate-Found : (v : Json) → has_lone_surrogate v ≡ true → Found v
  surrogate-Found null h = cc
  surrogate-Found (bool b) h = cc
  surrogate-Found (int z) h = cc
  surrogate-Found (float f) h = cc
  surrogate-Found (str s) h = (str s, here, surrogate_in-HasSurrogate s h)
  surrogate-Found (arr xs) h = in_arr (surrogate_items-Found xs h)
  surrogate-Found (obj fs) h = in_obj (surrogate_fields-Found fs h)

  surrogate_items-Found : (xs : Items) → surrogate_items xs ≡ true → FoundInItems xs
  surrogate_items-Found nil h = cc
  surrogate_items-Found (cons v xs) h =
      elim (or_cases (has_lone_surrogate v) (surrogate_items xs) h) [
        | inl e ↦ in_first (surrogate-Found v e)
        | inr e ↦ in_later (surrogate_items-Found xs e)
      ]

  surrogate_fields-Found : (fs : Fields) → surrogate_fields fs ≡ true → FoundInFields fs
  surrogate_fields-Found end h = cc
  surrogate_fields-Found (field k v fs) h =
      elim (or_cases (surrogate_in k || has_lone_surrogate v) (surrogate_fields fs) h) [
        | inl e ↦ elim (or_cases (surrogate_in k) (has_lone_surrogate v) e) [
          | inl n ↦ in_name (surrogate_in-HasSurrogate k n)
          | inr n ↦ in_value (surrogate-Found v n)
        ]
        | inr e ↦ in_after (surrogate_fields-Found fs e)
      ]

-- A value outside the domain is caught by one of the two tests.
Outside-here : (w : Json) → Outside w → has_unsafe_number w || has_lone_surrogate w ≡ true
unfolding has_unsafe_number has_lone_surrogate unsafe_float
Outside-here null h = elim h [ ]
Outside-here (bool b) h = elim h [ ]
Outside-here (int z) h = ground arith
Outside-here (float nan) h = refl
Outside-here (float (infinite b)) h = refl
Outside-here (float (integral z)) h = ground arith
Outside-here (float (fraction m e)) h = elim h [ ]
Outside-here (str s) h = HasSurrogate-surrogate_in s h
Outside-here (arr xs) h = elim h [ ]
Outside-here (obj fs) h = elim h [ ]

name-surrogate : (w : Json) (k : Str) → Outside w → w ≡ str k → surrogate_in k ≡ true
name-surrogate w k h e = HasSurrogate-surrogate_in k (rw e at h)

mutual
  unfolding has_unsafe_number unsafe_items unsafe_fields has_lone_surrogate surrogate_items
      surrogate_fields

  found :
      {w : Json} (v : Json)
      → Outside w
      → Occurs w v
      → has_unsafe_number v || has_lone_surrogate v ≡ true
  found v b here = Outside-here v b
  found (arr xs) b (item o) = found_items xs b o
  found (obj fs) b (member o) = found_fields fs b o

  found_items :
      {w : Json} (xs : Items)
      → Outside w
      → InItems w xs
      → unsafe_items xs || surrogate_items xs ≡ true
  found_items nil b o = elim o [ ]
  found_items (cons v xs) b (first o) = ground (arith, found v b o)
  found_items (cons v xs) b (later o) = ground (arith, found_items xs b o)

  found_fields :
      {w : Json} (fs : Fields)
      → Outside w
      → InFields w fs
      → unsafe_fields fs || surrogate_fields fs ≡ true
  found_fields end b o = elim o [ ]
  found_fields {w} (field k v fs) b (name e) = ground (arith, name-surrogate w k b e)
  found_fields (field k v fs) b (value o) = ground (arith, found v b o)
  found_fields (field k v fs) b (after o) = ground (arith, found_fields fs b o)

-- A value is outside the canonicalization domain exactly when a number beyond the safe integers or
-- not finite, or a text with a surrogate, occurs in it at some depth, as an item, a member's value
-- or a member's name.
pub outside_canonical_domain_iff :
    (v : Json) → (outside_canonical_domain v ≡ true) ↔ ((w : Json) × Occurs w v × Outside w)
unfolding outside_canonical_domain
outside_canonical_domain_iff v = (
  λ h. elim (or_cases (has_unsafe_number v) (has_lone_surrogate v) h) [
    | inl e ↦ unsafe-Found v e
    | inr e ↦ surrogate-Found v e
  ],
  λ (w, o, b). found v b o,
)

-- Where the code canonicalizes a value, the value is in the domain, and the text is the package's.
pub canonicalize-domain :
    (c : Jcs) (v : Json) (s : Str)
    → canonicalize c v ≡ some s
    → (outside_canonical_domain v ≡ false) × (c.dumps v ≡ some s)
unfolding canonicalize outside_canonical_domain
canonicalize-domain c v s h = (ground arith, ground arith)
