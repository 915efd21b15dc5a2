-- ===== src/Base/Lists.antt =====
-- Lists as the program uses them: sets, measured lists and `sorted`.
use Prim.Native.Nat.{ℕ, suc, ◌+◌}
use mathlib.Core.Path.{◌≡◌, refl}
use mathlib.Core.Logic.{◌⊎◌, ◌↔◌}
use mathlib.Core.Bool.{Bool, true, false, ◌||◌}
use mathlib.Core.Option.{Option, none, some}
use mathlib.Core.List.{List, [], ◌∷◌, ◌++◌}
use native.Mathlib.Omega.{arith}
use auditable_mcp_sdk_python.Base.Tests.{if◌then◌else◌}
use auditable_mcp_sdk_python.Base.Equality.{Eq, beq_refl}

module _ {ℓ} {A : Type ℓ} where
  abbrev pub length : List A → ℕ
  length [] = 0
  length (x ∷ xs) = suc (length xs)

  abbrev pub last? : List A → Option A
  last? [] = none
  last? (x ∷ []) = some x
  last? (x ∷ y ∷ xs) = last? (y ∷ xs)

  pub length-append : (xs ys : List A) → length (xs ++ ys) ≡ length xs + length ys
  length-append [] ys = omega arith
  length-append (x ∷ xs) ys = omega (arith, length-append xs ys)

  pub last?-append : (xs : List A) (x : A) → last? (xs ++ x ∷ []) ≡ some x
  last?-append [] x = refl
  last?-append (y ∷ []) x = refl
  last?-append (y ∷ z ∷ xs) x = last?-append (z ∷ xs) x

  -- A predicate of every member.
  abbrev pub All {κ} : (A → Type κ) → List A → Type κ
  All P [] = Unit
  All P (x ∷ xs) = P x × All P xs

  pub All-append {κ} : (P : A → Type κ) (xs ys : List A) → All P xs → All P ys → All P (xs ++ ys)
  All-append P [] ys h k = k
  All-append P (x ∷ xs) ys h k = (h.0, All-append P xs ys h.1 k)

  pub All-append_iff {κ} :
      (P : A → Type κ) (xs ys : List A) → All P (xs ++ ys) ↔ (All P xs × All P ys)
  All-append_iff P [] ys = (λ h. (tt, h), λ h. h.1)
  All-append_iff P (x ∷ xs) ys =
      let rest = All-append_iff P xs ys in
      (λ h. ((h.0, (rest.0 h.1).0), (rest.0 h.1).1), λ h. (h.0.0, rest.1 (h.0.1, h.1)))

  -- A predicate of some member.
  abbrev pub Any : (A → Type 0) → List A → Type 0
  Any P [] = ⊥
  Any P (x ∷ xs) = P x ⊎ Any P xs

  -- The members for which a test holds, as a comprehension keeps them.
  abbrev pub keep : (A → Bool) → List A → List A
  keep p [] = []
  keep p (x ∷ xs) = let rest = keep p xs in if p x then x ∷ rest else rest

module _ {ℓ} {A : Type ℓ} ⦃e : Eq A⦄ where
  -- `a in xs`, of a list or a set
  unfoldable pub member : A → List A → Bool
  member a [] = false
  member a (x ∷ xs) = e.beq a x || member a xs

  -- How often a list has a value.
  unfoldable pub count : A → List A → ℕ
  count a [] = 0
  count a (x ∷ xs) = let rest = count a xs in if e.beq a x then suc rest else rest

  pub count-keep :
      (a : A) (p : A → Bool) (xs : List A) → count a (keep p xs) ≡ (if p a then count a xs else 0)
  unfolding count
  count-keep a p [] = ground arith
  count-keep a p (x ∷ xs) = ground (arith, count-keep a p xs, e.beq_iff a x)

  -- `xs.add(a)`
  unfoldable pub add : A → List A → List A
  add a xs = if member a xs then xs else a ∷ xs

  pub member-add : (b a : A) (xs : List A) → member b (add a xs) ≡ (e.beq b a || member b xs)
  unfolding member add
  member-add b a xs = ground (arith, e.beq_iff b a)

  pub member-add_self : (a : A) (xs : List A) → member a (add a xs) ≡ true
  unfolding member add
  member-add_self a xs = ground (arith, beq_refl a)

  pub member-add_of : (b a : A) (xs : List A) → member b xs ≡ true → member b (add a xs) ≡ true
  member-add_of b a xs h = ground (arith, member-add b a xs)

  pub member-append : (a : A) (xs ys : List A) → member a (xs ++ ys) ≡ (member a xs || member a ys)
  unfolding member
  member-append a [] ys = refl
  member-append a (x ∷ xs) ys = ground (arith, member-append a xs ys)

  pub member-keep :
      (a : A) (p : A → Bool) (xs : List A)
      → member a (keep p xs) ≡ (if p a then member a xs else false)
  unfolding member
  member-keep a p [] = ground arith
  member-keep a p (x ∷ xs) = ground (arith, member-keep a p xs, e.beq_iff a x)

module _ {ℓ} {A : Type ℓ} (leq : A → A → Bool) where
  unfoldable pub insert_sorted : A → List A → List A
  insert_sorted a [] = a ∷ []
  insert_sorted a (x ∷ xs) = if leq a x then a ∷ x ∷ xs else x ∷ insert_sorted a xs

  -- `sorted(xs)`
  unfoldable pub sort : List A → List A
  unfolding insert_sorted
  sort [] = []
  sort (x ∷ xs) = insert_sorted x (sort xs)

module _ {ℓ} {A : Type ℓ} ⦃e : Eq A⦄ (leq : A → A → Bool) where
  member-insert_sorted :
      (a b : A) (xs : List A) → member a (insert_sorted leq b xs) ≡ (e.beq a b || member a xs)
  unfolding member insert_sorted
  member-insert_sorted a b [] = refl
  member-insert_sorted a b (x ∷ xs) = ground (arith, member-insert_sorted a b xs)

  -- Sorting keeps the members.
  pub member-sort : (a : A) (xs : List A) → member a (sort leq xs) ≡ member a xs
  unfolding member sort
  member-sort a [] = refl
  member-sort a (x ∷ xs) = ground (arith, member-insert_sorted a x (sort leq xs), member-sort a xs)

  count-insert_sorted :
      (a b : A) (xs : List A) → count a (insert_sorted leq b xs) ≡ count a (b ∷ xs)
  unfolding count insert_sorted
  count-insert_sorted a b [] = refl
  count-insert_sorted a b (x ∷ xs) = ground (arith, count-insert_sorted a b xs)

  -- Sorting keeps how often a value is there.
  pub count-sort : (a : A) (xs : List A) → count a (sort leq xs) ≡ count a xs
  unfolding count sort
  count-sort a [] = refl
  count-sort a (x ∷ xs) = ground (arith, count-insert_sorted a x (sort leq xs), count-sort a xs)

-- Each member is at most the one behind it.
abbrev pub IsAscending {ℓ} : {A : Type ℓ} → (A → A → Bool) → List A → Type 0
IsAscending leq [] = Unit
IsAscending leq (x ∷ []) = Unit
IsAscending leq (x ∷ y ∷ ys) = (leq x y ≡ true) × IsAscending leq (y ∷ ys)

module _ {ℓ} {A : Type ℓ} (leq : A → A → Bool)
    (total : (a b : A) → leq a b ≡ false → leq b a ≡ true) where
  insert_sorted-IsAscending :
      (b : A) (xs : List A) → IsAscending leq xs → IsAscending leq (insert_sorted leq b xs)
  unfolding insert_sorted
  insert_sorted-IsAscending b [] h = tt
  insert_sorted-IsAscending b (x ∷ []) h = ground (arith, total b x)
  insert_sorted-IsAscending b (x ∷ y ∷ ys) h =
      ground (arith, total b x, insert_sorted-IsAscending b (y ∷ ys) h.1)

  pub sort-IsAscending : (xs : List A) → IsAscending leq (sort leq xs)
  unfolding sort
  sort-IsAscending [] = tt
  sort-IsAscending (x ∷ xs) = insert_sorted-IsAscending x (sort leq xs) (sort-IsAscending xs)
