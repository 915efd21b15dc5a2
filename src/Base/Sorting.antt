-- ===== src/Base/Sorting.antt =====
-- `sorted` on numbers.
use Prim.Native.Nat.{ℕ, ◌≤◌}
use mathlib.Core.Logic.{◌↔◌, ◌⊎◌, inl, inr}
use mathlib.Core.List.{List, [], ◌∷◌}
use native.Mathlib.Omega.{arith}
use auditable_mcp_sdk_python.Base.Tests.{leb, Bool-cases}
use auditable_mcp_sdk_python.Base.Lists.{All, Any, insert_sorted, sort}

-- Each member is at most those behind it.
abbrev pub IsSorted : List ℕ → Type 0
IsSorted [] = Unit
IsSorted (x ∷ xs) = All (λ y. x ≤ y) xs × IsSorted xs

All-le : (a b : ℕ) (xs : List ℕ) → a ≤ b → All (λ y. b ≤ y) xs → All (λ y. a ≤ y) xs
All-le a b [] h k = tt
All-le a b (x ∷ xs) h k = (omega arith, All-le a b xs h k.1)

All-insert_sorted :
    (a b : ℕ) (xs : List ℕ)
    → a ≤ b
    → All (λ y. a ≤ y) xs
    → All (λ y. a ≤ y) (insert_sorted leb b xs)
unfolding insert_sorted
All-insert_sorted a b [] h k = (h, tt)
All-insert_sorted a b (x ∷ xs) h k = ground (arith, All-insert_sorted a b xs h k.1)

insert_sorted-IsSorted : (b : ℕ) (xs : List ℕ) → IsSorted xs → IsSorted (insert_sorted leb b xs)
unfolding insert_sorted
insert_sorted-IsSorted b [] h = (tt, tt)
insert_sorted-IsSorted b (x ∷ xs) h =
    ground (arith, insert_sorted-IsSorted b xs h.1, All-insert_sorted x b xs, All-le b x xs, h.0)

pub sort-IsSorted : (xs : List ℕ) → IsSorted (sort leb xs)
unfolding sort
sort-IsSorted [] = tt
sort-IsSorted (x ∷ xs) = insert_sorted-IsSorted x (sort leb xs) (sort-IsSorted xs)

module _ (P : ℕ → Type 0) where
  Any-insert_sorted : (b : ℕ) (xs : List ℕ) → Any P (insert_sorted leb b xs) ↔ (P b ⊎ Any P xs)
  unfolding insert_sorted
  Any-insert_sorted b [] = (λ h. h, λ h. h)
  Any-insert_sorted b (x ∷ xs) =
      elim (Bool-cases (leb b x))
        as (λ _. Any P (insert_sorted leb b (x ∷ xs)) ↔ (P b ⊎ Any P (x ∷ xs))) [
          | inl e ↦ rw e (λ h. h, λ h. h)
          | inr e ↦ rw e (
            λ h. elim h [
              | inl p ↦ inr (inl p)
              | inr q ↦ elim ((Any-insert_sorted b xs).0 q) [ inl p ↦ inl p | inr p ↦ inr (inr p) ]
            ],
            λ h. elim h [
              | inl p ↦ inr ((Any-insert_sorted b xs).1 (inl p))
              | inr q ↦ elim q [ inl p ↦ inl p | inr p ↦ inr ((Any-insert_sorted b xs).1 (inr p)) ]
            ],
          )
        ]

  -- Sorting keeps what some member satisfies.
  pub Any-sort : (xs : List ℕ) → Any P (sort leb xs) ↔ Any P xs
  unfolding sort
  Any-sort [] = (λ h. h, λ h. h)
  Any-sort (x ∷ xs) =
      let step = Any-insert_sorted x (sort leb xs) in
      (
        λ h. elim (step.0 h) [ inl p ↦ inl p | inr p ↦ inr ((Any-sort xs).0 p) ],
        λ h. step.1 (elim h [ inl p ↦ inl p | inr p ↦ inr ((Any-sort xs).1 p) ]),
      )
