-- ===== src/Verify/Runs.antt =====
-- The runs of missing numbers, and what a refusal accounts for.
use auditable_mcp_sdk_python.Base.{
  ℕ, ◌+◌, ◌-◌, ◌≤◌, ◌<◌, ◌≡◌, refl, ◌↔◌, ◌⊎◌, inl, inr, Bool, true, false, List, [], ◌∷◌, ltb, leb,
  arith, if◌then◌else◌, Bool-cases, ℕ_eq, nat_eq,
}
use auditable_mcp_sdk_python.Base.Lists.{All, Any, member, sort, member-sort}
use auditable_mcp_sdk_python.Base.Sorting.{IsSorted, sort-IsSorted, Any-sort}
use auditable_mcp_sdk_python.Verify.Accounting.{Run, runs_from, missing_runs, account}

-- The value stands in one of the runs.
abbrev pub InRuns : ℕ → List Run → Type 0
InRuns n [] = ⊥
InRuns n ((a, b) ∷ runs) = ((a ≤ n) × (n ≤ b)) ⊎ InRuns n runs

-- The value is below some member of the set, and is not in it.
abbrev pub IsMissing : ℕ → List ℕ → Type 0
IsMissing n vs = Any (λ v. n < v) vs × (member n vs ≡ false)

not-member-lt : (n v : ℕ) (vs : List ℕ) → n < v → All (λ y. v ≤ y) vs → member n vs ≡ false
unfolding member
not-member-lt n v [] h k = refl
not-member-lt n v (x ∷ vs) h k = ground (arith, not-member-lt n v vs h k.1)

InRuns-if :
    (n : ℕ) (b : Bool) (run : Run) (runs : List Run)
    → InRuns n (if b then run ∷ runs else runs)
      ↔ (((b ≡ true) × (run.0 ≤ n) × (n ≤ run.1)) ⊎ InRuns n runs)
InRuns-if n true run runs = (
  λ h. elim h [ inl k ↦ inl (refl, k.0, k.1) | inr k ↦ inr k ],
  λ h. elim h [ inl k ↦ inl (k.1, k.2) | inr k ↦ inr k ],
)
InRuns-if n false run runs = (λ h. inr h, λ h. elim h [ inl k ↦ cc k.0 | inr k ↦ k ])

All-shift : (v : ℕ) (vs : List ℕ) → All (λ y. v ≤ y) vs → All (λ y. v + 1 ≤ y + 1) vs
All-shift v [] h = tt
All-shift v (x ∷ vs) h = (omega arith, All-shift v vs h.1)

runs_from_iff :
    (n f : ℕ) (vs : List ℕ)
    → IsSorted vs
    → All (λ v. f ≤ v + 1) vs
    → InRuns n (runs_from f vs) ↔ ((f ≤ n) × IsMissing n vs)
unfolding runs_from member
runs_from_iff n f [] s h = (λ k. elim k [ ], λ k. k.1.0)
runs_from_iff n f (v ∷ vs) s h =
    let later = runs_from_iff n (v + 1) vs s.1 (All-shift v vs s.0) in
    let here = InRuns-if n (ltb f v) (f, v - 1) (runs_from (v + 1) vs) in
    (
      λ k. elim (here.0 k) [
        | inl (less, low, high) ↦
            let below : n < v = ground arith in
            (low, (inl below, ground (arith, not-member-lt n v vs below s.0)))
        | inr k' ↦ let (above, missing) = later.0 k' in (omega arith, (inr missing.0, ground arith))
      ],
      λ (low, missing). here.1 (elim (Bool-cases (ltb n v)) [
        | inl e ↦ inl (ground arith, ground arith, ground arith)
        | inr e ↦ inr (
            later.1 (
              ground arith,
              (elim missing.0 [ inl p ↦ absurd (ground arith) | inr p ↦ p ], ground arith),
            ))
      ]),
    )

from_zero : (vs : List ℕ) → All (λ v. 0 ≤ v + 1) vs
from_zero [] = tt
from_zero (v ∷ vs) = (omega arith, from_zero vs)

-- The runs hold exactly the values below the largest sealed one that are not sealed.
pub missing_runs_iff :
    (n : ℕ) (present : List ℕ) → InRuns n (missing_runs present) ↔ IsMissing n present
unfolding missing_runs
missing_runs_iff n present =
    let sorted = sort leb present in
    let exact = runs_from_iff n 0 sorted (sort-IsSorted present) (from_zero sorted) in
    let same = Any-sort (λ v. n < v) present in
    (
      λ h. (same.0 (exact.0 h).1.0, rw member-sort at (exact.0 h).1.1),
      λ h. exact.1 (omega arith, (same.1 h.0, rw member-sort h.1)),
    )

-- The runs follow one another, none is empty, and all stand above `n`.
abbrev pub Ascending : ℕ → List Run → Type 0
Ascending n [] = Unit
Ascending n ((a, b) ∷ runs) = (n ≤ a) × (a ≤ b) × Ascending (b + 1) runs

InRuns-above : (n m : ℕ) (runs : List Run) → Ascending m runs → InRuns n runs → m ≤ n
InRuns-above n m [] h k = elim k [ ]
InRuns-above n m ((a, b) ∷ runs) h k = elim k [
  | inl p ↦ omega arith
  | inr p ↦ let above = InRuns-above n (b + 1) runs h.2 p in omega arith
]

-- The smallest value of the runs.
abbrev pub IsSmallest : ℕ → List Run → Type 0
IsSmallest n [] = ⊥
IsSmallest n ((a, b) ∷ runs) = n ≡ a

Ascending-le : (m n : ℕ) (runs : List Run) → m ≤ n → Ascending n runs → Ascending m runs
Ascending-le m n [] h k = tt
Ascending-le m n ((a, b) ∷ runs) h k = (omega arith, k.1, k.2)

pub runs_from-Ascending :
    (f : ℕ) (vs : List ℕ) → IsSorted vs → All (λ v. f ≤ v + 1) vs → Ascending f (runs_from f vs)
unfolding runs_from
runs_from-Ascending f [] s h = tt
runs_from-Ascending f (v ∷ vs) s h =
    let later = runs_from-Ascending (v + 1) vs s.1 (All-shift v vs s.0) in
    elim (Bool-cases (ltb f v)) [
      | inl e ↦ rw e (
        omega arith,
        ground arith,
        Ascending-le (v - 1 + 1) (v + 1) (runs_from (v + 1) vs) (omega arith) later,
      )
      | inr e ↦ rw e (Ascending-le f (v + 1) (runs_from (v + 1) vs) h.0 later)
    ]

pub missing_runs-Ascending : (present : List ℕ) → Ascending 0 (missing_runs present)
unfolding missing_runs
missing_runs-Ascending present =
    runs_from-Ascending 0 (sort leb present) (sort-IsSorted present) (from_zero (sort leb present))

-- Of ascending runs, none of them empty, a refusal takes the smallest value, where that is below the
-- refusal's own value, and no other.
pub account_iff :
    (n refusal : ℕ) (runs : List Run)
    → Ascending 0 runs
    → InRuns n (account runs refusal) ↔ (InRuns n runs × ¬ (IsSmallest n runs × (n < refusal)))
unfolding account
account_iff n refusal [] h = (λ k. elim k [ ], λ k. k.0)
account_iff n refusal ((a, b) ∷ runs) h = elim (Bool-cases (leb refusal a)) [
  | inl e ↦ rw e (λ k. (k, λ q. ground arith), λ k. k.0)
  | inr e ↦ rw e (elim (Bool-cases (ltb b (a + 1))) [
    | inl one ↦ rw one (
      λ k. (inr k, λ q. let above = InRuns-above n (b + 1) runs h.2 k in ground arith),
      λ k. elim k.0 [ inl p ↦ absurd (k.1 (ground arith, ground arith)) | inr p ↦ p ],
    )
    | inr more ↦ rw more (
      λ k. elim k [
        | inl p ↦ (inl (omega arith, p.1), λ q. omega arith)
        | inr p ↦ (inr p, λ q. let above = InRuns-above n (b + 1) runs h.2 p in omega arith)
      ],
      λ k. elim k.0 [
        | inl p ↦ inl (
          elim (Bool-cases (nat_eq n a)) [
            | inl z ↦ absurd (k.1 (ground arith, ground arith))
            | inr z ↦ ground arith
          ],
          p.1,
        )
        | inr p ↦ inr p
      ],
    )
  ])
]
