-- ===== src/Storage/Laws.antt =====
-- What `InMemoryLedgerRepository` keeps.
use auditable_mcp_sdk_python.Base.{
  ℕ, suc, ◌+◌, ◌≡◌, true, some, List, [], ◌∷◌, ◌++◌, Str, arith, nat_eq, if◌then◌else◌, Str_eq,
  str_eq, str_eq_iff,
}
use auditable_mcp_sdk_python.Base.Lists.{length, last?-append}
use auditable_mcp_sdk_python.Base.Dict.{insert, get_or, lookup-insert}
use auditable_mcp_sdk_python.Ledger.{SealedRecord}
use auditable_mcp_sdk_python.Storage.{Store, read_all, append, load_tail}

read_all-insert :
    (s : Store) (p q : Str) (rs : List SealedRecord)
    → read_all (insert q rs s) p ≡ (if str_eq p q then rs else read_all s p)
unfolding read_all get_or
read_all-insert s p q rs = ground (arith, lookup-insert p q rs s)

-- The records hold the positions from `n` on, in order.
abbrev pub Numbered : ℕ → List SealedRecord → Type 0
Numbered n [] = Unit
Numbered n (r ∷ rs) = (r.seq ≡ n) × Numbered (suc n) rs

Numbered-append :
    (n : ℕ) (rs : List SealedRecord) (r : SealedRecord)
    → Numbered n rs
    → r.seq ≡ n + length rs
    → Numbered n (rs ++ r ∷ [])
Numbered-append n [] r h e = (omega arith, tt)
Numbered-append n (x ∷ rs) r h e = (h.0, Numbered-append (suc n) rs r h.1 (omega arith))

-- What an append does, to its own partition and to every other: it stores a record that has the
-- next free position at the end, and there `load_tail` finds it; it refuses any other and changes
-- no partition.
pub append_lem :
    (s : Store) (p q : Str) (r : SealedRecord)
    → let (done, s') = append s p r in
      (done ≡ nat_eq r.seq (length (read_all s p)))
      × (read_all s' q ≡ (
          if str_eq q p
          then (if done then read_all s p ++ r ∷ [] else read_all s p)
          else read_all s q))
      × (done ≡ true → load_tail s' p ≡ some r)
unfolding append load_tail
append_lem s p q r = (
  ground arith,
  ground (
    arith,
    read_all-insert s q p (read_all s p ++ r ∷ []),
    read_all-insert s q p (read_all s p),
    str_eq_iff q p,
  ),
  λ h. ground (
    arith,
    read_all-insert s p p (read_all s p ++ r ∷ []),
    str_eq_iff p p,
    last?-append (read_all s p) r,
  ),
)

-- Where the positions of a partition are those from 0 on, in order, they are so after any append to
-- that partition or another, accepted or refused.
pub append-Numbered :
    (s : Store) (p q : Str) (r : SealedRecord)
    → Numbered 0 (read_all s q)
    → Numbered 0 (read_all (append s p r).1 q)
unfolding append
append-Numbered s p q r h = ground (
  arith,
  read_all-insert s q p (read_all s p ++ r ∷ []),
  read_all-insert s q p (read_all s p),
  str_eq_iff q p,
  Numbered-append 0 (read_all s q) r,
)
