-- ===== src/Storage.antt =====
-- storage/memory.py: `InMemoryLedgerRepository`, the store that ships with the SDK.
pub mod Laws
use auditable_mcp_sdk_python.Base.{
  ℕ, Bool, true, false, Option, none, some, List, [], ◌∷◌, ◌++◌, Str, nat_eq, if◌then◌else◌, Str_eq,
  not,
}
use auditable_mcp_sdk_python.Base.Lists.{length, last?}
use auditable_mcp_sdk_python.Base.Dict.{Dict, lookup, insert, get_or}
use auditable_mcp_sdk_python.Ledger.{SealedRecord}

-- `self._by_partition`
abbrev pub Store : Type 0
Store = Dict Str (List SealedRecord)

-- `self._by_partition.get(partition, [])`
unfoldable pub read_all : Store → Str → List SealedRecord
read_all s partition = get_or partition [] s

-- `setdefault` leaves an empty list behind a refused append. `false` where it raises
-- `RepositoryError`.
unfoldable pub append : Store → Str → SealedRecord → Bool × Store
append s partition r =
    let rs = read_all s partition in
    if nat_eq r.seq (length rs)
    then (true, insert partition (rs ++ r ∷ []) s)
    else (false, insert partition rs s)

unfoldable pub load_tail : Store → Str → Option SealedRecord
load_tail s partition = last? (read_all s partition)
