-- ===== src/Ledger.antt =====
-- ledger.py: a sealed record and the hash chain of one partition.
pub mod Chain
pub mod Wire
use auditable_mcp_sdk_python.Base.{ℕ, zero, suc, ◌+◌, Option, none, some, List, [], ◌∷◌, ◌++◌, Str}
use auditable_mcp_sdk_python.Json.{Fields}
use auditable_mcp_sdk_python.Canonical.{Jcs}
use auditable_mcp_sdk_python.Hashing.{genesis_hash, compute_record_hash}

pub record SealedRecord : Type 0 where
  pub event : Fields
  pub seq : ℕ
  pub host_ts : Str
  pub previous_hash : Str
  pub record_hash : Str
  pub host_signature : Option Str
  pub host_key_id : Option Str
  pub log_id : Option Str

pub record Ledger : Type 0 where
  pub partition : Str
  pub records : List SealedRecord
  pub count : ℕ
  pub tail_hash : Str

-- `Ledger(partition)`
unfoldable pub new_ledger : Str → Ledger
new_ledger partition = record {
  partition = partition;
  records = [];
  count = 0;
  tail_hash = genesis_hash;
}

-- `none` where the code raises `CanonicalizationError`.
unfoldable pub seal : Jcs → Ledger → Fields → Str → Option SealedRecord
seal c l event host_ts = elim (compute_record_hash c event l.count host_ts l.tail_hash) [
  | none ↦ none
  | some h ↦ some (record {
    event = event;
    seq = l.count;
    host_ts = host_ts;
    previous_hash = l.tail_hash;
    record_hash = h;
    host_signature = none;
    host_key_id = none;
    log_id = none;
  })
]

unfoldable pub commit : Ledger → SealedRecord → Ledger
commit l r = record l {
  records = l.records ++ r ∷ [];
  count = l.count + 1;
  tail_hash = r.record_hash;
}

-- The new ledger and the record.
unfoldable pub append : Jcs → Ledger → Fields → Str → Option (SealedRecord × Ledger)
append c l event host_ts = elim (seal c l event host_ts) [
  | none ↦ none
  | some r ↦ some (r, commit l r)
]

unfoldable pub resume_from : Ledger → Option SealedRecord → Ledger
resume_from l none = record l { records = []; count = 0; tail_hash = genesis_hash }
resume_from l (some tail) = record l {
  records = [];
  count = tail.seq + 1;
  tail_hash = tail.record_hash;
}

unfoldable pub digest : Ledger → Str
digest l = l.tail_hash
