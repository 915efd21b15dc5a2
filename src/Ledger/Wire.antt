-- ===== src/Ledger/Wire.antt =====
-- `SealedRecord.to_dict` and `from_dict`.
use auditable_mcp_sdk_python.Base.{ℕ, ◌≡◌, Option, none, some, Str, arith}
use auditable_mcp_sdk_python.Base.Equality.{str_eq}
use auditable_mcp_sdk_python.Json.{
  pos, Json, int, str, obj, Fields, end, field, get, get_str, as_str, put,
}
use auditable_mcp_sdk_python.Fields
use auditable_mcp_sdk_python.Ledger.{SealedRecord}

-- `if value is not None: record[name] = value`
abbrev put_present : Str → Option Str → Fields → Fields
put_present k none fs = fs
put_present k (some s) fs = put k (str s) fs

unfoldable pub to_dict : SealedRecord → Fields
unfolding put
to_dict r = put_present Fields.log_id r.log_id (
    put_present Fields.host_key_id r.host_key_id (
      put_present Fields.host_signature r.host_signature (
        field Fields.event (obj r.event) (
          field Fields.seq (int (pos r.seq)) (
            field Fields.host_ts (str r.host_ts) (
              field Fields.previous_hash (str r.previous_hash)
                (field Fields.record_hash (str r.record_hash) end)))))))

abbrev as_obj : Option Json → Option Fields
as_obj (some (obj fs)) = some fs
as_obj _ = none

abbrev as_position : Option Json → Option ℕ
as_position (some (int (pos n))) = some n
as_position _ = none

infixl 5 ◌>>=◌
abbrev ◌>>=◌ : {A B : Type 0} → Option A → (A → Option B) → Option B
none >>= f = none
some a >>= f = f a

-- `none` where a required member is missing (`KeyError`), or where it has not the type that the
-- record declares, which the code does not test.
unfoldable pub from_dict : Fields → Option SealedRecord
unfolding get get_str
from_dict fs = do
  event ← as_obj (get Fields.event fs)
  seq ← as_position (get Fields.seq fs)
  host_ts ← as_str (get Fields.host_ts fs)
  previous_hash ← as_str (get Fields.previous_hash fs)
  record_hash ← as_str (get Fields.record_hash fs)
  some (record {
    event = event;
    seq = seq;
    host_ts = host_ts;
    previous_hash = previous_hash;
    record_hash = record_hash;
    host_signature = get_str Fields.host_signature fs;
    host_key_id = get_str Fields.host_key_id fs;
    log_id = get_str Fields.log_id fs;
  })

-- A record read back from its stored form is the record, with whatever members of the
-- countersignature it has.
pub from_dict-to_dict : (r : SealedRecord) → from_dict (to_dict r) ≡ some r
unfolding from_dict to_dict str_eq
from_dict-to_dict r = ground arith
