-- ===== src/Hashing.antt =====
-- hashing.py: the preimages of the record hash and of the countersignature.
use auditable_mcp_sdk_python.Base.{ℕ, zero, suc, Option, none, some, [], ◌∷◌, Str}
use auditable_mcp_sdk_python.Json.{pos, Json, int, str, obj, Fields, end, field}
use auditable_mcp_sdk_python.Fields
use auditable_mcp_sdk_python.Canonical.{Jcs, canonicalize, sha256_hex}

zeros : ℕ → Str
zeros zero = []
zeros (suc n) = 48 ∷ zeros n

-- GENESIS_HASH = '0' * 64
unfoldable pub genesis_hash : Str
unfolding zeros
genesis_hash = zeros 64

abbrev pub countersignature_fields : ℕ → Str → Str → Str → Str → Json
countersignature_fields seq host_ts log_id previous_hash record_hash = obj (
    field Fields.host_ts (str host_ts) (
      field Fields.log_id (str log_id) (
        field Fields.previous_hash (str previous_hash)
          (field Fields.record_hash (str record_hash) (field Fields.seq (int (pos seq)) end)))))

-- `none` where the code raises `CanonicalizationError`; the bytes are the text's UTF-8.
unfoldable pub countersignature_payload : Jcs → ℕ → Str → Str → Str → Str → Option Str
countersignature_payload c seq host_ts log_id previous_hash record_hash =
    canonicalize c (countersignature_fields seq host_ts log_id previous_hash record_hash)

abbrev pub preimage : Fields → ℕ → Str → Str → Json
preimage event seq host_ts previous_hash = obj (
    field Fields.event (obj event) (
      field Fields.host_ts (str host_ts)
        (field Fields.previous_hash (str previous_hash) (field Fields.seq (int (pos seq)) end))))

-- `none` where the code raises `CanonicalizationError`.
unfoldable pub compute_record_hash : Jcs → Fields → ℕ → Str → Str → Option Str
compute_record_hash c event seq host_ts previous_hash =
    elim (canonicalize c (preimage event seq host_ts previous_hash)) [
      | none ↦ none
      | some s ↦ some (sha256_hex c s)
    ]
