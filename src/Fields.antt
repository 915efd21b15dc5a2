-- ===== src/Fields.antt =====
-- fields.py: the wire names of the event's members, and of the earlier versions' members that
-- models.py and verify.py read.
use auditable_mcp_sdk_python.Base.{Str, text}

abbrev pub id : Str
id = text "id"

abbrev pub spec_version : Str
spec_version = text "spec_version"

abbrev pub ts : Str
ts = text "ts"

abbrev pub session_id : Str
session_id = text "session_id"

abbrev pub traceparent : Str
traceparent = text "traceparent"

abbrev pub action_type : Str
action_type = text "action_type"

abbrev pub mutates : Str
mutates = text "mutates"

abbrev pub egress : Str
egress = text "egress"

abbrev pub target_resource : Str
target_resource = text "target_resource"

abbrev pub outcome : Str
outcome = text "outcome"

abbrev pub reason : Str
reason = text "reason"

abbrev pub action_context : Str
action_context = text "action_context"

abbrev pub action_context_hash : Str
action_context_hash = text "action_context_hash"

abbrev pub action_context_salted_hash : Str
action_context_salted_hash = text "action_context_salted_hash"

abbrev pub signer_seq : Str
signer_seq = text "signer_seq"

abbrev pub key_id : Str
key_id = text "key_id"

abbrev pub signature : Str
signature = text "signature"

abbrev pub kind : Str
kind = text "kind"

abbrev pub ref : Str
ref = text "ref"

abbrev pub scope_hint : Str
scope_hint = text "scope_hint"

abbrev pub seq : Str
seq = text "seq"

abbrev pub record_hash : Str
record_hash = text "record_hash"

abbrev pub host_ts : Str
host_ts = text "host_ts"

abbrev pub previous_hash : Str
previous_hash = text "previous_hash"

abbrev pub host_signature : Str
host_signature = text "host_signature"

abbrev pub host_key_id : Str
host_key_id = text "host_key_id"

abbrev pub log_id : Str
log_id = text "log_id"

abbrev pub event : Str
event = text "event"

-- Before 0.3 an event named its call by `call_id`, and 0.1 numbered events in `sequence`.
abbrev pub call_id : Str
call_id = text "call_id"

abbrev pub sequence : Str
sequence = text "sequence"
