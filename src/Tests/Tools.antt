-- ===== src/Tests/Tools.antt =====
-- A signing session, its action, and a host that accepts every attempt.
use auditable_mcp_sdk_python.Base.{
  ℕ, ◌+◌, ◌≡◌, refl, true, false, none, some, [], Str, text, leb, Option, ◌&&◌,
}
use auditable_mcp_sdk_python.Base.Equality.{str_eq}
use auditable_mcp_sdk_python.Json.{str, pos, int, field, get}
use auditable_mcp_sdk_python.Fields
use auditable_mcp_sdk_python.Hashing.{genesis_hash, compute_record_hash}
use auditable_mcp_sdk_python.Reasons.{host_rejected}
use auditable_mcp_sdk_python.Models.{AcceptResponse, accepted}
use auditable_mcp_sdk_python.Host.State.{signer_seq, seq_of}
use auditable_mcp_sdk_python.Tool.World.{
  aborted_error, Ended, returned, failed, verified, Seams, Method,
}
use auditable_mcp_sdk_python.Tool.Session.{AmcpSession, AuditedAction}
use auditable_mcp_sdk_python.Tool.Entry.{abort}
use auditable_mcp_sdk_python.Tool.Lifecycle.{finish, with_action}
use auditable_mcp_sdk_python.Tool.Audited.{IsAudited, with_action-IsAudited}
use auditable_mcp_sdk_python.Tool.Aborts.{
  unless_cancelled, abort_lem, or_cancelled, told_of, finish_lem,
}
use auditable_mcp_sdk_python.Tool.Outcomes.{Records}
use auditable_mcp_sdk_python.Reasons.{code}
use auditable_mcp_sdk_python.Tool.Recorded.{recorded}
use auditable_mcp_sdk_python.Tool.Numbered.{IsStamping, Numbered}
use auditable_mcp_sdk_python.Tool.Sequence.{with_action-Numbered}
use auditable_mcp_sdk_python.Tests.Framing.{framing}
use auditable_mcp_sdk_python.Tests.Chains.{host_time}

abbrev pub an_accept : AcceptResponse
an_accept = record {
  seq = 0;
  record_hash = [];
  host_ts = host_time;
  previous_hash = genesis_hash;
  host_signature = none;
  host_key_id = none;
  log_id = none;
}

abbrev pub or_empty : Option Str → Str
or_empty none = []
or_empty (some s) = s

-- The world counts the events sent.
abbrev pub accepting : Seams ℕ
accepting = record {
  jcs = framing;
  packages = record { dumps = λ v. none; loads = λ b. none; sha256 = λ s. [] };
  digit = λ c. leb 48 c && leb c 57;
  dump = λ fs. fs;
  new_id = λ w. (text "01890000-0000-7000-8000-000000000001", w);
  now = λ w. (host_time, w);
  token_bytes = λ w. ([], w);
  sign = λ e n w. (returned (field Fields.signer_seq (int (pos n)) e), w);
  send_attempt = λ e w. (
    returned (
        accepted (record an_accept {
          record_hash = or_empty (compute_record_hash framing e 0 host_time genesis_hash);
        })),
    w + 1,
  );
  send_outcome = λ e w. (returned tt, w + 1);
  verify = λ k s p w. (returned verified, w);
}

abbrev pub signing : AmcpSession
signing = record {
  session_id = text "018f0000-0000-4000-8000-000000000001";
  has_signer = true;
  polluted_stop = true;
  has_verifier = false;
  require_countersign = false;
}

abbrev pub write_file : AuditedAction
write_file = record {
  id = text "01890000-0000-7000-8000-000000000001";
  action_type = text "write";
  target = record { kind = text "file"; ref = text "a"; scope_hint = none };
  mutates = true;
  egress = false;
  disclose = none;
  commit_hash = none;
  disclosure = none;
  salted_hash = none;
}

abbrev pub work : {W : Type 0} → AcceptResponse → Method W ℕ
work r n w = (returned r.seq, n, w)

with_action-IsAudited_example : IsAudited accepting signing write_file work 0 0
with_action-IsAudited_example = with_action-IsAudited accepting signing write_file work 0 0

abort_lem_example :
    let (r, n', v') = abort (recorded accepting) signing write_file host_rejected 0 ([], 0) in
    (recording : Ended (Unit {0})) × Records accepting signing write_file
      (text "aborted")
      (some (str (code host_rejected)))
      0
      ([], 0)
      recording
      n'
      v'.0
    × (r
        ≡ failed (
            unless_cancelled recording
              (aborted_error write_file.action_type write_file.target.ref host_rejected)))
abort_lem_example = abort_lem accepting signing write_file host_rejected 0 ([], 0)

abbrev ended : Ended ℕ
ended = returned 7

finish_lem_example :
    let (left, n', v') = finish (recorded accepting) signing write_file (ended, 0, ([], 0)) in
    (recording : Ended (Unit {0})) × Records accepting signing write_file
      (told_of ended)
      none
      0
      ([], 0)
      recording
      n'
      v'.0
    × (left ≡ or_cancelled recording ended)
finish_lem_example = finish_lem accepting signing write_file ended 0 ([], 0)

accepting-IsStamping : IsStamping accepting
unfolding signer_seq seq_of get str_eq
accepting-IsStamping e d n w v q =
    let same : d ≡ field Fields.signer_seq (int (pos n)) e = cc in rw same refl

with_action-Numbered_example :
    let (_, n', v') = with_action (recorded accepting) signing write_file work 4 ([], 0) in
    Numbered 4 n' v'.0
with_action-Numbered_example =
    with_action-Numbered accepting signing accepting-IsStamping refl write_file 4 work
      (λ r n v p. p) 4 [] 0 refl
