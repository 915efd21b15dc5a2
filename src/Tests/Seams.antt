-- ===== src/Tests/Seams.antt =====
-- The seam at concrete inputs: the theorems on declarations, tokens and runs, and tests.
use auditable_mcp_sdk_python.Base.{
  ◌≡◌, ◌↔◌, ◌⊎◌, refl, true, false, Option, none, some, List, [], ◌∷◌, Str, text, Str_eq, ℕ_eq,
}
use auditable_mcp_sdk_python.Base.Equality.{str_eq}
use auditable_mcp_sdk_python.Base.Dict.{lookup, get_or}
use auditable_mcp_sdk_python.Json.{negsuc, pos, obj, str, Fields, end, field, get}
use auditable_mcp_sdk_python.Fields
use auditable_mcp_sdk_python.Canonical.{surrogate_in}
use auditable_mcp_sdk_python.Models.{AuditCapability, l1, no_countersign, spec_version, unavailable}
use auditable_mcp_sdk_python.Models.Pattern.{in_ranges}
use auditable_mcp_sdk_python.Models.Message.{extension_id}
use auditable_mcp_sdk_python.Json.{put, get_str}
use auditable_mcp_sdk_python.Canonical.{has_lone_surrogate}
use auditable_mcp_sdk_python.Models.Event.{of_model}
use auditable_mcp_sdk_python.Models.Pattern.{matches}
use auditable_mcp_sdk_python.Models.Message.{read_request_meta, read_capability, capability_to_wire}
use auditable_mcp_sdk_python.Capability.{negotiate}
use auditable_mcp_sdk_python.Seam.Frame.{is_modern, meta_of}
use auditable_mcp_sdk_python.Seam.Answer.{run_task}
use auditable_mcp_sdk_python.Seam.State.{Round}
use auditable_mcp_sdk_python.Seam.Round.{schedule_round}
use auditable_mcp_sdk_python.Seam.Exchange.{send_attempt}
use auditable_mcp_sdk_python.Base.Dict.{Dict, insert, erase}
use auditable_mcp_sdk_python.Base.Lists.{member}
use auditable_mcp_sdk_python.Degradation.{Fits}
use auditable_mcp_sdk_python.Declaration.{extensions, declare_into, capability_of}
use auditable_mcp_sdk_python.Declaration.RoundTrip.{IsDeclarable, capability_of-declare_into}
use auditable_mcp_sdk_python.Seam.Token.{
  is_token_char, all_token_chars, is_instance, is_secret, check_instance, round_token,
  round_token_instance, after_prefix, partition_dot,
}
use auditable_mcp_sdk_python.Seam.Token.RoundTrip.{round_token_instance_iff}
use auditable_mcp_sdk_python.Seam.Frame.{
  number, request, answer, error, Protocol, request_state, tools_call_method,
}
use auditable_mcp_sdk_python.Seam.State.{
  max_idle_sessions, AuditSession, ToolCall, Seam, end_round, state_of,
}
use auditable_mcp_sdk_python.Seam.Arrival.{inbound, reply, no_open_round}
use auditable_mcp_sdk_python.Seam.Exchange.{negotiate_call, end_attempt}
use auditable_mcp_sdk_python.Seam.Negotiation.{negotiate_call_iff}
use auditable_mcp_sdk_python.Seam.Run.{
  Action, arrives, attempts, runs, negotiates, closes, empty_seam, new_seam, run,
}
use auditable_mcp_sdk_python.Seam.Run.Bounded.{Within}
use auditable_mcp_sdk_python.Seam.Run.Guarantees.{run-Within, end_attempt-run}
use auditable_mcp_sdk_python.Seam.Run.Replay.{retry-at_most_once}

abbrev offered : AuditCapability
offered = record { version = spec_version; level = l1; countersign = no_countersign }

offered-IsDeclarable : IsDeclarable offered
unfolding surrogate_in
offered-IsDeclarable = record { named = λ h. cc; scalar = refl }

abbrev roots : Fields
roots = field (text "roots") (obj end) end

capability_of-declare_into_example :
    (capability_of (λ _. false) (some (obj (declare_into roots offered))) ≡ some offered)
    × (get (text "other") (extensions (some (obj (declare_into roots offered))))
        ≡ get (text "other") (extensions (some (obj roots))))
    × (get (text "roots") (declare_into roots offered) ≡ get (text "roots") roots)
capability_of-declare_into_example =
    capability_of-declare_into (λ _. false) roots offered (text "other") (text "roots")
      offered-IsDeclarable (λ h. cc) (λ h. cc)

abbrev protocol : Protocol
protocol = record {
  protocol_version_key = text "version";
  client_capabilities_key = text "capabilities";
  modern_versions = text "2026-07-28" ∷ [];
  invalid_params = negsuc 32601;
  is_digit = λ _. false;
}

abbrev secret : Str
secret = text "AAAAAAAAAAAAAAAAAAAAAAAAAAAAAAAAAAAAAAAAAAA"

round_token_instance_iff_example :
    (round_token_instance (some (str (text "amcp.a.b"))) ≡ some (text "a")) ↔ (
      (s : Str) × (text "amcp.a.b" ≡ round_token (text "a") s)
      × (is_instance (text "a") ≡ true)
      × (is_secret s ≡ true))
round_token_instance_iff_example = round_token_instance_iff (text "amcp.a.b") (text "a")

token_read : round_token_instance (some (str (round_token (text "a") secret))) ≡ some (text "a")
unfolding round_token_instance round_token after_prefix partition_dot is_instance is_secret
    all_token_chars is_token_char in_ranges
token_read = refl

abbrev opened : Seam
opened = empty_seam offered (text "a")

abbrev modern_params : Fields
modern_params =
    field (text "_meta") (obj (field (text "version") (str (text "2026-07-28")) end)) end

-- The call that the first request opens, and the steps to its first round.
abbrev served : ToolCall
served = record {
  ref = 0;
  original_id = number (pos 1);
  modern = true;
  host_capability = none;
  audit = none;
  own_session_id = text "own";
  task_augmented = false;
}

abbrev attempt : Fields
attempt = field Fields.id (str (text "e1")) (field Fields.outcome (str (text "attempted")) end)

abbrev first_steps : List Action
first_steps =
    arrives (text "own") (request (number (pos 1)) tools_call_method (some modern_params)) none
    ∷ negotiates offered served
    ∷ attempts served attempt
    ∷ runs secret (end_round served)
    ∷ closes
    ∷ []

run-Within_example :
    Within max_idle_sessions
      (run protocol first_steps opened).idle
      (run protocol first_steps opened).waiting
unfolding new_seam check_instance is_instance all_token_chars is_token_char in_ranges
run-Within_example = run-Within protocol first_steps offered (text "a") {s = opened} refl

end_attempt-run_example :
    (lookup 0 (run protocol first_steps (end_attempt served attempt 0 none opened).1).answers
      ≡ some (end_attempt served attempt 0 none opened).0)
    × ((end_attempt served attempt 0 none opened).0 ≡ get_or 0 unavailable opened.answers)
end_attempt-run_example = end_attempt-run protocol first_steps served attempt 0 none opened

abbrev retry_params : Option Fields
retry_params = some (field request_state (str (text "amcp.a.b")) end)

retry-at_most_once_example :
    let s' =
      run protocol
        (closes ∷ [])
        (inbound protocol []
          (request (number (pos 2)) tools_call_method retry_params)
          none
          opened).1 in
    inbound protocol [] (request (number (pos 3)) tools_call_method retry_params) none s'
    ≡ reply (answer (number (pos 3)) (error (no_open_round protocol))) s'
unfolding get str_eq after_prefix
retry-at_most_once_example =
    retry-at_most_once protocol [] [] (text "amcp.a.b") (number (pos 2)) (number (pos 3))
      retry_params retry_params none none (closes ∷ []) opened refl refl (tt, tt)

abbrev asking : Seam
asking = record opened { pending = (text "amcp-1", (7, served)) ∷ [] }

negotiate_call_iff_example :
    ((state_of served (negotiate_call offered served opened).1).negotiated ≡ true) ↔ (
      (offered ≡ opened.declares)
      × ((served.modern ≡ true) ⊎ (opened.handshake_seen ≡ true))
      × ((a : AuditSession) × (served.audit ≡ some a))
      × (served.task_augmented ≡ false)
      × Fits served.host_capability offered)
negotiate_call_iff_example = negotiate_call_iff offered served opened refl

abbrev audit_session : Str
audit_session = text "018f0000-0000-4000-8000-000000000001"

-- A request of a host that declares the capability and issues an audit session.
abbrev audited_params : Fields
audited_params =
    field (text "_meta")
      (obj (
        field (text "version") (str (text "2026-07-28")) (
          field (text "capabilities") (obj (declare_into end offered))
            (field extension_id (obj (field Fields.session_id (str audit_session) end)) end))))
      end

abbrev audited_call : ToolCall
audited_call = record {
  ref = 1;
  original_id = number (pos 1);
  modern = true;
  host_capability = some offered;
  audit = some (record { ref = 0; session_id = audit_session; host_capability = some offered });
  own_session_id = text "own";
  task_augmented = false;
}

abbrev audited_steps : List Action
audited_steps =
    arrives (text "own") (request (number (pos 1)) tools_call_method (some audited_params)) none
    ∷ negotiates offered audited_call
    ∷ attempts audited_call attempt
    ∷ runs secret (end_round audited_call)
    ∷ []

-- The request opens the call, and its first round goes out under its own token.
opens_call : (run protocol audited_steps opened).calls ≡ (number (pos 1), audited_call) ∷ []
unfolding run run_task send_attempt negotiate_call str_eq inbound get read_request_meta meta_of
    of_model has_lone_surrogate surrogate_in matches lookup negotiate schedule_round insert
    is_modern get_str read_capability capability_of extensions declare_into capability_to_wire put
    erase member
opens_call = refl

first_token : Dict Str (ToolCall × Round) → Option Str
first_token [] = none
first_token ((k, _) ∷ _) = some k

sends_round :
    first_token (run protocol audited_steps opened).rounds ≡ some (round_token (text "a") secret)
unfolding first_token run run_task send_attempt negotiate_call str_eq inbound get read_request_meta
    meta_of of_model has_lone_surrogate surrogate_in matches lookup negotiate schedule_round insert
    is_modern get_str read_capability capability_of extensions declare_into capability_to_wire put
    erase round_token
sends_round = refl
