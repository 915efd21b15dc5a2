-- ===== src/Receiver.antt =====
-- mcp/seam.py, the host's side of a §6.4 round: what its events are, how they are worked through by the
-- round's deadline, and what the retry answers. The endpoint that decides and seals is a function of
-- a state that a call may change.
pub mod Hidden
pub mod Worked
use auditable_mcp_sdk_python.Base.{
  ℕ, zero, suc, ◌+◌, ◌-◌, ◌≡◌, Bool, true, false, ◌&&◌, ◌||◌, not, Option, none, some, List, [],
  ◌∷◌, ◌++◌, Str, Str_eq, nat_eq, ltb, if◌then◌else◌,
}
use auditable_mcp_sdk_python.Base.Lists.{keep}
use auditable_mcp_sdk_python.Base.Dict.{Dict, lookup, insert, get_or}
use auditable_mcp_sdk_python.Json.{
  Json, str, obj, arr, Items, nil, cons, Fields, end, get, get_str, put, without,
}
use auditable_mcp_sdk_python.Fields
use auditable_mcp_sdk_python.Models.{AttemptResponse, unavailable}
use auditable_mcp_sdk_python.Models.Message.{extension_id}
use auditable_mcp_sdk_python.Seam.Frame.{is_attempt, meta, events}

abbrev pub items : Items → List Json
items nil = []
items (cons v vs) = v ∷ items vs

abbrev pub has_none : Fields → Bool
has_none end = true
has_none _ = false

abbrev pub without_extension : Fields → Fields → Fields
without_extension m result =
    let rest = without extension_id m in
    if has_none rest then without meta result else put meta (obj rest) result

-- `_without_audit`
unfoldable pub without_audit : Fields → Fields
without_audit result = elim (get meta result) [
  | some (obj m) ↦ elim (get extension_id m) [ none ↦ result | some _ ↦ without_extension m result ]
  | _ ↦ result
]

abbrev pub listed : Option Json → List Json
listed (some (arr vs)) = items vs
listed _ = []

abbrev pub carried : Option Json → List Json
carried (some (obj c)) = listed (get events c)
carried _ = []

-- `_events_of`
unfoldable pub events_of : Fields → List Json
events_of result = elim (get meta result) [ some (obj m) ↦ carried (get extension_id m) | _ ↦ [] ]

-- `_is_attempt`, of an item that may be anything
unfoldable pub is_attempt_item : Json → Bool
is_attempt_item (obj e) = is_attempt e
is_attempt_item _ = false

-- `event.get(fields.ID)` where that is a string
unfoldable pub item_id : Json → Option Str
item_id (obj e) = get_str Fields.id e
item_id _ = none

-- The endpoint's decision on an attempt and its sealing of an outcome, with the call's session.
pub record Endpoint (W : Type 0) : Type 0 where
  pub hand_over : Json → W → AttemptResponse × W
  pub seal_outcome : Json → W → W

-- _RoundWork; `left` are the events from `next` on
pub record RoundWork : Type 0 where
  pub left : List Json
  pub decide : Bool
  pub responses : Dict Str AttemptResponse

-- When the deadline cuts the work off: how many more items are taken up before it, and whether the
-- last of them is then still in progress.
pub record Deadline : Type 0 where
  pub taken : ℕ
  pub in_progress : Bool

-- `_RoundWork.leftover_outcomes`
unfoldable pub leftover_outcomes : RoundWork → List Json
leftover_outcomes work = keep (λ (e : Json). not (is_attempt_item e)) work.left

-- `work.responses[event_id] = answer`, by the deadline
unfoldable pub note_response :
    Option Str → AttemptResponse → Bool → Dict Str AttemptResponse → Dict Str AttemptResponse
note_response none r cut rs = rs
note_response (some i) r cut rs = if cut then rs else insert i r rs

module _ {W : Type 0} (endpoint : Endpoint W) where
  -- One item of the loop: what it adds to the responses, and the endpoint's state after it.
  unfoldable pub take_up :
      Bool → Bool → Json → Dict Str AttemptResponse → W → Dict Str AttemptResponse × W
  unfolding note_response is_attempt_item item_id
  take_up decide cut e rs w =
      let answer = endpoint.hand_over e w in
      if not (is_attempt_item e)
      then (rs, endpoint.seal_outcome e w)
      else if not decide
      then (rs, w)
      else (note_response (item_id e) answer.0 cut rs, answer.1)

  -- `_work_through`; the deadline has the taken items left and says whether it falls in the last one
  unfoldable pub work_items :
      ℕ → Bool → Bool → List Json → Dict Str AttemptResponse → W → RoundWork × W
  unfolding take_up
  work_items k late decide [] rs w = (record { left = []; decide = decide; responses = rs }, w)
  work_items zero late decide (e ∷ es) rs w =
      (record { left = e ∷ es; decide = decide; responses = rs }, w)
  work_items (suc k) late decide (e ∷ es) rs w =
      let (rs', w') = take_up decide (nat_eq k 0 && late) e rs w in
      work_items k late decide es rs' w'

  -- `_work_until`
  unfoldable pub work_through : Deadline → RoundWork → W → RoundWork × W
  unfolding work_items
  work_through d work w = work_items d.taken d.in_progress work.decide work.left work.responses w

  -- `_seal_all`
  unfoldable pub seal_all : List Json → W → W
  seal_all [] w = w
  seal_all (e ∷ es) w = seal_all es (endpoint.seal_outcome e w)

abbrev pub with_answer :
    Bool
    → Option Str
    → Dict Str AttemptResponse
    → Dict Str AttemptResponse
    → Dict Str AttemptResponse
with_answer true (some i) decided rs = insert i (get_or i unavailable decided) rs
with_answer _ _ decided rs = rs

-- The responses of the retry, in `_follow`: the loop over the round's events
unfoldable pub retry_responses :
    Dict Str AttemptResponse → List Json → Dict Str AttemptResponse → Dict Str AttemptResponse
unfolding is_attempt_item item_id
retry_responses decided [] rs = rs
retry_responses decided (e ∷ es) rs =
    retry_responses decided es (with_answer (is_attempt_item e) (item_id e) decided rs)
