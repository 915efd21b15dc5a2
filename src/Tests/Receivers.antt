-- ===== src/Tests/Receivers.antt =====
-- A round of an attempt and an outcome, worked through on the host's side.
use auditable_mcp_sdk_python.Base.{Str_eq, ℕ, suc, ◌≡◌, refl, true, [], ◌∷◌, ◌++◌, text}
use auditable_mcp_sdk_python.Json.{Json, obj, str, arr, cons, nil, Fields, end, field, get}
use auditable_mcp_sdk_python.Fields
use auditable_mcp_sdk_python.Models.{unavailable}
use auditable_mcp_sdk_python.Receiver.{
  Endpoint, RoundWork, Deadline, leftover_outcomes, work_through, without_audit, events_of,
}
use auditable_mcp_sdk_python.Receiver.Hidden.{IsHidden, without_audit-IsHidden}
use auditable_mcp_sdk_python.Models.Message.{extension_id}
use auditable_mcp_sdk_python.Seam.Frame.{meta, events}
use auditable_mcp_sdk_python.Base.Equality.{str_eq}
use auditable_mcp_sdk_python.Receiver.Worked.{
  sealed_in, decided_in, outcomes_in, attempts_in, recorded, work_through-ordered,
}

abbrev counting : Endpoint ℕ
counting = record { hand_over = λ e n. (unavailable, suc n); seal_outcome = λ e n. suc n }

abbrev an_attempt : Json
an_attempt =
    obj (field Fields.id (str (text "e1")) (field Fields.outcome (str (text "attempted")) end))

abbrev an_outcome : Json
an_outcome =
    obj (field Fields.id (str (text "e2")) (field Fields.outcome (str (text "succeeded")) end))

abbrev a_round : RoundWork
a_round = record { left = an_outcome ∷ an_attempt ∷ an_outcome ∷ []; decide = true; responses = [] }

abbrev two_taken : Deadline
two_taken = record { taken = 2; in_progress = true }

work_through-ordered_example :
    let (work, s) = work_through (recorded counting) two_taken a_round ([], 0) in
    (sealed_in s.0 ++ leftover_outcomes work ≡ outcomes_in a_round.left)
    × (decided_in s.0 ++ attempts_in a_round.decide work.left
        ≡ attempts_in a_round.decide a_round.left)
work_through-ordered_example = work_through-ordered counting two_taken a_round 0

abbrev a_result : Fields
a_result = field (text "content") (str (text "done")) (
    field meta
      (obj (
        field extension_id (obj (field events (arr (cons an_outcome nil)) end))
          (field (text "trace") (str (text "t1")) end)))
      end)

without_audit-IsHidden_example :
    IsHidden (text "content") (text "trace") a_result (without_audit a_result)
without_audit-IsHidden_example =
    without_audit-IsHidden (text "content") (text "trace") a_result (λ h. cc) (λ h. cc)

-- The events are read before they are hidden.
events_read : events_of a_result ≡ an_outcome ∷ []
unfolding events_of get str_eq
events_read = refl
