-- ===== src/Receiver/Worked.antt =====
-- How the events of a round are worked through, and what its retry answers.
use auditable_mcp_sdk_python.Base.{
  ℕ, zero, suc, ◌≡◌, ◌∙◌, refl, ap, Bool, true, false, ◌&&◌, ◌||◌, not, none, some, List, [], ◌∷◌,
  ◌++◌, Str, Str_eq, str_eq, nat_eq, if◌then◌else◌, arith,
}
use auditable_mcp_sdk_python.Base.Lists.{keep}
use auditable_mcp_sdk_python.Base.Dict.{Dict}
use auditable_mcp_sdk_python.Json.{Json}
use auditable_mcp_sdk_python.Models.{AttemptResponse}
use mathlib.Core.List.{append_assoc, append-nil}
use auditable_mcp_sdk_python.Receiver.{
  Endpoint, RoundWork, Deadline, is_attempt_item, item_id, leftover_outcomes, take_up, work_items,
  work_through,
}

-- What the endpoint was given.
pub data Job : Type 0 where
  decided sealed : Json → Job

-- The endpoint that also lists what it was given, in order.
abbrev pub recorded : {W : Type 0} → Endpoint W → Endpoint (List Job × W)
recorded endpoint = record {
  hand_over = λ e s. (let (r, w) = endpoint.hand_over e s.1 in (r, (s.0 ++ decided e ∷ [], w)));
  seal_outcome = λ e s. (s.0 ++ sealed e ∷ [], endpoint.seal_outcome e s.1);
}

unfoldable pub sealed_in : List Job → List Json
sealed_in [] = []
sealed_in (sealed e ∷ js) = e ∷ sealed_in js
sealed_in (decided e ∷ js) = sealed_in js

unfoldable pub decided_in : List Job → List Json
decided_in [] = []
decided_in (sealed e ∷ js) = decided_in js
decided_in (decided e ∷ js) = e ∷ decided_in js

abbrev pub outcomes_in : List Json → List Json
outcomes_in es = keep (λ (e : Json). not (is_attempt_item e)) es

-- The attempts among the events, where the round's attempts are decided at all.
abbrev pub attempts_in : Bool → List Json → List Json
attempts_in b es = if b then keep is_attempt_item es else []

sealed_in-append : (js ks : List Job) → sealed_in (js ++ ks) ≡ sealed_in js ++ sealed_in ks
unfolding sealed_in
sealed_in-append [] ks = refl
sealed_in-append (sealed e ∷ js) ks = ap (λ l. e ∷ l) (sealed_in-append js ks)
sealed_in-append (decided e ∷ js) ks = sealed_in-append js ks

decided_in-append : (js ks : List Job) → decided_in (js ++ ks) ≡ decided_in js ++ decided_in ks
unfolding decided_in
decided_in-append [] ks = refl
decided_in-append (sealed e ∷ js) ks = decided_in-append js ks
decided_in-append (decided e ∷ js) ks = ap (λ l. e ∷ l) (decided_in-append js ks)

keep-cons :
    (p : Json → Bool) (e : Json) (es : List Json) → keep p (e ∷ []) ++ keep p es ≡ keep p (e ∷ es)
keep-cons p e es = ground arith

attempts-cons :
    (b : Bool) (e : Json) (es : List Json)
    → attempts_in b (e ∷ []) ++ attempts_in b es ≡ attempts_in b (e ∷ es)
attempts-cons true e es = keep-cons is_attempt_item e es
attempts-cons false e es = refl

module _ {W : Type 0} (endpoint : Endpoint W) where
  -- One item joins the list that it belongs to, or none.
  take_up-sealed :
      (decide cut : Bool) (e : Json) (rs : Dict Str AttemptResponse) (log : List Job) (w : W)
      → sealed_in (take_up (recorded endpoint) decide cut e rs (log, w)).1.0
        ≡ sealed_in log ++ outcomes_in (e ∷ [])
  unfolding take_up sealed_in
  take_up-sealed decide cut e rs log w = grind (arith, sealed_in-append log, append-nil)

  take_up-decided :
      (decide cut : Bool) (e : Json) (rs : Dict Str AttemptResponse) (log : List Job) (w : W)
      → decided_in (take_up (recorded endpoint) decide cut e rs (log, w)).1.0
        ≡ decided_in log ++ attempts_in decide (e ∷ [])
  unfolding take_up decided_in
  take_up-decided decide cut e rs log w = grind (arith, decided_in-append log, append-nil)

  work_items-sealed :
      (k : ℕ) (late decide : Bool) (es : List Json) (rs : Dict Str AttemptResponse)
      (s : List Job × W)
      → let (work, s') = work_items (recorded endpoint) k late decide es rs s in
        sealed_in s'.0 ++ outcomes_in work.left ≡ sealed_in s.0 ++ outcomes_in es
  unfolding work_items
  work_items-sealed zero late decide [] rs s = refl
  work_items-sealed (suc k) late decide [] rs s = refl
  work_items-sealed zero late decide (e ∷ es) rs s = refl
  work_items-sealed (suc k) late decide (e ∷ es) rs s =
      let cut = nat_eq k 0 && late in
      let (rs', s') = take_up (recorded endpoint) decide cut e rs s in
      work_items-sealed k late decide es rs' s'
      ∙ ap (λ (l : List Json). l ++ outcomes_in es) (take_up-sealed decide cut e rs s.0 s.1)
      ∙ append_assoc (sealed_in s.0) (outcomes_in (e ∷ [])) (outcomes_in es)
      ∙ ap (λ (l : List Json). sealed_in s.0 ++ l)
          (keep-cons (λ (x : Json). not (is_attempt_item x)) e es)

  work_items-decided :
      (k : ℕ) (late decide : Bool) (es : List Json) (rs : Dict Str AttemptResponse)
      (s : List Job × W)
      → let (work, s') = work_items (recorded endpoint) k late decide es rs s in
        decided_in s'.0 ++ attempts_in decide work.left ≡ decided_in s.0 ++ attempts_in decide es
  unfolding work_items
  work_items-decided zero late decide [] rs s = refl
  work_items-decided (suc k) late decide [] rs s = refl
  work_items-decided zero late decide (e ∷ es) rs s = refl
  work_items-decided (suc k) late decide (e ∷ es) rs s =
      let cut = nat_eq k 0 && late in
      let (rs', s') = take_up (recorded endpoint) decide cut e rs s in
      work_items-decided k late decide es rs' s'
      ∙ ap (λ (l : List Json). l ++ attempts_in decide es) (take_up-decided decide cut e rs s.0 s.1)
      ∙ append_assoc (decided_in s.0) (attempts_in decide (e ∷ [])) (attempts_in decide es)
      ∙ ap (λ (l : List Json). decided_in s.0 ++ l) (attempts-cons decide e es)

  -- However many of a round's events the host takes up by the deadline, and whatever the endpoint
  -- answers, it hands over the round's outcomes for sealing each once and in the tool's order: those
  -- it sealed, then those left over, are the outcomes of the round. It is given the attempts likewise,
  -- and where the round's attempts are not to be decided, it is given none.
  pub work_through-ordered :
      (d : Deadline) (work : RoundWork) (w : W)
      → let (work', s) = work_through (recorded endpoint) d work ([], w) in
        (sealed_in s.0 ++ leftover_outcomes work' ≡ outcomes_in work.left)
        × (decided_in s.0 ++ attempts_in work.decide work'.left ≡ attempts_in work.decide work.left)
  unfolding work_through leftover_outcomes sealed_in decided_in
  work_through-ordered d work w = (
    work_items-sealed d.taken d.in_progress work.decide work.left work.responses ([], w),
    work_items-decided d.taken d.in_progress work.decide work.left work.responses ([], w),
  )

-- Some attempt among the events has that id.
abbrev pub asks : Str → List Json → Bool
asks i [] = false
asks i (e ∷ es) =
    (is_attempt_item e && elim (item_id e) [ none ↦ false | some j ↦ str_eq i j ]) || asks i es
