-- ===== src/Tool/Outcomes.antt =====
-- session.py: the outcome that the recording of an event sends, seen by a transport that lists it.
use auditable_mcp_sdk_python.Base.{
  ℕ, ◌≡◌, ◌⊎◌, refl, ◌∙◌, Bool, true, false, Option, none, some, List, ◌∷◌, Str, Str_eq, Bool-cases,
  inl, inr, if◌then◌else◌, if_true, if_false,
}
use auditable_mcp_sdk_python.Base.Equality.{str_eq, beq_refl}
use auditable_mcp_sdk_python.Json.{Json, str, Fields, end, field, get}
use auditable_mcp_sdk_python.Fields
use auditable_mcp_sdk_python.Reasons.{Reason}
use auditable_mcp_sdk_python.Models.{Outcome, outcome_value, spec_version}
use auditable_mcp_sdk_python.Models.Event.{is_audit_event}
use auditable_mcp_sdk_python.Tool.World.{Error, value_error, Ended, returned, failed, Seams, ◌>>=◌}
use auditable_mcp_sdk_python.Tool.Session.{AmcpSession, AuditedAction}
use auditable_mcp_sdk_python.Tool.Recorded.{Sending, is_returned, recorded}
use auditable_mcp_sdk_python.Tool.Emission.{
  advance, numbering, optional, text_json, object_json, reason_json, event_fields, dumped, stamp,
  build, emit,
}

-- The event is the action's, in the session, at the time and with the context, and tells the outcome
-- with its reason.
pub record Tells (session : AmcpSession) (a : AuditedAction) (time : Str) (context : Option Fields)
    (told : Str) (why : Option Json) (event : Fields) : Type 0 where
  pub id : get Fields.id event ≡ some (str a.id)
  pub session_id : get Fields.session_id event ≡ some (str session.session_id)
  pub action_type : get Fields.action_type event ≡ some (str a.action_type)
  pub outcome : get Fields.outcome event ≡ some (str told)
  pub reason : get Fields.reason event ≡ why
  pub whole :
      (o : Outcome) × (r : Option Reason) × (event ≡ event_fields session a o r time context)

get-optional :
    (k j : Str) (v : Option Json) (fs : Fields)
    → str_eq k j ≡ false
    → get k (optional j v fs) ≡ get k fs
unfolding get
get-optional k j none fs h = refl
get-optional k j (some v) fs h = rw h refl

get-optional_self :
    (k : Str) (v : Option Json) (fs : Fields) → get k fs ≡ none → get k (optional k v fs) ≡ v
unfolding get
get-optional_self k none fs h = h
get-optional_self k (some v) fs h = rw (beq_refl k) refl

event_fields-Tells :
    (session : AmcpSession) (a : AuditedAction) (o : Outcome) (reason : Option Reason) (time : Str)
    (context : Option Fields)
    → Tells session a time context
        (outcome_value o)
        (reason_json reason)
        (event_fields session a o reason time context)
unfolding event_fields get str_eq
event_fields-Tells session a o reason time context =
    let salted = optional Fields.action_context_salted_hash (text_json a.salted_hash) end in
    let versioned = field Fields.spec_version (str spec_version) salted in
    let hashed = optional Fields.action_context_hash (text_json a.commit_hash) versioned in
    let unsaid : get Fields.reason (optional Fields.action_context (object_json context) hashed)
        ≡ none =
      get-optional Fields.reason Fields.action_context (object_json context) hashed refl
      ∙ get-optional Fields.reason Fields.action_context_hash (text_json a.commit_hash) versioned
          refl
      ∙ get-optional Fields.reason Fields.action_context_salted_hash (text_json a.salted_hash) end
          refl in
    record {
      id = refl;
      session_id = refl;
      action_type = refl;
      outcome = refl;
      reason =
          get-optional_self Fields.reason (reason_json reason)
            (optional Fields.action_context (object_json context) hashed) unsaid;
      whole = (o, reason, refl);
    }

module _ {W : Type 0} (seams : Seams W) (session : AmcpSession) (a : AuditedAction) (told : Str)
    (why : Option Json) where
  -- The event is built at the clock's time, which was asked first, with a context.
  abbrev Built : W → Option Fields → Fields → Type 0
  Built w context event = Tells session a (seams.now w).0 context told why event

  -- What is sent for an event: where the session signs, what the signer returned for it under the
  -- number.
  abbrev IsStamped : Bool → ℕ → W → Fields → Fields → Type 0
  IsStamped true n w event sent = (w' : W) × (seams.sign event n w ≡ (returned sent, w'))
  IsStamped false n w event sent = sent ≡ event

  -- The event is valid, and this is what is to be sent for it, with the context as it is dumped.
  abbrev IsReady : ℕ → W → Fields → Type 0
  IsReady n w sent =
      ((event : Fields) × Built w a.disclose event × (is_audit_event seams.digit event ≡ true))
      × ((event : Fields) × Built w (dumped seams.dump a.disclose) event
          × IsStamped session.has_signer n (seams.now w).1 event sent)

  -- No event is built: it is not valid, or the signer raised.
  abbrev IsUnbuilt : ℕ → W → Error → Type 0
  IsUnbuilt n w x =
      ((event : Fields) × Built w a.disclose event
        × (is_audit_event seams.digit event ≡ false)
        × (x ≡ value_error))
      ⊎ ((event : Fields) × Built w (dumped seams.dump a.disclose) event
          × (session.has_signer ≡ true)
          × ((w' : W) × (seams.sign event n (seams.now w).1 ≡ (failed x, w'))))

  -- The transport was given one more event, which tells the outcome, and this is how it answered.
  abbrev pub Sends : ℕ → W → List Sending → List Sending → Ended (Unit {0}) → Type 0
  Sends n w l l' r =
      (sent : Fields) × IsReady n w sent
      × ((u : W) × (u' : W) × (seams.send_outcome sent u ≡ (r, u')))
      × (l' ≡ record { event = sent; counted = is_returned r } ∷ l)

  -- The transport was given nothing, since no event was built that tells the outcome.
  abbrev pub Stops : ℕ → W → List Sending → List Sending → Ended (Unit {0}) → Type 0
  Stops n w l l' r = (x : Error) × IsUnbuilt n w x × (r ≡ failed x) × (l' ≡ l)

  -- From the number and the world on, the outcome is recorded with this result.
  abbrev pub Records : ℕ → List Sending × W → Ended (Unit {0}) → ℕ → List Sending → Type 0
  Records n v r n' l' =
      (Sends n v.1 v.0 l' r ⊎ Stops n v.1 v.0 l' r)
      × (n' ≡ (if session.has_signer then advance n r else n))

  -- An event was built, and nothing was sent for it yet.
  abbrev IsBuilt : ℕ → W → List Sending → Ended Fields → List Sending → Type 0
  IsBuilt n w l (returned e) l' = IsReady n w e × (l' ≡ l)
  IsBuilt n w l (failed x) l' = IsUnbuilt n w x × (l' ≡ l)

  sent_built :
      (n : ℕ) (w : W) (l : List Sending) (r : Ended Fields) (u : List Sending × W)
      → IsBuilt n w l r u.0
      → let t : Ended (Unit {0}) × (List Sending × W) = elim r [
        | returned e ↦ (recorded seams).send_outcome e u
        | failed x ↦ (failed x, u)
      ] in
        Sends n w l t.1.0 t.0 ⊎ Stops n w l t.1.0 t.0
  sent_built n w l (returned e) u (ready, m) = inl (e, ready, (u.1, _, refl), rw m refl)
  sent_built n w l (failed x) u (unbuilt, m) = inr (x, unbuilt, refl, m)

  module _ (n : ℕ) (w : W) (event dressed : Fields) (plain : Built w a.disclose event)
      (valid : is_audit_event seams.digit event ≡ true)
      (whole : Built w (dumped seams.dump a.disclose) dressed) where
    signed_built :
        session.has_signer ≡ true
        → (l : List Sending) (r : Ended Fields) (w' : W)
        → seams.sign dressed n (seams.now w).1 ≡ (r, w')
        → IsBuilt n w l r l
    signed_built signs l (returned e) w' q =
        (((event, plain, valid), (dressed, whole, rw signs (w', q))), refl)
    signed_built signs l (failed x) w' q = (inr (dressed, whole, signs, (w', q)), refl)

    stamp_built :
        (b : Bool)
        → session.has_signer ≡ b
        → (l : List Sending)
        → let t =
            stamp
              (recorded seams)
              session
              dressed
              (if b then some n else none)
              (l, (seams.now w).1) in
          IsBuilt n w l t.0 t.1.0
    unfolding stamp
    stamp_built true signs l =
        let v : List Sending × W = (l, (seams.now w).1) in
        rw (if_true ((recorded seams).sign dressed n v) (returned dressed, v) signs) (
          signed_built signs l (seams.sign dressed n (seams.now w).1).0
            (seams.sign dressed n (seams.now w).1).1 refl)
    stamp_built false signs l = (((event, plain, valid), (dressed, whole, rw signs refl)), refl)

module _ {W : Type 0} (seams : Seams W) (session : AmcpSession) (a : AuditedAction) (o : Outcome)
    (reason : Option Reason) where
  build_built :
      (b : Bool)
      → session.has_signer ≡ b
      → (n : ℕ) (v : List Sending × W)
      → let t = build (recorded seams) session a o reason (if b then some n else none) v in
        IsBuilt seams session a (outcome_value o) (reason_json reason) n v.1 v.0 t.0 t.1.0
  unfolding build
  build_built b signs n v =
      let time = (seams.now v.1).0 in
      let event = event_fields session a o reason time a.disclose in
      let plain = event_fields-Tells session a o reason time a.disclose in
      elim (Bool-cases (is_audit_event seams.digit event)) [
        | inl valid ↦ rw valid (
            stamp_built seams session a (outcome_value o) (reason_json reason) n v.1 event
              (event_fields session a o reason time (dumped seams.dump a.disclose)) plain valid
              (event_fields-Tells session a o reason time (dumped seams.dump a.disclose)) b signs
              v.0)
        | inr wrong ↦ rw wrong (inl (event, plain, wrong, refl), refl)
      ]

  -- Whatever the seams answer, an outcome is recorded as it is told.
  pub emit-Records :
      (n : ℕ) (v : List Sending × W)
      → let (r, n', v') = emit (recorded seams) session a o reason n v in
        Records seams session a (outcome_value o) (reason_json reason) n v r n' v'.0
  unfolding emit numbering
  emit-Records n v = elim (Bool-cases session.has_signer) [
    | inl signs ↦ rw (if_true _ _ signs, if_true _ _ signs) (of true signs, refl)
    | inr plain ↦ rw (if_false _ _ plain, if_false _ _ plain) (of false plain, refl)
  ]
    where
      of :
          (b : Bool)
          → session.has_signer ≡ b
          → let t : Ended (Unit {0}) × (List Sending × W) =
              (build (recorded seams) session a o reason (if b then some n else none)
                  >>= (recorded seams).send_outcome)
                v in
            Sends seams session a (outcome_value o) (reason_json reason) n v.1 v.0 t.1.0 t.0
            ⊎ Stops seams session a (outcome_value o) (reason_json reason) n v.1 v.0 t.1.0 t.0
      of b signs =
          let t = build (recorded seams) session a o reason (if b then some n else none) v in
          sent_built seams session a (outcome_value o) (reason_json reason) n v.1 v.0 t.0 t.1
            (build_built b signs n v)
