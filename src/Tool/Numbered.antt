-- ===== src/Tool/Numbered.antt =====
-- session.py: the numbers that the events of a signing session carry.
use auditable_mcp_sdk_python.Base.{
  ℕ, ◌+◌, ◌≡◌, refl, Bool, true, false, not, Option, some, List, [], ◌∷◌, if◌then◌else◌, if_true,
}
use auditable_mcp_sdk_python.Json.{Fields}
use auditable_mcp_sdk_python.Reasons.{Reason}
use auditable_mcp_sdk_python.Models.{Outcome}
use auditable_mcp_sdk_python.Models.Event.{is_audit_event}
use auditable_mcp_sdk_python.Host.State.{signer_seq}
use auditable_mcp_sdk_python.Tool.World.{value_error, Ended, returned, failed, Call, Seams, ◌>>=◌}
use auditable_mcp_sdk_python.Tool.Session.{AmcpSession, AuditedAction}
use auditable_mcp_sdk_python.Tool.Emission.{advance, numbering, stamp, event_fields, dumped, build}
use auditable_mcp_sdk_python.Tool.Recorded.{Sending, is_returned, recorded, Keeps}

-- What the signer is asked for: the event that it returns carries the number that it was given.
abbrev pub IsStamping : {W : Type 0} → Seams W → Type 0
IsStamping {W} seams =
    (e d : Fields) (n : ℕ) (w v : W) → seams.sign e n w ≡ (returned d, v) → signer_seq d ≡ some n

-- From `start` on, every event sent carries the number after the last one that was used; a sending
-- that does not count leaves its number to the next.
abbrev pub Numbered : ℕ → ℕ → List Sending → Type 0
Numbered start n [] = n ≡ start
Numbered start n (s ∷ l) =
    (k : ℕ) × Numbered start k l
    × (signer_seq s.event ≡ some k)
    × (n ≡ (if s.counted then k + 1 else k))

counted_as : {A : Type 0} (n : ℕ) (r : Ended A) → advance n r ≡ (if is_returned r then n + 1 else n)
counted_as n (returned a) = refl
counted_as n (failed e) = refl

-- An event that was built carries the number of the section, and nothing was sent for it.
abbrev IsBuilt : ℕ → List Sending → Ended Fields → List Sending → Type 0
IsBuilt n l (returned e) l' = (signer_seq e ≡ some n) × (l' ≡ l)
IsBuilt n l (failed x) l' = l' ≡ l

module _ {W : Type 0} (seams : Seams W) (session : AmcpSession) (stamping : IsStamping seams)
    (signs : session.has_signer ≡ true) where
  signed :
      (e : Fields) (n : ℕ) (w : W) (l : List Sending) (r : Ended Fields) (w' : W)
      → seams.sign e n w ≡ (r, w')
      → IsBuilt n l r l
  signed e n w l (returned d) w' q = (stamping e d n w w' q, refl)
  signed e n w l (failed x) w' q = refl

  stamp_numbered :
      (e : Fields) (n : ℕ) (v : List Sending × W)
      → let (r, v') = stamp (recorded seams) session e (some n) v in IsBuilt n v.0 r v'.0
  unfolding stamp
  stamp_numbered e n v =
      let t = (recorded seams).sign e n v in
      rw (if_true t (returned e, v) signs)
        (signed e n v.1 v.0 (seams.sign e n v.1).0 (seams.sign e n v.1).1 refl)

  build_numbered :
      (a : AuditedAction) (o : Outcome) (reason : Option Reason) (n : ℕ) (v : List Sending × W)
      → let (r, v') = build (recorded seams) session a o reason (some n) v in IsBuilt n v.0 r v'.0
  unfolding build
  build_numbered a o reason n v = of (
      not
        (is_audit_event seams.digit (event_fields session a o reason (seams.now v.1).0 a.disclose)))
    where
      of :
          (b : Bool)
          → let t : Ended Fields × (List Sending × W) =
              if b
              then (failed value_error, (v.0, (seams.now v.1).1))
              else stamp
                  (recorded seams)
                  session
                  (event_fields session a o reason (seams.now v.1).0 (dumped seams.dump a.disclose))
                  (some n)
                  (v.0, (seams.now v.1).1) in
            IsBuilt n v.0 t.0 t.1.0
      of true = refl
      of false =
          stamp_numbered
            (event_fields session a o reason (seams.now v.1).0 (dumped seams.dump a.disclose)) n
            (v.0, (seams.now v.1).1)

  -- One section: an event is built and given to the transport, which lists it.
  pub section_numbered :
      {A : Type 0} (a : AuditedAction) (o : Outcome) (reason : Option Reason) (start : ℕ)
      (f : Fields → Call (List Sending × W) A)
      → ((e : Fields) (v : List Sending × W)
          → (f e v).1.0 ≡ record { event = e; counted = is_returned (f e v).0 } ∷ v.0)
      → Keeps
          (Numbered start)
          (numbering session (λ number. build (recorded seams) session a o reason number >>= f))
  unfolding numbering
  section_numbered {A} a o reason start f lists n v p =
      let b = build (recorded seams) session a o reason (some n) v in
      rw (if_true _ _ signs) (of b.0 b.1 (build_numbered a o reason n v))
    where
      of :
          (r : Ended Fields) (u : List Sending × W)
          → IsBuilt n v.0 r u.0
          → let t : Ended A × (List Sending × W) = elim r [
            | returned e ↦ f e u
            | failed x ↦ (failed x, u)
          ] in
            Numbered start (advance n t.0) t.1.0
      of (failed x) u q = rw q p
      of (returned e) u (q, m) = rw (lists e u, m) (n, p, q, counted_as n _)
