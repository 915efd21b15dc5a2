-- ===== src/Host/Sessions.antt =====
-- What opening and closing a session changes.
use auditable_mcp_sdk_python.Base.{
  ℕ, ◌≡◌, refl, false, not, ◌||◌, arith, refl, sym, ap, ◌∙◌, true, Option, none, some, List, [],
  ◌∷◌, ◌++◌, map, Str, str_eq, str_eq_iff, if◌then◌else◌, Option-cases, Bool-cases, inl, inr,
  Str_eq,
}
use auditable_mcp_sdk_python.Base.Order.{str_leb, str_leb_total}
use auditable_mcp_sdk_python.Base.Lists.{
  member, add, sort, count, count-keep, count-sort, IsAscending, sort-IsAscending, member-add,
  member-add_self,
}
use auditable_mcp_sdk_python.Base.Dict.{lookup, insert, erase, lookup-insert, lookup-erase}
use auditable_mcp_sdk_python.Base.Result.{Result, ok, raised, value_error}
use auditable_mcp_sdk_python.Reasons.{unresolved_attempt}
use auditable_mcp_sdk_python.Host.State.{
  Note, call_ended, IntegrityAnomaly, Session, new_session, Host, flag,
}
use auditable_mcp_sdk_python.Host.Lifecycle.{open_session, flag_all, unresolved, close_session}

abbrev pub anomaly_of : (Str → Note) → Str → IntegrityAnomaly
anomaly_of note id = record { id = id; kind = unresolved_attempt; detail = note id }

append_assoc : {A : Type 0} (xs ys zs : List A) → (xs ++ ys) ++ zs ≡ xs ++ (ys ++ zs)
append_assoc [] ys zs = refl
append_assoc (x ∷ xs) ys zs = ap (λ l. x ∷ l) (append_assoc xs ys zs)

append_nil : {A : Type 0} (xs : List A) → xs ++ [] ≡ xs
append_nil [] = refl
append_nil (x ∷ xs) = ap (λ l. x ∷ l) (append_nil xs)

flag_all_lem :
    (note : Str → Note) (ids : List Str) (h : Host)
    → ((flag_all note ids h).anomalies ≡ h.anomalies ++ map (anomaly_of note) ids)
      × ((flag_all note ids h).sessions ≡ h.sessions)
      × ((flag_all note ids h).issued ≡ h.issued)
      × ((flag_all note ids h).ledger ≡ h.ledger)
unfolding flag_all flag
flag_all_lem note [] h = (sym (append_nil h.anomalies), refl, refl, refl)
flag_all_lem note (id ∷ ids) h =
    let (a, s, i, l) = flag_all_lem note ids (flag id unresolved_attempt (note id) h) in
    (a ∙ append_assoc h.anomalies (anomaly_of note id ∷ []) (map (anomaly_of note) ids), s, i, l)

-- How many attempts a session accepted under an id that no outcome of the session resolved.
abbrev pub left_open : Option Session → Str → ℕ
left_open none id = 0
left_open (some s) id = if member id s.resolved then 0 else count id s.accepted

-- The ids are those of the attempts that the session leaves open, by code point.
pub record IsLeftOpen (s : Option Session) (ids : List Str) : Type 0 where
  pub counted : (id : Str) → count id ids ≡ left_open s id
  pub ordered : IsAscending str_leb ids

unresolved-IsLeftOpen : (s : Session) → IsLeftOpen (some s) (sort str_leb (unresolved s))
unfolding unresolved
unresolved-IsLeftOpen s = record {
  counted = λ id.
      count-sort str_leb id (unresolved s)
      ∙ count-keep id (λ x. not (member x s.resolved)) s.accepted
      ∙ ground arith;
  ordered = sort-IsAscending str_leb str_leb_total (unresolved s);
}

reopen_refused :
    (sid : Str) (h : Host) → member sid h.issued ≡ true → open_session sid h ≡ raised value_error
unfolding open_session
reopen_refused sid h e = rw e refl

-- Closing a session ends it and no other and leaves the ledger and the ids that were issued. In the
-- order of the ids it records an unresolved attempt for each id that the session accepted and no outcome of the session
-- resolved, and no other anomaly; closing a session that is not open records nothing.
pub close_session_lem :
    (sid j : Str) (h : Host)
    → let g = close_session sid h in
      (lookup j g.sessions ≡ (if str_eq j sid then none else lookup j h.sessions))
      × ((ids : List Str) × IsLeftOpen (lookup sid h.sessions) ids
          × (g.anomalies ≡ h.anomalies ++ map (anomaly_of call_ended) ids))
      × (g.issued ≡ h.issued)
      × (g.ledger ≡ h.ledger)
unfolding close_session count
close_session_lem sid j h = elim (Option-cases (lookup sid h.sessions)) [
  | inl e ↦
      rw (e, close_session)
        (
          elim (Bool-cases (str_eq j sid)) [
            | inl b ↦ rw (b, (str_eq_iff j sid).0 b) e
            | inr b ↦ rw b refl
          ],
          ([], record { counted = λ id. refl; ordered = tt }, sym (append_nil h.anomalies)),
          refl,
          refl,
        )
  | inr (s, e) ↦
      let ids = sort str_leb (unresolved s) in
      let (a, o, i, l) =
        flag_all_lem call_ended ids (record h { sessions = erase sid h.sessions }) in
      rw (e, close_session)
        (ap (lookup j) o ∙ lookup-erase j sid h.sessions, (ids, unresolved-IsLeftOpen s, a), i, l)
]

-- What the call gives: the id was not issued before and it and no other is issued then, its session
-- is new and every other is as it was, the id cannot be opened again, also after its session was
-- closed, and the ledger is left; or the id was issued before.
abbrev pub Opened : Str → Str → Host → Result Host → Type 0
Opened sid j h (ok g) =
    (member sid h.issued ≡ false)
    × (member j g.issued ≡ (str_eq j sid || member j h.issued))
    × (lookup j g.sessions ≡ (if str_eq j sid then some new_session else lookup j h.sessions))
    × (open_session sid g ≡ raised value_error)
    × (open_session sid (close_session sid g) ≡ raised value_error)
    × (g.ledger ≡ h.ledger)
Opened sid j h (raised x) = (member sid h.issued ≡ true) × (x ≡ value_error)

-- Opening a session is refused exactly where its id was issued before. Otherwise the id is issued and
-- no other is besides those before, its session is new and any other is as it was, and the ledger is
-- left; opening it a second time is refused, also after it was closed.
pub open_session_lem : (sid j : Str) (h : Host) → Opened sid j h (open_session sid h)
unfolding open_session
open_session_lem sid j h = elim (Bool-cases (member sid h.issued)) [
  | inl e ↦ rw (e, open_session) (e, refl)
  | inr e ↦
      let issued : member sid (add sid h.issued) ≡ true = member-add_self sid h.issued in
      let g = record h {
        issued = add sid h.issued;
        sessions = insert sid new_session h.sessions;
      } in
      let (_, _, kept, _) = close_session_lem sid sid g in
      let closed : member sid (close_session sid g).issued ≡ true = ap (member sid) kept ∙ issued in
      rw (e, open_session)
        (
          e,
          member-add j sid h.issued,
          lookup-insert j sid new_session h.sessions,
          rw issued refl,
          reopen_refused sid (close_session sid g) closed,
          refl,
        )
]
