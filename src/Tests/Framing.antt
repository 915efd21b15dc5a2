-- ===== src/Tests/Framing.antt =====
-- A concrete stand-in for the canonical form and the digest: members framed by their lengths.
use auditable_mcp_sdk_python.Base.{
  ℕ, ◌≡◌, refl, ap, sym, ◌∙◌, true, false, some, [], ◌∷◌, ◌++◌, Str, arith,
}
use auditable_mcp_sdk_python.Base.Lists.{length}
use auditable_mcp_sdk_python.Json.{
  magnitude, Json, null, bool, int, float, str, arr, obj, Fields, end, field,
}
use auditable_mcp_sdk_python.Fields
use auditable_mcp_sdk_python.Canonical.{Jcs}
use auditable_mcp_sdk_python.Hashing.{genesis_hash, preimage}
use auditable_mcp_sdk_python.Verify.Tamper.{IsBinding}

abbrev pub frame : Str → Str
frame s = length s ∷ s

unfoldable mutual
  pub body : Json → Str
  body null = 0 ∷ []
  body (bool true) = 1 ∷ []
  body (bool false) = 2 ∷ []
  body (int z) = 3 ∷ magnitude z ∷ []
  body (float _) = 4 ∷ []
  body (str s) = 5 ∷ s
  body (arr _) = 6 ∷ []
  body (obj fs) = 7 ∷ members fs

  pub members : Fields → Str
  members end = []
  members (field k v fs) = frame k ++ (frame (body v) ++ members fs)

abbrev pub framing : Jcs
framing = record { dumps = λ v. some (body v); digest_hex = λ s. 120 ∷ s }

-- A framed text is read back from what begins with it.
tail_eq : {x y : ℕ} {s t : Str} → x ∷ s ≡ y ∷ t → (x ≡ y) × (s ≡ t)
tail_eq e = (cc, cc)

same_split : (s t p q : Str) → length s ≡ length t → s ++ p ≡ t ++ q → (s ≡ t) × (p ≡ q)
same_split [] [] p q l e = (refl, e)
same_split [] (y ∷ t) p q l e = absurd (omega arith)
same_split (x ∷ s) [] p q l e = absurd (omega arith)
same_split (x ∷ s) (y ∷ t) p q l e =
    let (here, rest) = tail_eq e in let (a, b) = same_split s t p q (omega arith) rest in (cc, b)

frame_eq : (s t p q : Str) → frame s ++ p ≡ frame t ++ q → (s ≡ t) × (p ≡ q)
frame_eq s t p q e = let (l, rest) = tail_eq e in same_split s t p q l rest

member_eq :
    (k s t p q : Str) → frame k ++ (frame s ++ p) ≡ frame k ++ (frame t ++ q) → (s ≡ t) × (p ≡ q)
member_eq k s t p q e = frame_eq s t p q (frame_eq k k (frame s ++ p) (frame t ++ q) e).1

-- The members of two preimages with one text.
same_members :
    (e e' : Fields) (n n' : ℕ) (t t' h h' : Str)
    → body (preimage e n t h) ≡ body (preimage e' n' t' h')
    → (body (obj e) ≡ body (obj e')) × (n ≡ n') × (t ≡ t') × (h ≡ h')
unfolding body members
same_members e e' n n' t t' h h' x =
    let (event, x1) = member_eq Fields.event (body (obj e)) (body (obj e')) _ _ (tail_eq x).1 in
    let (time, x2) = member_eq Fields.host_ts (5 ∷ t) (5 ∷ t') _ _ x1 in
    let (link, x3) = member_eq Fields.previous_hash (5 ∷ h) (5 ∷ h') _ _ x2 in
    let (position, _) = member_eq Fields.seq (3 ∷ n ∷ []) (3 ∷ n' ∷ []) [] [] x3 in
    (event, (tail_eq (tail_eq position).1).0, (tail_eq time).1, (tail_eq link).1)

some_eq : {s t : Str} → some s ≡ some t → s ≡ t
some_eq e = cc

pub framing-IsBinding : IsBinding framing
unfolding genesis_hash
framing-IsBinding = record {
  collision_free = λ s t e. (tail_eq e).1;
  not_genesis = λ s e. cc (tail_eq e).0;
  members = λ e e' n n' t t' h h' s p q.
      let (event, position, time, link) = same_members e e' n n' t t' h h' (some_eq (p ∙ sym q)) in
      (ap some event, position, time, link);
}
