-- ===== src/Tool/Recorded.antt =====
-- session.py: a session whose transport also keeps a list of what it was given to send, and what
-- methods of such a session keep.
use auditable_mcp_sdk_python.Base.{ℕ, Bool, true, false, List, ◌∷◌, if◌then◌else◌}
use auditable_mcp_sdk_python.Json.{Fields}
use auditable_mcp_sdk_python.Tool.World.{Ended, returned, failed, Call, Seams, Method, after, ◌>=>◌}
use auditable_mcp_sdk_python.Tool.Entry.{caught}

-- An event that the transport was given, and whether its number is used then.
pub record Sending : Type 0 where
  pub event : Fields
  pub counted : Bool

abbrev pub is_returned : {A : Type 0} → Ended A → Bool
is_returned (returned _) = true
is_returned (failed _) = false

module _ {W : Type 0} where
  abbrev pub aside : {A : Type 0} → Call W A → Call (List Sending × W) A
  aside m (l, w) = let (r, w') = m w in (r, (l, w'))

  abbrev pub plainly : {A : Type 0} → (W → A × W) → List Sending × W → A × List Sending × W
  plainly m (l, w) = let (a, w') = m w in (a, l, w')

  -- The same seams, the latest sending first in the list.
  abbrev pub recorded : Seams W → Seams (List Sending × W)
  recorded s = record {
    jcs = s.jcs;
    packages = s.packages;
    digit = s.digit;
    dump = s.dump;
    new_id = λ v. let (a, l, w) = plainly s.new_id v in (a, (l, w));
    now = λ v. let (a, l, w) = plainly s.now v in (a, (l, w));
    token_bytes = λ v. let (a, l, w) = plainly s.token_bytes v in (a, (l, w));
    sign = λ e n. aside (s.sign e n);
    send_attempt = λ e v.
        let (r, w) = s.send_attempt e v.1 in
        (r, (record { event = e; counted = is_returned (caught e r) } ∷ v.0, w));
    send_outcome = λ e v.
        let (r, w) = s.send_outcome e v.1 in
        (r, (record { event = e; counted = is_returned r } ∷ v.0, w));
    verify = λ k s' p. aside (s.verify k s' p);
  }

-- A method that leaves `P` of the number and of the sendings as it was.
abbrev pub Keeps :
    {W A : Type 0} → (ℕ → List Sending → Type 0) → Method (List Sending × W) A → Type 0
Keeps {W} P m = (n : ℕ) (v : List Sending × W) → P n v.0 → P (m n v).1 (m n v).2.0

module _ {W A B : Type 0} (P : ℕ → List Sending → Type 0) (m : Method (List Sending × W) A)
    (f : A → Method (List Sending × W) B) where
  pub Keeps-chain : Keeps P m → ((a : A) → Keeps P (f a)) → Keeps P (m >=> f)
  Keeps-chain km kf n v p = go (m n v).0 (m n v).1 (m n v).2 (km n v p)
    where
      go :
          (r : Ended A) (n' : ℕ) (v' : List Sending × W)
          → P n' v'.0
          → let t = after f (r, n', v') in P t.1 t.2.0
      go (returned a) n' v' p = kf a n' v' p
      go (failed e) n' v' p = p

pub Keeps-if :
    {W A : Type 0} (P : ℕ → List Sending → Type 0) (b : Bool) (m k : Method (List Sending × W) A)
    → Keeps P m
    → Keeps P k
    → Keeps P (λ n. λ v. if b then m n v else k n v)
Keeps-if P true m k km kk n v p = km n v p
Keeps-if P false m k km kk n v p = kk n v p
