-- ===== src/Host/Triple.antt =====
-- What a method of the host ensures: one rule for each way to build a method.
use auditable_mcp_sdk_python.Base.Result.{Result, ok, raised}
use auditable_mcp_sdk_python.Host.State.{Host}
use auditable_mcp_sdk_python.Host.World.{M, ◌>>=◌}

-- From a host that satisfies `P`, the result and the host that the method leaves satisfy `Q`.
abbrev pub Triple : {W A : Type 0} → (Host → Type 0) → M W A → (Result A → Host → Type 0) → Type 0
Triple {W} P m Q = (h : Host) (w : W) → P h → Q (m h w).0 (m h w).1

-- After a first step: what the rest may start from, or what the raise ensures.
abbrev pub Then :
    {A B : Type 0} → (A → Host → Type 0) → (Result B → Host → Type 0) → Result A → Host → Type 0
Then R Q (ok a) g = R a g
Then R Q (raised e) g = Q (raised e) g

module _ {W A B : Type 0} where
  continue :
      (R : A → Host → Type 0) (Q : Result B → Host → Type 0) (f : A → M W B)
      → ((a : A) → Triple (R a) (f a) Q)
      → (r : Result A) (h : Host) (w : W) → Then R Q r h
      → let t : Result B × Host × W = elim r [ ok a ↦ f a h w | raised e ↦ (raised e, h, w) ] in
        Q t.0 t.1
  continue R Q f k (ok a) h w p = k a h w p
  continue R Q f k (raised e) h w p = p

  pub Triple-bind :
      {P : Host → Type 0} (R : A → Host → Type 0) (Q : Result B → Host → Type 0) (m : M W A)
      (f : A → M W B)
      → Triple P m (Then R Q)
      → ((a : A) → Triple (R a) (f a) Q)
      → Triple P (m >>= f) Q
  Triple-bind R Q m f km kf h w p = continue R Q f kf (m h w).0 (m h w).1 (m h w).2 (km h w p)

-- A method that leaves `P` as it was, whether it returns or raises.
abbrev pub Keeps : {W A : Type 0} → (Host → Type 0) → M W A → Type 0
Keeps P m = Triple P m (λ _ g. P g)

module _ {W A B : Type 0} (P : Host → Type 0) (m : M W A) (f : A → M W B) where
  pub Keeps-bind : Keeps P m → ((a : A) → Keeps P (f a)) → Keeps P (m >>= f)
  Keeps-bind km kf h w p = go (m h w).0 (m h w).1 (m h w).2 (km h w p)
    where
      go :
          (r : Result A) (h : Host) (w : W)
          → P h
          → let t : Result B × Host × W = elim r [ ok a ↦ f a h w | raised e ↦ (raised e, h, w) ] in
            P t.1
      go (ok a) h w p = kf a h w p
      go (raised e) h w p = p
