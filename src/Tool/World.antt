-- ===== src/Tool/World.antt =====
-- What a session calls that is injected into it: the transport, the signer, the verifier of
-- countersignatures, the clock and the ids, and the packages. A world's state says what they answer;
-- a call may change it.
use auditable_mcp_sdk_python.Base.{ℕ, Bool, Str}
use auditable_mcp_sdk_python.Json.{Fields}
use auditable_mcp_sdk_python.Canonical.{Jcs}
use auditable_mcp_sdk_python.Reasons.{Reason}
use auditable_mcp_sdk_python.Models.{AttemptResponse}
use auditable_mcp_sdk_python.Encoding.{Bytes}
use auditable_mcp_sdk_python.SaltedHash.{Packages}

-- What a tool's code raises: `AmcpUsageError`, `AmcpAbortedError` with its fields, a `ValueError`,
-- another `Exception`, and a cancellation, which is no `Exception`.
pub data Error : Type 0 where
  usage_error : Error
  aborted_error : Str → Str → Reason → Error
  value_error other_error cancellation : Error

-- A call returned, or raised.
pub data Ended {ℓ} (A : Type ℓ) : Type ℓ where
  returned : A → Ended A
  failed : Error → Ended A

-- `True`, `False` and `'unavailable'`
pub data Verdict : Type 0 where
  verified unverified cannot_check : Verdict

abbrev pub Call : Type 0 → Type 0 → Type 0
Call W A = W → Ended A × W

pub record Seams (W : Type 0) : Type 0 where
  pub jcs : Jcs
  pub packages : Packages
  -- What the pattern engine's `\d` takes.
  pub digit : ℕ → Bool
  -- Pydantic's `model_dump(mode='json')` of a context.
  pub dump : Fields → Fields
  pub new_id : W → Str × W
  pub now : W → Str × W
  -- `secrets.token_bytes`
  pub token_bytes : W → Bytes × W
  pub sign : Fields → ℕ → Call W Fields
  pub send_attempt : Fields → Call W AttemptResponse
  pub send_outcome : Fields → Call W (Unit {0})
  pub verify : Str → Str → Str → Call W Verdict

infixl 5 ◌>>=◌
abbrev pub ◌>>=◌ : {W A B : Type 0} → Call W A → (A → Call W B) → Call W B
◌>>=◌ m f w = let (r, w') = m w in elim r [ returned a ↦ f a w' | failed e ↦ (failed e, w') ]

-- A method of a session: it reads and moves `next_signer_seq` besides.
abbrev pub Method : Type 0 → Type 0 → Type 0
Method W A = ℕ → W → Ended A × ℕ × W

abbrev pub fail : {W A : Type 0} → Error → Method W A
fail e n w = (failed e, n, w)

-- A call that leaves the numbering.
abbrev pub calling : {W A : Type 0} → Call W A → Method W A
calling m n w = let (r, w') = m w in (r, n, w')

abbrev pub after : {W A B : Type 0} → (A → Method W B) → Ended A × ℕ × W → Ended B × ℕ × W
after f t = let (r, n, w) = t in elim r [ returned a ↦ f a n w | failed e ↦ (failed e, n, w) ]

infixl 5 ◌>=>◌
abbrev pub ◌>=>◌ : {W A B : Type 0} → Method W A → (A → Method W B) → Method W B
◌>=>◌ m f n w = after f (m n w)
