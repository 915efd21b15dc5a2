-- ===== src/Host/World.antt =====
-- What the host calls that is not the repository's code: the injected clock, verifier,
-- countersigner and store, and the packages for JSON, patterns and digests. A world's state says
-- what they answer; a call may change it.
use auditable_mcp_sdk_python.Base.{ℕ, Bool, Option, Str}
use auditable_mcp_sdk_python.Base.Result.{Exception, Result, ok, raised}
use auditable_mcp_sdk_python.Json.{Fields}
use auditable_mcp_sdk_python.Canonical.{Jcs}
use auditable_mcp_sdk_python.Reasons.{Reason}
use auditable_mcp_sdk_python.Ledger.{SealedRecord}
use auditable_mcp_sdk_python.Host.State.{Host}

pub record World (W : Type 0) : Type 0 where
  pub jcs : Jcs
  -- What the pattern engine's `\d` takes.
  pub digit : ℕ → Bool
  pub now : W → Str × W
  -- `anyio.current_time()`
  pub current_time : W → ℕ × W
  pub verify : Fields → W → Result (Option Reason) × W
  pub sign : Str → W → Result Str × W
  pub store : Str → SealedRecord → W → Result (Unit {0}) × W
  pub load_tail : Str → W → Result (Option SealedRecord) × W

-- A method: it returns or raises, and leaves a host and a world.
abbrev pub M : Type 0 → Type 0 → Type 0
M W A = Host → W → Result A × Host × W

module _ {W A : Type 0} where
  abbrev pub pure : A → M W A
  pure a h w = (ok a, h, w)

  abbrev pub raise : Exception → M W A
  raise e h w = (raised e, h, w)

  abbrev pub lift : Result A → M W A
  lift r h w = (r, h, w)

  abbrev pub ask : (W → Result A × W) → M W A
  ask f h w = let (r, w') = f w in (r, h, w')

  abbrev pub gets : (Host → A) → M W A
  gets f h w = (ok (f h), h, w)

  -- A step on the host alone.
  abbrev pub step : (Host → A × Host) → M W A
  step f h w = let (a, h') = f h in (ok a, h', w)

infixl 5 ◌>>=◌ ◌>>◌
abbrev pub ◌>>=◌ : {W A B : Type 0} → M W A → (A → M W B) → M W B
◌>>=◌ m f h w =
    let (r, h', w') = m h w in elim r [ ok a ↦ f a h' w' | raised e ↦ (raised e, h', w') ]

abbrev pub ◌>>◌ : {W B : Type 0} → M W (Unit {0}) → M W B → M W B
m >> k = m >>= λ _. k

abbrev pub modify : {W : Type 0} → (Host → Host) → M W (Unit {0})
modify f h w = (ok tt, f h, w)
