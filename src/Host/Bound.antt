-- ===== src/Host/Bound.antt =====
-- An accept carries the record hash of the attempt that it answers.
use auditable_mcp_sdk_python.Base.{ℕ, ◌≡◌, sym, ◌∙◌, Option, some, Str}
use auditable_mcp_sdk_python.Base.Dict.{Dict}
use auditable_mcp_sdk_python.Base.Result.{Result, ok}
use auditable_mcp_sdk_python.Json.{obj, Fields}
use auditable_mcp_sdk_python.Canonical.{Jcs, canonicalize}
use auditable_mcp_sdk_python.Hashing.{compute_record_hash}
use auditable_mcp_sdk_python.Ledger.{SealedRecord, Ledger}
use auditable_mcp_sdk_python.Models.{AttemptResponse, accepted}
use auditable_mcp_sdk_python.Host.State.{Host, accept_of}
use auditable_mcp_sdk_python.Host.World.{World}
use auditable_mcp_sdk_python.Host.Attempt.{handle_attempt}
use auditable_mcp_sdk_python.Host.Core.{core}
use auditable_mcp_sdk_python.Host.Frame.{handle_attempt-Holding}
use auditable_mcp_sdk_python.Host.Seals.{IsHonest}
use auditable_mcp_sdk_python.Host.Hashed.{IsHashed, settle_tail-Hashed, seal_event-Hashed}
use auditable_mcp_sdk_python.Host.Accepts.{IsBacked, handle_attempt-IsBacked}

-- Events of one canonical form have one record hash: the canonical form of a preimage is made of those
-- of its members.
abbrev pub IsCompositional : Jcs → Type 0
IsCompositional c =
    (e d : Fields) (n : ℕ) (t h : Str)
    → canonicalize c (obj e) ≡ canonicalize c (obj d)
    → compute_record_hash c e n t h ≡ compute_record_hash c d n t h

module _ {W : Type 0} (env : World W) where
  abbrev HashedCore : Ledger × Dict Str SealedRecord → Type 0
  HashedCore (l, d) = IsHashed env.jcs d

  handle_attempt-Hashed :
      IsHonest env
      → (e : Fields) (x : Option Str) (d : Option ℕ) (h : Host) (w : W)
      → IsHashed env.jcs h.sealed_attempts
      → IsHashed env.jcs (handle_attempt env e x d h w).1.sealed_attempts
  unfolding core
  handle_attempt-Hashed honest e x d h w p =
      handle_attempt-Holding env HashedCore (settle_tail-Hashed env honest) (seal_event-Hashed env)
        e x d h w p

  -- The hash in the accept is that of this attempt, under the fields that the host assigned.
  abbrev pub IsAttested : Fields → Result AttemptResponse → Type 0
  IsAttested e (ok (accepted a)) =
      compute_record_hash env.jcs e a.seq a.host_ts a.previous_hash ≡ some a.record_hash
  IsAttested e _ = Unit

  backed-IsAttested :
      IsCompositional env.jcs
      → (e : Fields) (r : Result AttemptResponse) (g : Host) → IsHashed env.jcs g.sealed_attempts
      → IsBacked env.jcs e r g
      → IsAttested e r
  unfolding accept_of
  backed-IsAttested parts e (ok (accepted a)) g p (r, found, same, form) =
      let own = p _ r found in
      let joined = parts r.event e r.seq r.host_ts r.previous_hash form in
      rw (← same) (sym joined ∙ own)
  backed-IsAttested parts e _ g p b = tt

  -- Where the store gives back no record whose hash is not that of its content, an accept of
  -- `handle_attempt` carries the record hash of the very attempt that it answers, under the position,
  -- the time and the previous hash that it names, also where it repeats an earlier accept: the hash
  -- that Polluted Stop recomputes. The attempts that the host keeps sealed go on carrying their hashes.
  pub handle_attempt-IsAttested :
      IsHonest env
      → IsCompositional env.jcs
      → (event : Fields) (expected : Option Str) (deadline : Option ℕ) (h : Host) (w : W)
      → IsHashed env.jcs h.sealed_attempts
      → let (result, g, _) = handle_attempt env event expected deadline h w in
        IsAttested event result × IsHashed env.jcs g.sealed_attempts
  handle_attempt-IsAttested honest parts e x d h w p =
      let t = handle_attempt env e x d h w in
      let after = handle_attempt-Hashed honest e x d h w p in
      (backed-IsAttested parts e t.0 t.1 after (handle_attempt-IsBacked env e x d h w), after)
