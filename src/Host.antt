-- ===== src/Host.antt =====
-- host.py: the host-side audit subsystem of one partition.
pub mod State
pub mod World
pub mod Checks
pub mod Sealing
pub mod Attempt
pub mod Outcome
pub mod Lifecycle
pub mod Triple
pub mod Untouched
pub mod Seals
pub mod Core
pub mod Frame
pub mod Chain
pub mod Hashed
pub mod Bound
pub mod Kept
pub mod Accepts
pub mod Sessions
