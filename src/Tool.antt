-- ===== src/Tool.antt =====
-- session.py: the tool's side of one audit session, audit before act.
pub mod World
pub mod Session
pub mod Emission
pub mod Entry
pub mod Lifecycle
pub mod Clearance
pub mod Audited
pub mod Recorded
pub mod Numbered
pub mod Sequence
pub mod Outcomes
pub mod Aborts
