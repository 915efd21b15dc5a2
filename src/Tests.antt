-- ===== src/Tests.antt =====
-- Concrete records, ledgers and hosts, on which the theorems are run.
pub mod Framing
pub mod Chains
pub mod Parts
pub mod Hosts
pub mod Tools
pub mod Codecs
pub mod Seams
pub mod Embedded
pub mod Receivers
