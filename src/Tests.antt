-- ===== src/Tests.antt =====
-- Tests of the definitions at concrete inputs, and each result at an input where it applies.
pub mod Selectors
pub mod Sessions
pub mod Ports
pub mod Leases
pub mod Registry
pub mod Tasks
pub mod Options
pub mod Operations
pub mod Invocations
pub mod Discoveries
