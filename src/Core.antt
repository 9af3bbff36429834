-- ===== src/Core.antt =====
-- The reasoning core, src/core: the modules that need no hardware.
pub mod Contracts
pub mod Gateway
pub mod Hypothesis
pub mod Memory
pub mod Planner
pub mod Provenance
pub mod Router
pub mod Select
pub mod Sort
pub mod Verification
