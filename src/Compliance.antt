-- ===== src/Compliance.antt =====
-- The objectives of DO-178C and what the evidence of a crate says about each:
-- crates/evidence-core/src/compliance.
pub mod Objectives
pub mod Coverage
pub mod Status
pub mod Generator
pub mod Judged
pub mod Tally
pub mod Earned
pub mod RedRun
mod Examples
