-- ===== src/Trace.antt =====
-- The requirement and test entries of crates/evidence-core/src/trace and the validation of their
-- links.
pub mod Entries
pub mod Errors
pub mod Register
pub mod Surfaces
pub mod Assurance
pub mod Links
pub mod Validation
mod Examples
