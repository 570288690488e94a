-- ===== src/Bundle.antt =====
-- Evidence bundles: crates/evidence-core/src/bundle.
pub mod Completeness
