-- ===== src/Corpus.antt =====
-- The corpus of crates/evidence-core/src/corpus: requirements, tests, reviews and source revisions
-- as one graph.
pub mod Nodes
pub mod SourceNodes
pub mod SourcePatches
pub mod Numbering
pub mod Identity
pub mod Errors
pub mod Graph
pub mod Legacy
pub mod Lineage
pub mod Walk
pub mod Successors
pub mod Encoding
pub mod ReviewContent
pub mod Lifecycle
pub mod SourceValidation
pub mod SourceOrdinals
pub mod PatchTargets
pub mod PatchEdits
pub mod Render
pub mod PatchApply
pub mod Validate
pub mod AllLifecycles
pub mod EffectiveGraph
pub mod Transition
pub mod ApprovalBoundary
mod Examples
