-- ===== src/Lib.antt =====
-- The core of cargo-evidence: the corpus of requirements, tests, reviews and source revisions as
-- one graph, what the program derives from it, and the policy and completeness of a bundle.
--
-- The program. `evidence-core` keeps the records that argue for a piece of certified software. The
-- corpus graph (crates/evidence-core/src/corpus/graph.rs) holds nodes by uid, each with typed edges.
-- Loaders insert nodes one by one; `validate` then checks the edges, the review records, the chains
-- in which a review corrects an earlier one, and the chains in which a revision of a source document
-- supersedes an earlier one. Accepted graphs are read by derived views: the effective head of every
-- document, and the lifecycle of every requirement and curated patch, which compares the digest of
-- the current content with the digests that the unsuperseded reviews bind.
--
-- The files.
--   Prelude       shared names: comparisons, texts as lists of bytes, `Result` and its loops, `sort`
--                 and `dedup`, and the order that maps and sorting take as an instance.
--   BTreeMap      the standard library's map, an association list in the order of its keys.
--   Corpus/Nodes, SourceNodes, SourcePatches, Errors
--                 the data of corpus/graph/nodes.rs, source_graph.rs, source_patch.rs and of the
--                 error files. A variant or field keeps its name; digest newtypes are their text.
--   Corpus/Graph  `CorpusGraph` and its insertions and lookups (graph.rs, graph/validation.rs).
--                 Invariant and Insertion hold its well-formedness; Validation is `validate_edges`;
--                 ReviewInvariants is graph/review_invariants.rs; Supersession, with its children,
--                 is graph/supersession.rs.
--   Corpus/Lineage
--                 corpus/source/lineage.rs: the lineage validator and the heads it licenses.
--   Corpus/Successors, Corpus/Walk
--                 the two parts that both chain validators share: the map from a predecessor to its
--                 successors, and the walk along supersession links that finds cycles.
--   Corpus/Encoding, Corpus/ReviewContent
--                 corpus/review_content.rs: the projection of a requirement, its bytes and digest.
--   Corpus/Lifecycle
--                 corpus/lifecycle.rs and corpus/patch_lifecycle.rs, on a validated graph. Verdict
--                 has the truth table, Evaluation which reviews it is about.
--   Corpus/SourceValidation, Corpus/SourceOrdinals
--                 corpus/source_graph/validate.rs with the digests of normalization.rs: what an
--                 accepted structural source graph satisfies.
--   Corpus/PatchTargets
--                 the target checks of corpus/source_patch/validate.rs.
--   Corpus/PatchEdits, Corpus/PatchApply
--                 corpus/source_patch/apply.rs: the edits of a working copy, and the application of
--                 a patch with its preconditions.
--   Corpus/AllLifecycles, Corpus/EffectiveGraph
--                 the loops of lifecycle.rs and patch_lifecycle.rs over all uids, and
--                 corpus/effective_graph.rs: the approved patches, applied in uid order.
--   Corpus/Transition
--                 corpus/source/lineage/transition.rs: from one source baseline to the next.
--   Corpus/Render, Corpus/Validate
--                 source_graph/render.rs; `CorpusGraph::validate`, and the lifecycle entry points
--                 that call it first.
--   Corpus/ApprovalBoundary
--                 corpus/approval_boundary.rs: the gate on verification and implementation claims.
--   Corpus/Identity, Corpus/Numbering
--                 source_graph/identity.rs: structural keys and reconciliation on re-ingestion.
--   Corpus/Legacy corpus/legacy.rs: the corpus graph of the trace entries.
--   Trace         trace/entries.rs, trace/validation.rs, link_errors.rs, trace/surfaces.rs and
--                 trace/assurance.rs: the register phase, the link phase, and what accepted entries
--                 satisfy.
--   Policy        policy/dal.rs and policy/evidence.rs: assurance levels and what they demand.
--                 Policy/Assurance is policy/assurance.rs with the pack of policy/standards.rs.
--   Compliance    compliance: the objectives table, the verdict on each objective, coverage gates, and
--                 the report that collects them.
--   Bundle/Completeness
--                 bundle/completeness.rs: the state of each area of a bundle, from the facts.
--   Examples      in Corpus, Trace, Policy, Compliance and Bundle/Completeness: small inputs on
--                 which the theorems are applied.
--
-- How the model corresponds to the code. A `&mut self` method takes the graph and returns the new
-- one; `Result` and `?` are `Result` and its binds, so the first error in program order is the one
-- returned. A `BTreeSet` that is only asked for membership is a list. The `while let` loop of the
-- cycle checks runs on fuel: one step for each link of the graph, one for the start and one to end,
-- which is enough for every map and every start. The walk from a source node to its root has one
-- step for each node and one to end, as has the walk for the ancestry of a patched node; the cascade
-- of a removal has one step for each node, one for the target and one to end. SHA-256 is a
-- parameter, a function from bytes to text; the theorems on lifecycles hold for each such function.
-- Lengths that are encoded as `u64` are assumed to be below `u64::MAX` where the encoding is read
-- back. The random UUIDs of new source nodes are a parameter as well.
--
-- Not modelled: reading and writing of files, TOML and JSON, the processes that the program runs,
-- the command line and the MCP server; the ingestion of HTML, Markdown and PDF, which rests on
-- third-party parsers; drift findings, proposals and source locks; the trace matrix and reports; the
-- assembly, signing and verification of bundles on disk, and the diff of two bundles; coverage
-- files, floors and boundary checks. The printing and comparison of floats and the parsing of UUIDs
-- are parameters.
pub mod Prelude
pub mod BTreeMap
pub mod Compliance
pub mod Corpus
pub mod Policy
pub mod Trace
pub mod Bundle
