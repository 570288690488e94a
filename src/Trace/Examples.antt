-- ===== src/Trace/Examples.antt =====
-- The theorems on trace validation, applied to one chain from a system requirement to a test.
use evidence.Prelude.{
  ℤ, Str, codes, Bool, true, none, some, [], ◌∷◌, Result, ok, err, ◌≡◌, refl, contains, find,
  first_repeat, sort, dedup, str_ord, pair_ord,
}
use evidence.BTreeMap
use evidence.Policy.{TracePolicy, strict_trace}
use evidence.Corpus.Errors.{CorpusError}
use evidence.Corpus.Graph.{CorpusGraph, new}
use evidence.Corpus.ReviewContent.{canonical_strings}
use evidence.Corpus.Legacy.{graph_from_trace_parts}
use evidence.Corpus.Legacy.Adapted.{IsAdapted, graph_from_trace_parts-IsAdapted}
use evidence.Trace.Surfaces.{known_surfaces}
use evidence.Trace.Entries.{HlrEntry, LlrEntry, TestEntry, DerivedEntry}
use evidence.Trace.Validation.{validate_trace_links_with_policy, default_policy}

abbrev any_uuid : Str → Bool
any_uuid text = true

abbrev system : HlrEntry
system = record {
  uid = some (codes "u1");
  ns = none;
  id = codes "SYS-1";
  title = codes "S";
  owner = some (codes "soi");
  scope = none;
  sort_key = some (ℤ.pos 1);
  category = none;
  source = none;
  description = none;
  rationale = none;
  verification_methods = [];
  traces_to = [];
  surfaces = [];
}

abbrev high : HlrEntry
high = record system {
  uid = some (codes "u2");
  id = codes "HLR-1";
  owner = some (codes "tool");
  verification_methods = codes "test" ∷ [];
  traces_to = codes "u1" ∷ [];
}

abbrev low : LlrEntry
low = record {
  uid = some (codes "u3");
  ns = none;
  id = codes "LLR-1";
  title = codes "L";
  owner = some (codes "tool");
  sort_key = none;
  traces_to = codes "u2" ∷ [];
  source = none;
  modules = [];
  description = none;
  verification_methods = codes "test" ∷ [];
  emits = [];
}

abbrev check : TestEntry
check = record {
  uid = some (codes "u4");
  ns = none;
  id = codes "TEST-1";
  title = codes "T";
  owner = some (codes "tool");
  sort_key = some (ℤ.negsuc 0);
  traces_to = codes "u3" ∷ [];
  description = none;
  category = none;
  test_selector = none;
  test_selectors = [];
  source = none;
}

abbrev extra : DerivedEntry
extra = record {
  uid = some (codes "u5");
  id = codes "DER-1";
  title = codes "D";
  owner = some (codes "tool");
  source = none;
  description = none;
  rationale = some (codes "needed");
  safety_impact = some (codes "none");
  disposition = some (codes "accepted");
  reviewed = some true;
  sort_key = none;
}

-- An HLR that claims every surface, under the policy that asks for it.
abbrev governing : HlrEntry
governing = record high { surfaces = known_surfaces }

abbrev surface_trace : TracePolicy
surface_trace = record strict_trace { require_hlr_surface_bijection = true }

-- Entries without an owner are not registered, so two of them may share a uid.
abbrev ownerless : HlrEntry
ownerless = record system { owner = none; verification_methods = codes "test" ∷ [] }

shared_uid :
    validate_trace_links_with_policy any_uuid []
      (ownerless ∷ ownerless ∷ [])
      []
      []
      []
      default_policy
    ≡ ok tt
unfolding validate_trace_links_with_policy BTreeMap.get BTreeMap.insert contains find first_repeat
    sort canonical_strings dedup
shared_uid = refl

abbrev or_new : Result CorpusError CorpusGraph → CorpusGraph
or_new (ok g) = g
or_new (err e) = new

-- The graph of the five entries.
abbrev adapted : CorpusGraph
adapted =
    or_new
      (graph_from_trace_parts (system ∷ []) (governing ∷ []) (low ∷ []) (check ∷ []) (extra ∷ []))

accepted :
    graph_from_trace_parts (system ∷ []) (governing ∷ []) (low ∷ []) (check ∷ []) (extra ∷ [])
    ≡ ok adapted
unfolding graph_from_trace_parts BTreeMap.get BTreeMap.insert find first_repeat sort
accepted = refl

graph_from_trace_parts-IsAdapted_example :
    IsAdapted (system ∷ []) (governing ∷ []) (low ∷ []) (check ∷ []) (extra ∷ []) adapted
graph_from_trace_parts-IsAdapted_example =
    graph_from_trace_parts-IsAdapted (system ∷ []) (governing ∷ []) (low ∷ []) (check ∷ [])
      (extra ∷ []) adapted accepted
