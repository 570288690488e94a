-- ===== src/Trace/Surfaces.antt =====
-- Surfaces and who claims them: crates/evidence-core/src/trace/surfaces.rs, and the surface part of
-- trace/assurance.rs.
pub mod Matched
pub mod Claimed
use evidence.Prelude.{
  Str, codes, Bool, true, false, not, Option, none, some, List, [], ◌∷◌, ◌++◌, contains,
  insert_sorted, str_ord, if◌then◌else◌,
}
use evidence.BTreeMap
use evidence.BTreeMap.{BTreeMap}
use evidence.Trace.Entries.{HlrEntry}
use evidence.Trace.Errors.{LinkError}

-- `KNOWN_SURFACES`; the arrow is its three bytes.
abbrev pub known_surfaces : List Str
known_surfaces =
    codes "check"
    ∷ codes "context"
    ∷ codes "diff"
    ∷ codes "doctor"
    ∷ codes "floors"
    ∷ codes "generate"
    ∷ codes "init"
    ∷ codes "keygen"
    ∷ codes "rules"
    ∷ codes "trace"
    ∷ codes "verify"
    ∷ codes "CLI_SUBCOMMAND_ERROR terminal"
    ∷ codes "VERIFY_OK / VERIFY_FAIL / VERIFY_ERROR terminal contract"
    ∷ codes "agent MCP surface"
    ∷ codes "comment hygiene gate"
    ∷ codes "coverage measurement"
    ∷ codes "diagnostic code namespace (regex + reserved suffixes)"
    ∷ codes "editor-duplicate gate"
    ∷ codes "jsonl stream per Schema Rule 2"
    ∷ codes "layered CLAUDE.md (root + crates/*/CLAUDE.md)"
    ∷ codes "per-test outcome capture"
    ∷ (codes "per-test " ++ 0xE2 ∷ 0x86 ∷ 0x94 ∷ codes " LLR back-link")
    ∷ codes "pre-release safety gate"
    ∷ codes "root_cause_uid grouping per Schema Rule 7"
    ∷ codes "structured Link-phase diagnostic codes"
    ∷ codes "trace-ID reference bijection"
    ∷ codes "walker-usage standardization"
    ∷ []

-- Claimed values and who claims them, with a set of ids as a list in order.
abbrev pub Claimants : Type 0
Claimants = BTreeMap Str (List Str)

abbrev pub claimants_of : Option (List Str) → List Str
claimants_of none = []
claimants_of (some ids) = ids

-- `BTreeSet::insert`
unfoldable pub set_insert : Str → List Str → List Str
set_insert id ids = if contains ids id then ids else insert_sorted id ids

unfoldable pub add_claims : Str → List Str → Claimants → Claimants
unfolding set_insert
add_claims requirement_id [] mappings = mappings
add_claims requirement_id (claim ∷ claims) mappings = add_claims requirement_id claims (
    BTreeMap.insert claim (set_insert requirement_id (claimants_of (BTreeMap.get claim mappings)))
      mappings)

unfoldable pub from_hlr_entries : Claimants → List HlrEntry → Claimants
unfolding add_claims
from_hlr_entries mappings [] = mappings
from_hlr_entries mappings (entry ∷ entries) =
    from_hlr_entries (add_claims entry.id entry.surfaces mappings) entries

unfoldable pub unknown_by : Str → List Str → List LinkError
unknown_by surface [] = []
unknown_by surface (hlr_id ∷ ids) =
    LinkError.surface_unknown hlr_id surface ∷ unknown_by surface ids

unfoldable pub unknown_surfaces : Claimants → List LinkError
unfolding unknown_by
unknown_surfaces [] = []
unknown_surfaces ((surface, claimants) ∷ rest) =
    (if contains known_surfaces surface then [] else unknown_by surface claimants)
    ++ unknown_surfaces rest

unfoldable pub unclaimed_surfaces : Claimants → List Str → List LinkError
unclaimed_surfaces mappings [] = []
unclaimed_surfaces mappings (surface ∷ surfaces) =
    (if BTreeMap.contains_key surface mappings
      then []
      else LinkError.surface_unclaimed surface ∷ [])
    ++ unclaimed_surfaces mappings surfaces

unfoldable pub surface_errors : Claimants → List LinkError
unfolding unknown_surfaces unclaimed_surfaces
surface_errors mappings = unknown_surfaces mappings ++ unclaimed_surfaces mappings known_surfaces
