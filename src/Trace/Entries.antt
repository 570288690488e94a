-- ===== src/Trace/Entries.antt =====
-- The entries of the trace files: crates/evidence-core/src/trace/entries.rs.
use evidence.Prelude.{ℤ, Str, Bool, Option, none, some, List, ◌∷◌, sort, dedup, str_ord}

-- System requirements have the same shape.
pub record HlrEntry : Type 0 where
  pub uid : Option Str
  pub ns : Option Str
  pub id : Str
  pub title : Str
  pub owner : Option Str
  pub scope : Option Str
  pub sort_key : Option ℤ
  pub category : Option Str
  pub source : Option Str
  pub description : Option Str
  pub rationale : Option Str
  pub verification_methods : List Str
  pub traces_to : List Str
  pub surfaces : List Str

pub record LlrEntry : Type 0 where
  pub uid : Option Str
  pub ns : Option Str
  pub id : Str
  pub title : Str
  pub owner : Option Str
  pub sort_key : Option ℤ
  pub traces_to : List Str
  pub source : Option Str
  pub modules : List Str
  pub description : Option Str
  pub verification_methods : List Str
  pub emits : List Str

pub record TestEntry : Type 0 where
  pub uid : Option Str
  pub ns : Option Str
  pub id : Str
  pub title : Str
  pub owner : Option Str
  pub sort_key : Option ℤ
  pub traces_to : List Str
  pub description : Option Str
  pub category : Option Str
  pub test_selector : Option Str
  pub test_selectors : List Str
  pub source : Option Str

abbrev with_selector : Option Str → List Str → List Str
with_selector none selectors = selectors
with_selector (some selector) selectors = selector ∷ selectors

-- A set of texts that is read in order.
unfoldable pub all_selectors : TestEntry → List Str
all_selectors entry = dedup (sort (with_selector entry.test_selector entry.test_selectors))

pub record DerivedEntry : Type 0 where
  pub uid : Option Str
  pub id : Str
  pub title : Str
  pub owner : Option Str
  pub source : Option Str
  pub description : Option Str
  pub rationale : Option Str
  pub safety_impact : Option Str
  pub disposition : Option Str
  pub reviewed : Option Bool
  pub sort_key : Option ℤ
