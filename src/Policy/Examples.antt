-- ===== src/Policy/Examples.antt =====
-- The theorems on levels, applied.
use evidence.Prelude.{codes, ok, ◌≡◌, ◌↔◌}
use evidence.Policy.{Dal, to_uppercase, from_str}
use evidence.Policy.Laws.{from_str_iff}

from_str_iff_example : (from_str (codes "b") ≡ ok Dal.b) ↔ (to_uppercase (codes "b") ≡ codes "B")
from_str_iff_example = from_str_iff (codes "b") Dal.b
