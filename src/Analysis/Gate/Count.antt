-- ===== src/Analysis/Gate/Count.antt =====
-- How many blockers `collectBlockers` gathers.
use mirops.Prelude.{
  ℕ, ◌+◌, ◌≡◌, String, Bool, true, false, arith, length, length-append, length-map, length-select,
  count_if,
}
use mirops.Analysis.{Report}
use mirops.Analysis.Gate.{when, collect_blockers, addon_blocks, is_lost, nodes_of}

abbrev pub bit : Bool → ℕ
bit true = 1
bit false = 0

length-when : (b : Bool) (line : String) → length (when b line) ≡ bit b
length-when b line = ground arith

-- There is one blocker for each blocking condition, each incompatible add-on and each lost volume
-- claim.
pub length-collect_blockers :
    (r : Report)
    → length (collect_blockers r)
      ≡ bit r.conditions.pdb_blocking
        + bit r.conditions.high_cpu_pressure
        + bit r.conditions.high_memory_pressure
        + bit r.conditions.severely_unstable
        + count_if addon_blocks r.addons
        + count_if is_lost (nodes_of r.graph)
unfolding collect_blockers
length-collect_blockers r =
    simp (length-append, length-map, length-select, length-when) (omega arith)
