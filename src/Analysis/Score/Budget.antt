-- ===== src/Analysis/Score/Budget.antt =====
-- The budgets of the four dimensions.
use mirops.Prelude.{ℕ, ◌+◌, ◌≤◌, arith}
use mirops.Prelude.Int.{ℤ, pos, negsuc}
use mirops.Analysis.{Metrics}
use mirops.Analysis.Score.{clamp, calc_health, calc_capacity, calc_stability, calc_compatibility}

pub clamp-le : (v : ℤ) (limit : ℕ) → clamp v limit ≤ limit
unfolding clamp
clamp-le (pos v) limit = ground arith
clamp-le (negsuc v) limit = omega arith

-- Whatever the metrics are, each dimension stays within its budget, and the sum within 100.
pub calc-le :
    (m : Metrics)
    → (calc_health m ≤ 25)
      × (calc_capacity m ≤ 30)
      × (calc_stability m ≤ 20)
      × (calc_compatibility m ≤ 25)
      × (calc_health m + calc_capacity m + calc_stability m + calc_compatibility m ≤ 100)
unfolding calc_health calc_capacity calc_stability calc_compatibility
calc-le m =
    let a : calc_health m ≤ 25 = search clamp-le in
    let b : calc_capacity m ≤ 30 = search clamp-le in
    let c : calc_stability m ≤ 20 = search clamp-le in
    let d : calc_compatibility m ≤ 25 = search clamp-le in (a, b, c, d, omega (arith, a, b, c, d))
