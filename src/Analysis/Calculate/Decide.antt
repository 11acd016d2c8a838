-- ===== src/Analysis/Calculate/Decide.antt =====
-- The decision as a function of the score and the conditions.
use mirops.Prelude.{ℕ, ◌≤◌, ◌≡◌, ◌↔◌, ◌≢◌, true, false, not, arith}
use mirops.Analysis.{Conditions}
use mirops.Analysis.Profile.{ScoringProfile}
use mirops.Analysis.Calculate.{level_safe, level_warning, level_critical, blocked, decide}

pub safe-ne-critical : level_safe ≢ level_critical
safe-ne-critical e = cc

pub warning-ne-critical : level_warning ≢ level_critical
warning-ne-critical e = cc

warning-ne-safe : level_warning ≢ level_safe
warning-ne-safe e = cc

-- `decide` allows an upgrade exactly if no blocking condition holds, its level is CRITICAL
-- exactly if one holds, and it is SAFE exactly if none holds, the cluster is not unstable and the
-- total reaches the profile's threshold.
pub decide_lem :
    (total : ℕ) (c : Conditions) (p : ScoringProfile)
    → ((decide total c p).1 ≡ not (blocked c))
      × ((decide total c p).0 ≡ level_critical ↔ blocked c ≡ true)
      × ((decide total c p).0 ≡ level_safe
          ↔ ((blocked c ≡ false) × (c.unstable_cluster ≡ false) × (p.safe_threshold ≤ total)))
unfolding decide
decide_lem total c p = ground (arith, safe-ne-critical, warning-ne-critical, warning-ne-safe)
