-- ===== src/Analysis/Gate/Pipeline.antt =====
-- What `Calculate` and `ApplyAIScore` leave for the final decision.
use mirops.Prelude.{ℕ, ◌+◌, ◌*◌, ◌≤◌, ◌≡◌, refl, String, not, arith}
use mirops.Cluster.{ClusterSnapshot}
use mirops.Analysis.{Report}
use mirops.Analysis.Profile.{profile_for}
use mirops.Analysis.Score.{build_metrics}
use mirops.Analysis.Score.Budget.{calc-le}
use mirops.Analysis.Calculate.{blocked, calculate, apply_ai_score}
use mirops.Analysis.Calculate.Decide.{decide_lem}
use mirops.Analysis.Calculate.Blend.{base_contribution-bounds, ai_contribution-bounds}
use mirops.Analysis.Gate.Exact.{FollowsConditions}

pub calculate-FollowsConditions :
    (snap : ClusterSnapshot) (target_version profile_name : String)
    → FollowsConditions (calculate snap target_version profile_name)
unfolding FollowsConditions calculate
calculate-FollowsConditions snap target_version profile_name =
    let r = calculate snap target_version profile_name in
    let (allow, critical, safe) =
      decide_lem r.scores.total r.conditions (profile_for profile_name) in
    (allow, critical)

pub apply_ai_score-FollowsConditions :
    (r : Report) (ai_score : ℕ) (reasoning model profile_name : String)
    → FollowsConditions (apply_ai_score r ai_score reasoning model profile_name)
unfolding FollowsConditions apply_ai_score
apply_ai_score-FollowsConditions r ai_score reasoning model profile_name =
    let (allow, critical, safe) =
      decide_lem (apply_ai_score r ai_score reasoning model profile_name).scores.total r.conditions
        (profile_for profile_name) in
    (allow, critical)

-- The report of `calculate` carries the sum of four dimensions, each within its budget of 25, 30,
-- 20 and 25, so the total is at most 100; it refuses the upgrade exactly if a blocking condition
-- holds.
pub calculate_lem :
    (snap : ClusterSnapshot) (target_version profile_name : String)
    → let r = calculate snap target_version profile_name in
      (r.scores.total
        ≡ r.scores.base.health + r.scores.base.capacity + r.scores.base.stability
          + r.scores.base.compatibility)
      × (r.scores.base.health ≤ 25)
      × (r.scores.base.capacity ≤ 30)
      × (r.scores.base.stability ≤ 20)
      × (r.scores.base.compatibility ≤ 25)
      × (r.scores.total ≤ 100)
      × (r.decision.allow ≡ not (blocked r.conditions))
unfolding calculate
calculate_lem snap target_version profile_name =
    let (h, c, s, k, t) = calc-le (build_metrics snap) in
    let r = calculate snap target_version profile_name in
    let d = decide_lem r.scores.total r.conditions (profile_for profile_name) in
    (refl, h, c, s, k, t, d.0)

-- For a base score and a model's score up to 100, the blended total is the sum of the two recorded
-- contributions and at most 100, and it is at most two points below seven tenths of the one plus
-- three tenths of the other, and never above it. The model's score changes no condition and does
-- not decide whether the upgrade is allowed.
pub apply_ai_score_lem :
    (r : Report) (ai_score : ℕ) (reasoning model profile_name : String)
    → r.scores.base.score ≤ 100
    → ai_score ≤ 100
    → let b = apply_ai_score r ai_score reasoning model profile_name in
      (b.scores.total ≡ b.scores.base.contribution + b.scores.ai.contribution)
      × (b.scores.total ≤ 100)
      × (10 * b.scores.total ≤ 7 * r.scores.base.score + 3 * ai_score)
      × (7 * r.scores.base.score + 3 * ai_score ≤ 10 * b.scores.total + 20)
      × (b.conditions ≡ r.conditions)
      × (b.decision.allow ≡ not (blocked r.conditions))
unfolding apply_ai_score
apply_ai_score_lem r ai_score reasoning model profile_name hb ha =
    let (b_low, b_high) = base_contribution-bounds r.scores.base.score hb in
    let (a_low, a_high) = ai_contribution-bounds ai_score ha in
    let b = apply_ai_score r ai_score reasoning model profile_name in
    let d = decide_lem b.scores.total r.conditions (profile_for profile_name) in
    (refl, omega arith, omega arith, omega arith, refl, d.0)
