-- ===== src/Analysis/Calculate.antt =====
-- internal/analysis/score.go: the decision on a score, the report of a snapshot and the blend with
-- the score of a language model.
pub mod Decide
pub mod Blend
use mirops.Prelude.{
  ℕ, ◌+◌, String, Bool, true, false, ◌||◌, Option, none, List, [], ltb, ◌==◌, if◌then◌else◌,
}
use mirops.Prelude.Int.{pos_part}
use mirops.Float64.{of_ℕ, of_ratio, ◌*F◌, truncate}
use mirops.Cluster.{ClusterSnapshot}
use mirops.Analysis.{
  Conditions, Decision, Report, Scores, BaseScores, AiScores, report_kind_upgrade_analysis,
}
use mirops.Analysis.Profile.{ScoringProfile, profile_for}
use mirops.Analysis.Score.{
  build_metrics, build_conditions, calc_health, calc_capacity, calc_stability, calc_compatibility,
}
use mirops.Analysis.Issues.{build_issues}
use mirops.Analysis.Reason.{build_reason}
use mirops.Analysis.Workloads.{build_workloads}

abbrev pub level_safe : String
level_safe = "SAFE"

abbrev pub level_warning : String
level_warning = "WARNING"

abbrev pub level_critical : String
level_critical = "CRITICAL"

-- The test of `decide` that stops an upgrade.
abbrev pub blocked : Conditions → Bool
blocked c =
    c.pdb_blocking || (c.high_cpu_pressure || (c.high_memory_pressure || c.severely_unstable))

unfoldable pub decide : ℕ → Conditions → ScoringProfile → String × Bool
decide total c p =
    if blocked c
    then (level_critical, false)
    else if c.unstable_cluster || ltb total p.safe_threshold
    then (level_warning, true)
    else (level_safe, true)

-- `Report` has the zero value of each field that is not set here.
unfoldable pub calculate : ClusterSnapshot → String → String → Report
unfolding build_metrics build_conditions calc_health calc_capacity calc_stability calc_compatibility
    decide build_issues build_reason build_workloads profile_for
calculate snap target_version profile_name =
    let profile = profile_for profile_name in
    let m = build_metrics snap in
    let c = build_conditions snap m profile in
    let total = calc_health m + calc_capacity m + calc_stability m + calc_compatibility m in
    let (level, allow) = decide total c profile in
    record {
      kind = report_kind_upgrade_analysis;
      generated_at = "";
      cluster = snap.cluster_name;
      cluster_version = snap.cluster_version;
      target_version = target_version;
      decision = record { allow = allow; level = level; blockers = [] };
      reason = build_reason level c m snap;
      ai_reasoning = "";
      scores = record {
        total = total;
        base = record {
          score = total;
          weight = "100%";
          contribution = total;
          health = calc_health m;
          capacity = calc_capacity m;
          stability = calc_stability m;
          compatibility = calc_compatibility m;
        };
        ai = record { score = 0; weight = ""; contribution = 0; model = "" };
      };
      conditions = c;
      metrics = m;
      workloads = build_workloads snap;
      issues = build_issues snap;
      addons = [];
      graph = none;
      risk = none;
      upgrade_impact = [];
    }

-- `int(float64(score) * weight)`
unfoldable pub base_contribution : ℕ → ℕ
unfolding of_ℕ of_ratio ◌*F◌ truncate
base_contribution score = pos_part (truncate (of_ℕ score *F of_ratio 7 10))

unfoldable pub ai_contribution : ℕ → ℕ
unfolding of_ℕ of_ratio ◌*F◌ truncate
ai_contribution score = pos_part (truncate (of_ℕ score *F of_ratio 3 10))

-- The score of the model is a natural number, since its parser admits 0 to 100 only.
unfoldable pub apply_ai_score : Report → ℕ → String → String → String → Report
unfolding base_contribution ai_contribution decide profile_for
apply_ai_score report ai_score reasoning model profile_name =
    let base = report.scores.base in
    let blended = base_contribution base.score + ai_contribution ai_score in
    let (level, allow) = decide blended report.conditions (profile_for profile_name) in
    record report {
      ai_reasoning = if reasoning == "" then report.ai_reasoning else reasoning;
      scores = record {
        total = blended;
        base = record base { weight = "70%"; contribution = base_contribution base.score };
        ai = record {
          score = ai_score;
          weight = "30%";
          contribution = ai_contribution ai_score;
          model = model;
        };
      };
      decision = record { level = level; allow = allow; blockers = report.decision.blockers };
    }
