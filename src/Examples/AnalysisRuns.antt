-- ===== src/Examples/AnalysisRuns.antt =====
-- The theorems on the reports, applied to the small cluster.
use mirops.Prelude.{
  ◌+◌, ◌*◌, ◌≤◌, ◌≡◌, ◌↔◌, refl, true, false, not, some, String, In, [], ◌∷◌, arith, length, eqb,
  if◌then◌else◌, ◌/◌,
}
use mirops.Graph.Build.{build_from_snapshot}
use mirops.Compat.{incompatible}
use mirops.Analysis.{Report, Conditions}
use mirops.Float64.{of_ℕ}
use mirops.Analysis.Score.{
  build_metrics, calc_health, calc_capacity, calc_stability, calc_compatibility,
}
use mirops.Analysis.Calculate.{
  level_critical, blocked, calculate, apply_ai_score, base_contribution,
}
use mirops.Analysis.Calculate.Blend.{base_contribution_lem}
use mirops.Analysis.Issues.{build_issues, state_issues}
use mirops.Analysis.Issues.Problems.{Problem, StateProblem, build_issues_lem}
use mirops.Analysis.Gate.{apply_graph_decision}
use mirops.Analysis.Gate.Exact.{FollowsConditions, HasBlocker, apply_graph_decision_lem}
use mirops.Analysis.Gate.Pipeline.{calculate-FollowsConditions, calculate_lem, apply_ai_score_lem}
use mirops.Examples.{shop}

abbrev report : Report
report = calculate shop "1.30" "production"

-- 25 - 0.375 - 0.25, 30 - 7.5 - 2.8125, 20 - 0.25 - 1 - 0.5 and 25, each cut off.
shop_scores :
    (calc_health (build_metrics shop) ≡ 24)
    × (calc_capacity (build_metrics shop) ≡ 19)
    × (calc_stability (build_metrics shop) ≡ 18)
    × (calc_compatibility (build_metrics shop) ≡ 25)
unfolding build_metrics calc_health calc_capacity calc_stability calc_compatibility of_ℕ
shop_scores = (refl, refl, refl, refl)

calculate_example :
    (report.scores.total
      ≡ report.scores.base.health + report.scores.base.capacity + report.scores.base.stability
        + report.scores.base.compatibility)
    × (report.scores.base.health ≤ 25)
    × (report.scores.base.capacity ≤ 30)
    × (report.scores.base.stability ≤ 20)
    × (report.scores.base.compatibility ≤ 25)
    × (report.scores.total ≤ 100)
    × (report.decision.allow ≡ not (blocked report.conditions))
calculate_example = calculate_lem shop "1.30" "production"

base_contribution_example : base_contribution 90 ≡ (if eqb 90 90 then 62 else 7 * 90 / 10)
base_contribution_example = base_contribution_lem 90 (omega arith)

abbrev quiet : Conditions
quiet = record {
  pdb_blocking = false;
  high_cpu_pressure = false;
  high_memory_pressure = false;
  unstable_cluster = true;
  severely_unstable = false;
}

issues_example :
    ((l : String) → In l (build_issues shop) ↔ Problem shop l)
    × ((l : String) → In l (state_issues shop) ↔ StateProblem shop l)
    × (length (build_issues shop)
        ≡ length shop.pod_issues
          + length shop.node_issues
          + length shop.stateful_set_issues
          + length shop.daemon_set_issues
          + length shop.job_issues
          + length shop.pdb_issues
          + length shop.deprecated_api_list)
issues_example = build_issues_lem shop

-- The report with an add-on that the target breaks and with the graph.
abbrev attached : Report
attached = record report {
  addons =
      record {
        name = "cert-manager";
        version = "1.12.0";
        status = incompatible;
        required_version = ">=1.13.0";
        note = "";
      }
      ∷ [];
  graph = some (build_from_snapshot shop);
}

attached-FollowsConditions : FollowsConditions attached
unfolding FollowsConditions
attached-FollowsConditions = calculate-FollowsConditions shop "1.30" "production"

gate_example :
    ((apply_graph_decision attached).decision.allow ≡ false ↔ HasBlocker attached)
    × ((apply_graph_decision attached).decision.level ≡ level_critical ↔ HasBlocker attached)
    × ((apply_graph_decision attached).decision.blockers ≡ []
        ↔ (apply_graph_decision attached).decision.allow ≡ true)
    × ((apply_graph_decision attached).scores ≡ attached.scores)
gate_example = apply_graph_decision_lem attached attached-FollowsConditions

-- A report with a base score of 90, where the two roundings differ.
abbrev ninety : Report
ninety = record report {
  scores = record report.scores { base = record report.scores.base { score = 90 } };
}

blend_example :
    ((apply_ai_score ninety 80 "steady" "model" "production").scores.total
      ≡ (apply_ai_score ninety 80 "steady" "model" "production").scores.base.contribution
        + (apply_ai_score ninety 80 "steady" "model" "production").scores.ai.contribution)
    × ((apply_ai_score ninety 80 "steady" "model" "production").scores.total ≤ 100)
    × (10 * (apply_ai_score ninety 80 "steady" "model" "production").scores.total
        ≤ 7 * ninety.scores.base.score + 3 * 80)
    × (7 * ninety.scores.base.score + 3 * 80
        ≤ 10 * (apply_ai_score ninety 80 "steady" "model" "production").scores.total + 20)
    × ((apply_ai_score ninety 80 "steady" "model" "production").conditions ≡ ninety.conditions)
    × ((apply_ai_score ninety 80 "steady" "model" "production").decision.allow
        ≡ not (blocked ninety.conditions))
blend_example =
    apply_ai_score_lem ninety 80 "steady" "model" "production" (omega arith) (omega arith)
