-- ===== src/Controller/Upgrade/Verdict.antt =====
-- The published report as a whole.
use mathlib.Core.Path.{subst}
use mirops.Prelude.{◌≡◌, ◌↔◌, refl, String, true, false, Option, none, some, []}
use mirops.Cluster.{ClusterSnapshot}
use mirops.Graph.Build.{build_from_snapshot}
use mirops.Graph.Risk.{aggregate_by_namespace}
use mirops.Graph.Risk.Apply.{apply_risk-returns}
use mirops.Compat.{Matrix, Semver, evaluate}
use mirops.Compat.Version.{parse_semver}
use mirops.Analysis.{Report}
use mirops.Analysis.Calculate.{level_critical, calculate, apply_ai_score}
use mirops.Analysis.Gate.{apply_graph_decision}
use mirops.Analysis.Gate.Levels.{
  IsLevel, calculate-IsLevel, apply_ai_score-IsLevel, apply_graph_decision-IsLevel,
}
use mirops.Analysis.Gate.Exact.{FollowsConditions, HasBlocker, apply_graph_decision_lem}
use mirops.Analysis.Gate.Pipeline.{calculate-FollowsConditions, apply_ai_score-FollowsConditions}
use mirops.Controller.Upgrade.Impact.{upgrade_impact-lists}
use mirops.Controller.Upgrade.{AiAnswer, addon_statuses, attach, blend, base_report, analyze}

module _ (V : Semver) (name generated_at : String) (snapshot : ClusterSnapshot)
    (target_version profile_name : String) (matrix : Matrix) where
  pub base_report-returns :
      (r : Report) × (base_report V name generated_at snapshot target_version profile_name matrix
        ≡ some r)
      × FollowsConditions r
      × IsLevel r.decision.level
  unfolding base_report FollowsConditions
  base_report-returns =
      let ev = evaluate V (parse_semver V) snapshot.detected_addons target_version matrix in
      let snap : ClusterSnapshot = record snapshot { addon_issues = ev.1 } in
      let (ns, scored, scores) =
        apply_risk-returns (build_from_snapshot snap) (addon_statuses ev.0) in
      let (impact, found, keys, radii) =
        upgrade_impact-lists ev.0 (record (build_from_snapshot snap) { nodes = ns }) in
      (
        attach (calculate snap target_version profile_name) name generated_at ev.0
            (record (build_from_snapshot snap) { nodes = ns }) (aggregate_by_namespace ns) impact,
        rw (scored, found) refl,
        calculate-FollowsConditions snap target_version profile_name,
        calculate-IsLevel snap target_version profile_name,
      )

  blend-FollowsConditions :
      (answer : Option AiAnswer) (r : Report)
      → FollowsConditions r
      → FollowsConditions (blend answer profile_name r)
  blend-FollowsConditions none r h = h
  blend-FollowsConditions (some a) r h =
      apply_ai_score-FollowsConditions r a.score a.reasoning a.model profile_name

  blend-HasBlocker :
      (answer : Option AiAnswer) (r : Report)
      → HasBlocker (blend answer profile_name r) ≡ HasBlocker r
  unfolding apply_ai_score HasBlocker
  blend-HasBlocker none r = refl
  blend-HasBlocker (some a) r = refl

  -- Every analysis ends with a report, whatever the snapshot, the compatibility matrix and the
  -- answer of the language model. The upgrade is refused, with level CRITICAL and a blocker named,
  -- exactly if a blocking condition holds, an add-on is incompatible with the target or a volume
  -- claim is lost in the report as it was before the model was asked: the model's answer cannot
  -- change that.
  pub analyze-decides :
      (ask : Report → Option AiAnswer)
      → (before r : Report) × (base_report V name generated_at snapshot target_version profile_name
            matrix
          ≡ some before)
        × (analyze V ask name generated_at snapshot target_version profile_name matrix ≡ some r)
        × (r.decision.allow ≡ false ↔ HasBlocker before)
        × (r.decision.level ≡ level_critical ↔ HasBlocker before)
        × (r.decision.blockers ≡ [] ↔ r.decision.allow ≡ true)
  unfolding analyze
  analyze-decides ask =
      let (before, e, follows, known) = base_report-returns in
      let blended = blend (ask before) profile_name before in
      let (allow, level, cleared, scores) =
        apply_graph_decision_lem blended (blend-FollowsConditions (ask before) before follows) in
      (
        before,
        apply_graph_decision blended,
        e,
        rw (e) refl,
        rw (← blend-HasBlocker (ask before) before) allow,
        rw (← blend-HasBlocker (ask before) before) level,
        cleared,
      )

  blend-IsLevel :
      (answer : Option AiAnswer) (r : Report)
      → IsLevel r.decision.level
      → IsLevel (blend answer profile_name r).decision.level
  blend-IsLevel none r h = h
  blend-IsLevel (some a) r h = apply_ai_score-IsLevel r a.score a.reasoning a.model profile_name

  pub analyze-IsLevel :
      (ask : Report → Option AiAnswer) (r : Report)
      → analyze V ask name generated_at snapshot target_version profile_name matrix ≡ some r
      → IsLevel r.decision.level
  unfolding analyze
  analyze-IsLevel ask r e =
      let (before, made, follows, known) = base_report-returns in
      let final = apply_graph_decision (blend (ask before) profile_name before) in
      let analyzed : some final ≡ some r = rw (made) at e in
      let same : final ≡ r = cc in
      subst (λ q. IsLevel q.decision.level) same
        (apply_graph_decision-IsLevel (blend (ask before) profile_name before)
          (blend-IsLevel (ask before) before known))
