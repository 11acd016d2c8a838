-- ===== src/Analysis/Mirror.antt =====
-- internal/analysis/mirror_report.go: the report on the current state of the cluster.
pub mod Summary
use mathlib.Core.List.{foldl}
use mirops.Prelude.{
  ℕ, ◌+◌, String, Bool, false, Option, some, List, [], map, ltb, length, if◌then◌else◌, ◌>>=◌,
}
use mirops.Prelude.Maps.{empty}
use mirops.Cluster.{DetectedAddon, ClusterSnapshot}
use mirops.Graph.{Graph}
use mirops.Graph.Risk.{NamespaceRisk}
use mirops.Graph.AtRisk.{AtRiskComponent, at_risk}
use mirops.Analysis.{PodMetrics, RiskBreakdown, ReportWorkloads, report_kind_cluster_mirror}
use mirops.Analysis.Score.{build_metrics}
use mirops.Analysis.Issues.{state_issues}
use mirops.Analysis.Workloads.{state_workloads}

pub record UpgradeAnalysisSummary : Type 0 where
  pub name : String
  pub target_version : String
  pub decision : String
  pub score : ℕ
  pub last_analysis_time : String
  pub report : String
  pub location : String

pub record MirrorUpgrade : Type 0 where
  pub enabled : Bool
  pub analyses : List UpgradeAnalysisSummary
  pub error : String

pub record MirrorSummary : Type 0 where
  pub components : ℕ
  pub edges : ℕ
  pub at_risk : ℕ
  pub namespaces : ℕ
  pub namespaces_at_risk : ℕ

pub record MirrorAddon : Type 0 where
  pub name : String
  pub namespace : String
  pub version : String

pub record MirrorReport : Type 0 where
  pub kind : String
  pub generated_at : String
  pub mirror : String
  pub cluster_version : String
  pub upgrade : MirrorUpgrade
  pub summary : MirrorSummary
  pub pods : PodMetrics
  pub at_risk : List AtRiskComponent
  pub risk : Option RiskBreakdown
  pub addons : List MirrorAddon
  pub workloads : ReportWorkloads
  pub issues : List String
  pub graph : Option Graph

abbrev pub add_namespace : MirrorSummary → NamespaceRisk → MirrorSummary
add_namespace s nr = record s {
  at_risk = s.at_risk + nr.at_risk;
  namespaces_at_risk = if ltb 0 nr.at_risk then s.namespaces_at_risk + 1 else s.namespaces_at_risk;
}

unfoldable pub summarize : Graph → List NamespaceRisk → MirrorSummary
summarize g ns_risk =
    foldl add_namespace
      (record {
        components = length g.nodes;
        edges = length g.edges;
        at_risk = 0;
        namespaces = length ns_risk;
        namespaces_at_risk = 0;
      })
      ns_risk

abbrev mirror_addon : DetectedAddon → MirrorAddon
mirror_addon a = record { name = a.name; namespace = a.namespace; version = a.version }

-- The report with the components at risk that the graph lists.
abbrev pub mirror_report :
    ClusterSnapshot → Graph → List NamespaceRisk → List AtRiskComponent → MirrorReport
mirror_report snap g ns_risk components = record {
  kind = report_kind_cluster_mirror;
  generated_at = "";
  mirror = "";
  cluster_version = snap.cluster_version;
  upgrade = record { enabled = false; analyses = []; error = "" };
  summary = summarize g ns_risk;
  pods = (build_metrics snap).pods;
  at_risk = components;
  risk = some (record { by_namespace = ns_risk });
  addons = map mirror_addon snap.detected_addons;
  workloads = state_workloads snap;
  issues = state_issues snap;
  graph = some g;
}

-- The graph's queries run on fuel; `none` means that it ran out.
unfoldable pub build_mirror_report :
    ClusterSnapshot → Graph → List NamespaceRisk → Option MirrorReport
unfolding summarize build_metrics state_workloads state_issues at_risk
build_mirror_report snap g ns_risk = do
  components ← at_risk g empty
  some (mirror_report snap g ns_risk components)
