-- ===== src/Analysis.antt =====
-- internal/analysis/report.go: the upgrade report and its parts. The children score a snapshot,
-- take the decision and write the reports.
pub mod Profile
pub mod Score
pub mod Issues
pub mod Reason
pub mod Workloads
pub mod Calculate
pub mod Gate
pub mod Mirror
use mirops.Prelude.{ℕ, String, Bool, Option, List}
use mirops.Prelude.Int.{ℤ}
use mirops.Float64.{Float64}
use mirops.Compat.{AddonCompatibility}
use mirops.Graph.{Graph}
use mirops.Graph.Risk.{NamespaceRisk}

abbrev pub report_kind_upgrade_analysis : String
report_kind_upgrade_analysis = "UpgradeAnalysis"

abbrev pub report_kind_cluster_mirror : String
report_kind_cluster_mirror = "ClusterMirror"

pub record NodeReport : Type 0 where
  pub name : String
  pub status : String
  pub conditions : List String

pub record WorkloadPodReport : Type 0 where
  pub name : String
  pub reason : String
  pub restarts : ℕ

pub record DeploymentReport : Type 0 where
  pub namespace : String
  pub name : String
  pub ready_replicas : ℕ
  pub desired_replicas : ℕ
  pub pods : List WorkloadPodReport

pub record StatefulSetReport : Type 0 where
  pub namespace : String
  pub name : String
  pub ready_replicas : ℕ
  pub desired_replicas : ℕ
  pub pods : List WorkloadPodReport

pub record DaemonSetReport : Type 0 where
  pub namespace : String
  pub name : String
  pub number_unavailable : ℕ
  pub pods : List WorkloadPodReport

pub record JobReport : Type 0 where
  pub namespace : String
  pub name : String
  pub active : ℕ
  pub status : String
  pub reason : String
  pub pods : List WorkloadPodReport

pub record PdbReport : Type 0 where
  pub namespace : String
  pub name : String

pub record PvcReport : Type 0 where
  pub namespace : String
  pub name : String
  pub storage_class : String
  pub phase : String

pub record BarePodReport : Type 0 where
  pub namespace : String
  pub name : String
  pub status : String

pub record DeprecatedApiReport : Type 0 where
  pub group : String
  pub version : String
  pub resource : String
  pub removed_in : String

pub record ReportWorkloads : Type 0 where
  pub nodes : List NodeReport
  pub deployments : List DeploymentReport
  pub stateful_sets : List StatefulSetReport
  pub daemon_sets : List DaemonSetReport
  pub jobs : List JobReport
  pub pdbs : List PdbReport
  pub pvcs : List PvcReport
  pub bare_pods : List BarePodReport
  pub deprecated_apis : List DeprecatedApiReport

-- The scores are clamped at 0, so they are natural numbers.
pub record BaseScores : Type 0 where
  pub score : ℕ
  pub weight : String
  pub contribution : ℕ
  pub health : ℕ
  pub capacity : ℕ
  pub stability : ℕ
  pub compatibility : ℕ

pub record AiScores : Type 0 where
  pub score : ℕ
  pub weight : String
  pub contribution : ℕ
  pub model : String

pub record Scores : Type 0 where
  pub total : ℕ
  pub base : BaseScores
  pub ai : AiScores

pub record PodMetrics : Type 0 where
  pub total : ℕ
  pub not_ready : ℕ
  pub restarts : ℕ
  pub restarting : ℕ

pub record ResourceMetrics : Type 0 where
  pub cpu_pressure : Float64
  pub memory_pressure : Float64

pub record StabilityMetrics : Type 0 where
  pub pod_drop_ratio : Float64
  pub restart_delta : ℤ

pub record CompatibilityMetrics : Type 0 where
  pub deprecated_apis : ℕ
  pub addon_issues : ℕ

pub record Metrics : Type 0 where
  pub pods : PodMetrics
  pub resources : ResourceMetrics
  pub stability : StabilityMetrics
  pub compatibility : CompatibilityMetrics

pub record Conditions : Type 0 where
  pub pdb_blocking : Bool
  pub high_cpu_pressure : Bool
  pub high_memory_pressure : Bool
  pub unstable_cluster : Bool
  pub severely_unstable : Bool

pub record Decision : Type 0 where
  pub allow : Bool
  pub level : String
  pub blockers : List String

pub record AddonImpact : Type 0 where
  pub addon : String
  pub version : String
  pub required_version : String
  pub affected : List String

pub record RiskBreakdown : Type 0 where
  pub by_namespace : List NamespaceRisk

pub record Report : Type 0 where
  pub kind : String
  pub generated_at : String
  pub cluster : String
  pub cluster_version : String
  pub target_version : String
  pub decision : Decision
  pub reason : String
  pub ai_reasoning : String
  pub scores : Scores
  pub conditions : Conditions
  pub metrics : Metrics
  pub workloads : ReportWorkloads
  pub issues : List String
  pub addons : List AddonCompatibility
  pub graph : Option Graph
  pub risk : Option RiskBreakdown
  pub upgrade_impact : List AddonImpact
