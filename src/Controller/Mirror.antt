-- ===== src/Controller/Mirror.antt =====
-- internal/controller/clustermirror_controller.go and api/v1/clustermirror_types.go: the mirror of
-- a cluster and what its report and its status show.
pub mod Rebuild
pub mod Faithful
pub mod Readback
use mirops.Prelude.{
  ℕ, ◌*◌, String, ◌<>◌, Bool, true, false, ◌||◌, Option, none, some, List, [], map, ltb, ◌==◌,
  if◌then◌else◌, Result, ok, err,
}
use mirops.Prelude.Int.{ℤ, pos, negsuc}
use mirops.Prelude.Maps.{Map}
use mirops.Prelude.Sort.{str_lt, sort_by}
use mirops.Cluster.{ClusterSnapshot}
use mirops.Collector.Walk.{Scope}
use mirops.Graph.Risk.{NamespaceRisk}
use mirops.Analysis.Mirror.{MirrorReport, MirrorUpgrade, UpgradeAnalysisSummary}
use mirops.Controller.Reports.{
  SourceConfig, Exporter, local_report_name, source_type_s3, source_type_blob, report_state_written,
  report_state_failed,
}
use mirops.Controller.Upgrade.Reconcile.{UpgradeAnalysis}

pub record ClusterMirrorSpec : Type 0 where
  pub scope : Scope
  pub refresh_interval : ℤ
  pub source : SourceConfig

pub record NamespaceMirrorStatus : Type 0 where
  pub namespace : String
  pub max_risk : ℕ
  pub at_risk : ℕ

pub record ClusterMirrorStatus : Type 0 where
  pub components : ℕ
  pub edges : ℕ
  pub at_risk : ℕ
  pub last_sync : Option ℕ
  pub by_namespace : List NamespaceMirrorStatus
  pub sync_error : String
  pub report_location : String
  pub report_state : String
  pub report_error : String
  pub observed_generation : ℕ

pub record ClusterMirror : Type 0 where
  pub name : String
  pub generation : ℕ
  pub spec : ClusterMirrorSpec
  pub status : ClusterMirrorStatus

-- What the reconciler uses: the client, the clock, the collector and the exporters' transfers.
pub record MirrorServices : Type 1 where
  pub State : Type 0
  pub now : State → ℕ × State
  pub get_mirror : String → State → Result (Option ClusterMirror) × State
  pub update_mirror : ClusterMirror → State → Option String × State
  pub list_analyses : State → Result (List UpgradeAnalysis) × State
  pub collect : Scope → State → Result ClusterSnapshot × State
  pub get_secret : String → State → Result (Map String) × State
  pub export : Exporter → MirrorReport → State → Option String × State
  pub rfc3339 : ℕ → String
  pub reports_dir : String
  pub upgrade_enabled : Bool

-- Five minutes, in nanoseconds.
abbrev pub default_mirror_interval : ℕ
default_mirror_interval = 300 * 1000000000

unfoldable pub interval_of : ℤ → ℕ
interval_of (pos n) = if ltb 0 n then n else default_mirror_interval
interval_of (negsuc n) = default_mirror_interval

abbrev pub mirror_scope : ClusterMirrorSpec → Scope
mirror_scope spec = record spec.scope {
  mode = if spec.scope.mode == "" then "all" else spec.scope.mode;
}

abbrev time_text : (ℕ → String) → Option ℕ → String
time_text format none = ""
time_text format (some t) = format t

-- Only the location of object storage can be read from outside the cluster.
unfoldable pub analysis_summary : (ℕ → String) → UpgradeAnalysis → UpgradeAnalysisSummary
unfolding local_report_name
analysis_summary format ua =
    let type = ua.spec.source.type in
    record {
      name = ua.name;
      target_version = ua.spec.target_version;
      decision = ua.status.decision;
      score = ua.status.total_score;
      last_analysis_time = time_text format ua.status.last_analysis_time;
      report = local_report_name ua.name ua.spec.source;
      location =
          if (type == source_type_s3) || (type == source_type_blob)
          then ua.status.report_location
          else "";
    }

abbrev by_name : UpgradeAnalysis → UpgradeAnalysis → Bool
by_name a b = str_lt a.name b.name

abbrev pub summary_of : (ℕ → String) → Result (List UpgradeAnalysis) → MirrorUpgrade
summary_of format (err e) = record {
  enabled = true;
  analyses = [];
  error = "could not list upgrade analyses: " <> e;
}
summary_of format (ok items) = record {
  enabled = true;
  analyses = map (analysis_summary format) (sort_by by_name items);
  error = "";
}

abbrev pub namespace_status : NamespaceRisk → NamespaceMirrorStatus
namespace_status nr = record { namespace = nr.namespace; max_risk = nr.risk; at_risk = nr.at_risk }

abbrev pub synced : ClusterMirror → MirrorReport → List NamespaceRisk → ℕ → ClusterMirror
synced cm report ns_risk at = record cm {
  status = record cm.status {
    components = report.summary.components;
    edges = report.summary.edges;
    at_risk = report.summary.at_risk;
    by_namespace = map namespace_status ns_risk;
    last_sync = some at;
    sync_error = "";
    observed_generation = cm.generation;
  };
}

-- The outcome of publishing the report: its location, and an error if there was one.
abbrev pub published : ClusterMirror → String × Option String → ClusterMirror
published cm (place, none) = record cm {
  status = record cm.status {
    report_location = place;
    report_state = report_state_written;
    report_error = "";
  };
}
published cm (place, some e) = record cm {
  status = record cm.status {
    report_location = place;
    report_state = report_state_failed;
    report_error = e;
    sync_error = "mirror rebuilt but its report could not be written: " <> e;
  };
}
