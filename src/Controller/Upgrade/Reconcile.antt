-- ===== src/Controller/Upgrade/Reconcile.antt =====
-- internal/controller/upgradeanalysis_controller.go, `Reconcile`, and the fields of
-- api/v1/upgradeanalysis_types.go that it reads and writes.
pub mod Steps
pub mod Returns
pub mod Decides
pub mod Settles
pub mod Rests
use mirops.Prelude.{
  ℕ, ◌+◌, ◌-◌, ◌≡◌, String, ◌<>◌, Bool, true, false, not, ◌&&◌, ◌||◌, Option, none, some, List, [],
  ◌∷◌, ltb, length, eqb, ◌==◌, if◌then◌else◌, Result, ok, err,
}
use mirops.Prelude.Int.{ℤ, pos, negsuc, ltb_ℤ}
use mirops.Prelude.Maps.{Map, get_or}
use mirops.Cluster.{ClusterSnapshot}
use mirops.Collector.Walk.{Scope}
use mirops.Compat.{Matrix, Semver, load_matrix, evaluate}
use mirops.Compat.Version.{parse_semver}
use mirops.Analysis.{Report}
use mirops.Analysis.Calculate.{apply_ai_score}
use mirops.Analysis.Gate.{apply_graph_decision}
use mirops.Controller.{Outcome, done, failed, ◌>>=◌, return}
use mirops.Controller.Paths.{join}
use mirops.Controller.Reports.{
  SourceConfig, Exporter, is_remote, local_report_name, new_file_exporter, location, build_exporter,
  report_state_written, report_state_failed,
}
use mirops.Controller.Remediation.{Client, AiAction}
use mirops.Controller.Remediation.Proposals.{create_remediation_plan}
use mirops.Controller.Ai.Answers.{AiScoreResponse, AiResult}
use mirops.Controller.Ai.Errors.{ApiError, classify_ai_error}
use mirops.Controller.Ai.Scoring.{
  AiSettings, AiServices, AiCache, Question, provider_openai, score_with_ai,
}
use mirops.Controller.Upgrade.{AiAnswer, major_minor, same, version_is_higher, blend, base_report}

-- The interval is in nanoseconds, and may be negative.
pub record UpgradeSpec : Type 0 where
  pub target_version : String
  pub scoring_profile : String
  pub scope : Scope
  pub source : SourceConfig
  pub ai_enabled : Bool
  pub ai : AiSettings
  pub max_risk_level : String
  pub auto_approve : Bool
  pub resync_interval : ℤ

pub record UpgradeStatus : Type 0 where
  pub decision : String
  pub total_score : ℕ
  pub reason : String
  pub last_analysis_time : Option ℕ
  pub last_refresh : String
  pub observed_generation : ℕ
  pub report_path : String
  pub report_state : String
  pub report_error : String
  pub report_location : String
  pub ai_score : ℕ
  pub ai_reasoning : String
  pub ai_model : String
  pub ai_error : String
  pub addons_checked : ℕ
  pub incompatible_addons : ℕ
  pub last_total_pods : ℕ
  pub last_total_restarts : ℕ

pub record UpgradeAnalysis : Type 0 where
  pub name : String
  pub generation : ℕ
  pub annotations : Map String
  pub spec : UpgradeSpec
  pub status : UpgradeStatus

-- What the reconciler uses: the client, the collector, the exporters' transfers, the providers of
-- language models and the packages for versions, hashes, JSON and YAML. Without an analysis of that
-- name `get_analysis` gives `ok none`.
pub record Services : Type 1 where
  pub client : Client
  pub get_analysis : String → client.State → Result (Option UpgradeAnalysis) × client.State
  pub update_analysis : UpgradeAnalysis → client.State → Option String × client.State
  pub collect : Scope → client.State → Result ClusterSnapshot × client.State
  pub get_config_map : String → client.State → Result (Map String) × client.State
  pub get_secret : String → client.State → Result (Map String) × client.State
  pub export : Exporter → Report → client.State → Option String × client.State
  pub anthropic : Question → client.State → Result (List String) × client.State
  pub openai : Question → client.State → Result (List String) × client.State
  pub hash : String → String
  pub unmarshal : String → Result AiScoreResponse
  pub unmarshal_error : String → Option String
  pub as_api_error : String → String → Option ApiError
  pub unmarshal_matrix : String → Option Matrix
  pub built_in : Matrix
  pub semver : Semver
  pub rfc3339 : ℕ → String
  pub reports_dir : String

abbrev pub refresh_annotation : String
refresh_annotation = "mirops.io/refresh"

abbrev pub compat_matrix_config_map : String
compat_matrix_config_map = "mirops-compatibility-matrix"

abbrev pub is_current : UpgradeAnalysis → Bool
is_current ua =
    eqb ua.generation ua.status.observed_generation
    && (get_or ua.annotations refresh_annotation "" == ua.status.last_refresh)

-- When the next round is due, if the analysis is one that waits for it: with this interval, this
-- last time and this currency.
abbrev pub due : ℤ → Option ℕ → Bool → Option ℕ
due (negsuc n) last current = none
due (pos n) none current = none
due (pos n) (some t) current = if ltb 0 n && current then some (t + n) else none

unfoldable pub next_round : UpgradeAnalysis → Option ℕ
next_round ua = due ua.spec.resync_interval ua.status.last_analysis_time (is_current ua)

-- A duration that is not positive asks for no further round.
abbrev pub wait : ℤ → Outcome
wait (pos n) = record { requeue_after = if ltb 0 n then some n else none; error = none }
wait (negsuc n) = done

abbrev pub scope_of : UpgradeSpec → Scope
scope_of spec = record spec.scope {
  mode = if spec.scope.mode == "" then "all" else spec.scope.mode;
}

abbrev pub with_previous : UpgradeStatus → ClusterSnapshot → ClusterSnapshot
with_previous status snap = record snap {
  previous_total_pods = status.last_total_pods;
  previous_restarts = status.last_total_restarts;
}

-- Why a target version is refused.
unfoldable pub version_reason : String → String → String
unfolding major_minor
version_reason target current =
    let (t_maj, t_min) = major_minor target in
    let (c_maj, c_min) = major_minor current in
    if same t_maj c_maj && same t_min c_min
    then "cluster is already running version "
      <> (current <> " — targetVersion must be higher than the current version")
    else "targetVersion "
      <> (target
          <> (" is lower than current cluster version "
              <> (current <> " — downgrades are not supported")))

abbrev pub rejected : UpgradeAnalysis → ClusterSnapshot → ℕ → UpgradeAnalysis
rejected ua snap at = record ua {
  status = record ua.status {
    decision = "ERROR";
    reason = version_reason ua.spec.target_version snap.cluster_version;
    last_analysis_time = some at;
  };
}

abbrev pub model_name : AiSettings → String
model_name a =
    if a.model == ""
    then if a.provider == provider_openai then "gpt-4o" else "claude-sonnet-4-6"
    else a.model

abbrev pub outcome_of : Outcome → Option String → Outcome
outcome_of o none = o
outcome_of o (some e) = failed e

-- The outcome of writing the report.
abbrev pub recorded : UpgradeStatus → Option String → UpgradeStatus
recorded status none = record status { report_state = report_state_written; report_error = "" }
recorded status (some e) = record status { report_state = report_state_failed; report_error = e }

-- The status after an analysis at this time.
abbrev pub concluded : UpgradeAnalysis → Report → ClusterSnapshot → ℕ → UpgradeAnalysis
concluded ua report snap at = record ua {
  status = record ua.status {
    decision = report.decision.level;
    total_score = report.scores.total;
    ai_score = report.scores.ai.score;
    ai_reasoning = report.ai_reasoning;
    reason = report.reason;
    last_analysis_time = some at;
    last_refresh = get_or ua.annotations refresh_annotation "";
    observed_generation = ua.generation;
    last_total_pods = snap.total_pods;
    last_total_restarts = snap.total_restarts;
  };
}
