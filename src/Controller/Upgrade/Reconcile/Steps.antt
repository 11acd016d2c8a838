-- ===== src/Controller/Upgrade/Reconcile/Steps.antt =====
-- internal/controller/upgradeanalysis_controller.go: the requests of `Reconcile`, in their order,
-- and `loadCompatMatrix`.
use mirops.Prelude.{
  ℕ, String, Option, none, some, List, [], ◌∷◌, ltb, length, if◌then◌else◌, Result, ok, err,
}
use mirops.Prelude.Int.{sub_ℕ}
use mirops.Prelude.Maps.{Map, get_or}
use mirops.Cluster.{ClusterSnapshot}
use mirops.Compat.{Matrix, load_matrix, evaluate}
use mirops.Compat.Version.{parse_semver}
use mirops.Analysis.{Report}
use mirops.Analysis.Gate.{apply_graph_decision}
use mirops.Controller.{Outcome, done, failed, ◌>>=◌, return}
use mirops.Controller.Paths.{join}
use mirops.Controller.Reports.{
  Exporter, is_remote, local_report_name, new_file_exporter, location, build_exporter,
}
use mirops.Controller.Remediation.{AiAction}
use mirops.Controller.Remediation.Proposals.{create_remediation_plan}
use mirops.Controller.Ai.Answers.{AiResult}
use mirops.Controller.Ai.Errors.{classify_ai_error}
use mirops.Controller.Ai.Scoring.{AiServices, AiCache, score_with_ai}
use mirops.Controller.Upgrade.{AiAnswer, version_is_higher, blend, base_report}
use mirops.Controller.Upgrade.Reconcile.{
  UpgradeAnalysis, UpgradeStatus, Services, compat_matrix_config_map, next_round, wait, scope_of,
  with_previous, rejected, model_name, outcome_of, recorded, concluded,
}

module _ (S : Services) where
  abbrev pub State : Type 0
  State = S.client.State

  abbrev pub services : AiServices
  services = record {
    State = State;
    get_secret = S.get_secret;
    anthropic = S.anthropic;
    openai = S.openai;
    hash = S.hash;
    unmarshal = S.unmarshal;
  }

  -- Every error of the request is taken for a missing map, and a map that is no matrix for none.
  abbrev matrix_of : Result (Map String) → Matrix
  matrix_of (err e) = S.built_in
  matrix_of (ok data_of) =
      let (matrix, malformed) =
        load_matrix S.unmarshal_matrix S.built_in (get_or data_of "matrix.yaml" "") in
      if malformed then S.built_in else matrix

  unfoldable pub load_compat_matrix : State → Matrix × State
  load_compat_matrix = do
    found ← S.get_config_map compat_matrix_config_map
    return (matrix_of found)

  -- The report with the model's score, if there is one, and what the status says of it.
  abbrev pub answered : UpgradeAnalysis → Result AiResult → Option AiAnswer
  answered ua (err e) = none
  answered ua (ok r) =
      some (record { score = r.score; reasoning = r.reasoning; model = model_name ua.spec.ai })

  abbrev pub noted : UpgradeAnalysis → Result AiResult → UpgradeAnalysis
  noted ua (err e) = record ua {
    status = record ua.status {
      ai_error = classify_ai_error S.unmarshal_error S.as_api_error ua.spec.ai.provider e;
    };
  }
  noted ua (ok r) = record ua {
    status = record ua.status { ai_error = ""; ai_model = model_name ua.spec.ai };
  }

  abbrev actions_of : Result AiResult → List AiAction
  actions_of (err e) = []
  actions_of (ok r) = r.actions

  -- The error of the proposal is logged.
  unfoldable pub propose : UpgradeAnalysis → List AiAction → State → Option String × State
  propose ua [] = return none
  propose ua (a ∷ rest) =
      if ua.spec.ai.remediation
      then create_remediation_plan S.client ua.name ua.spec.max_risk_level ua.spec.auto_approve
          (a ∷ rest)
      else return none

  unfoldable pub consult :
      UpgradeAnalysis
      → Report
      → AiCache
      → State
      → (UpgradeAnalysis × Option AiAnswer × AiCache) × State
  consult ua report cache s =
      let ((result, cache'), t) = score_with_ai services ua.spec.ai ua.name report cache s in
      let (e, u) = propose (noted ua result) (actions_of result) t in
      if ua.spec.ai_enabled
      then ((noted ua result, answered ua result, cache'), u)
      else ((ua, none, cache), s)

  abbrev located : UpgradeStatus → String → String → UpgradeStatus
  located status path place = record status { report_path = path; report_location = place }

  abbrev export_remotely : UpgradeStatus → Report → Result Exporter → State → UpgradeStatus × State
  export_remotely status report (err e) = return (recorded (located status "" "") (some e))
  export_remotely status report (ok to) = do
    e ← S.export to report
    return (recorded (located status "" (location to)) e)

  unfoldable pub publish : UpgradeAnalysis → Report → State → UpgradeStatus × State
  publish ua report =
      let path = join S.reports_dir (local_report_name ua.name ua.spec.source) in
      if is_remote ua.spec.source
      then (do
        to ← build_exporter S.get_secret ua.name ua.spec.source
        export_remotely ua.status report to)
      else (do
        e ← S.export (new_file_exporter path) report
        return (recorded (located ua.status path path) e))

  -- From the report before the model is asked to the written status.
  unfoldable pub conclude :
      UpgradeAnalysis
      → AiCache
      → ClusterSnapshot
      → ℕ
      → Report
      → State
      → Option (Outcome × AiCache) × State
  conclude ua cache snap at report = do
    (ua', answer, cache') ← consult ua report cache
    let final = apply_graph_decision (blend answer ua.spec.scoring_profile report)
    status ← publish ua' final
    e ← S.update_analysis (concluded (record ua' { status = status }) final snap at)
    return (some (outcome_of (wait ua.spec.resync_interval) e, cache'))

  abbrev pub counted : UpgradeAnalysis → ClusterSnapshot → Matrix → UpgradeAnalysis
  counted ua snap matrix =
      let (results, incompatible) =
        evaluate S.semver (parse_semver S.semver) snap.detected_addons ua.spec.target_version
          matrix in
      record ua {
        status = record ua.status {
          addons_checked = length results;
          incompatible_addons = incompatible;
        };
      }

  -- `none` means that the queries of the graph ran out of fuel.
  abbrev pub conclude_if :
      UpgradeAnalysis
      → AiCache
      → ClusterSnapshot
      → ℕ
      → Option Report
      → State
      → Option (Outcome × AiCache) × State
  conclude_if ua cache snap at none = return none
  conclude_if ua cache snap at (some report) = conclude ua cache snap at report

  unfoldable pub assess :
      UpgradeAnalysis → AiCache → ClusterSnapshot → State → Option (Outcome × AiCache) × State
  assess ua cache snap = do
    matrix ← load_compat_matrix
    at ← S.client.now
    conclude_if (counted ua snap matrix) cache snap at (
        base_report S.semver ua.name (S.rfc3339 at) snap ua.spec.target_version
          ua.spec.scoring_profile matrix)

  unfoldable pub reject :
      UpgradeAnalysis → AiCache → ClusterSnapshot → State → Option (Outcome × AiCache) × State
  reject ua cache snap = do
    at ← S.client.now
    e ← S.update_analysis (rejected ua snap at)
    return (some (outcome_of done e, cache))

  abbrev pub after_collect :
      UpgradeAnalysis
      → AiCache
      → Result ClusterSnapshot
      → State
      → Option (Outcome × AiCache) × State
  after_collect ua cache (err e) = return (some (failed e, cache))
  after_collect ua cache (ok snap) =
      if version_is_higher ua.spec.target_version snap.cluster_version
      then assess ua cache (with_previous ua.status snap)
      else reject ua cache (with_previous ua.status snap)

  unfoldable pub round : UpgradeAnalysis → AiCache → State → Option (Outcome × AiCache) × State
  round ua cache = do found ← S.collect (scope_of ua.spec); after_collect ua cache found

  -- The clock is read a second time for the wait.
  unfoldable pub rest_or_round :
      UpgradeAnalysis → AiCache → ℕ → ℕ → State → Option (Outcome × AiCache) × State
  rest_or_round ua cache next at =
      if ltb at next
      then (do later ← S.client.now; return (some (wait (sub_ℕ next later), cache)))
      else round ua cache

  unfoldable pub visit : UpgradeAnalysis → AiCache → State → Option (Outcome × AiCache) × State
  visit ua cache = elim (next_round ua) [
    | none ↦ round ua cache
    | some next ↦ S.client.now >>= rest_or_round ua cache next
  ]

  abbrev pub after_get :
      AiCache → Result (Option UpgradeAnalysis) → State → Option (Outcome × AiCache) × State
  after_get cache (err e) = return (some (failed e, cache))
  after_get cache (ok none) = return (some (done, cache))
  after_get cache (ok (some ua)) = visit ua cache

  unfoldable pub reconcile : String → AiCache → State → Option (Outcome × AiCache) × State
  reconcile name cache = do found ← S.get_analysis name; after_get cache found
