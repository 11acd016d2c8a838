-- ===== src/Examples/ReconcileRuns.antt =====
-- The theorems on the reconciler of analyses, applied to a server that keeps one analysis and lists
-- the requests that it gets.
use mirops.Prelude.{
  ℕ, ◌+◌, ◌≡◌, refl, String, ◌<>◌, false, none, some, List, [], ◌∷◌, ◌++◌, ok, err, string_dec,
  arith,
}
use mirops.Prelude.Int.{pos}
use mirops.Prelude.Maps.{empty}
use mirops.Analysis.{Report}
use mirops.Analysis.Calculate.{calculate}
use mirops.Collector.Addons.Tags.{has}
use mirops.Controller.Remediation.{Client, not_found}
use mirops.Controller.Paths.{join}
use mirops.Controller.Reports.{SourceConfig, local_report_name, location, new_file_exporter}
use mirops.Controller.Reports.Names.{IsFileName, local_report_name-IsFileName}
use mirops.Controller.Ai.Scoring.{AiCache}
use mirops.Controller.Ai.Scoring.Bounded.{IsBounded}
use mirops.Controller.Upgrade.{version_is_higher}
use mirops.Controller.Upgrade.Reconcile.{
  UpgradeSpec, UpgradeStatus, UpgradeAnalysis, Services, concluded,
}
use mirops.Controller.Upgrade.Reconcile.Steps.{publish, round, reconcile}
use mirops.Controller.Upgrade.Reconcile.Returns.{Ends, reconcile-Ends}
use mirops.Controller.Upgrade.Reconcile.Rests.{reconcile-rests}
use mirops.Controller.Upgrade.Reconcile.Settles.{EndsRound, round-Ends}
use mirops.Examples.{shop}
use mirops.Examples.CompatRuns.{exact_versions, matrix}

abbrev source : SourceConfig
source = record {
  type = "file";
  path = "../secrets/report.json";
  bucket = "";
  region = "";
  key = "";
  account_name = "";
  container_name = "";
  blob_name = "";
  credentials_secret = "";
}

name_example : IsFileName (local_report_name "shop" source)
unfolding has
name_example = local_report_name-IsFileName "shop" source refl

abbrev to_1_30 : UpgradeSpec
to_1_30 = record {
  target_version = "1.30";
  scoring_profile = "production";
  scope = record { mode = ""; exclude_namespaces = [] };
  source = source;
  ai_enabled = false;
  ai = record {
    provider = "anthropic";
    model = "";
    max_tokens = pos 0;
    credentials_secret = "";
    remediation = false;
  };
  max_risk_level = "low";
  auto_approve = false;
  resync_interval = pos 900;
}

abbrev no_status : UpgradeStatus
no_status = record {
  decision = "";
  total_score = 0;
  reason = "";
  last_analysis_time = none;
  last_refresh = "";
  observed_generation = 0;
  report_path = "";
  report_state = "";
  report_error = "";
  report_location = "";
  ai_score = 0;
  ai_reasoning = "";
  ai_model = "";
  ai_error = "";
  addons_checked = 0;
  incompatible_addons = 0;
  last_total_pods = 0;
  last_total_restarts = 0;
}

abbrev analysis : UpgradeAnalysis
analysis = record {
  name = "shop";
  generation = 1;
  annotations = empty;
  spec = to_1_30;
  status = no_status;
}

record Server : Type 0 where
  stored : UpgradeAnalysis
  requests : List String
  clock : ℕ

abbrev note : String → Server → Server
note request s = record s { requests = s.requests ++ request ∷ [] }

abbrev client : Client
client = record {
  State = Server;
  Pod = String;
  Deployment = String;
  Node = String;
  now = λ s. (s.clock, record s { clock = s.clock + 1 });
  get_plan = λ ns n s. (not_found, s);
  update_plan = λ p s. (none, s);
  update_status = λ p s. (none, s);
  create_plan = λ p s. (none, note "create a plan" s);
  get_pod = λ ns n s. (ok n, s);
  delete_pod = λ p grace s. (none, s);
  get_deployment = λ ns n s. (ok n, s);
  set_replicas = λ n d. d;
  update_deployment = λ d s. (none, s);
  get_node = λ n s. (ok n, s);
  set_unschedulable = λ d. d;
  update_node = λ d s. (none, s);
}

abbrev services : Services
services = record {
  client = client;
  get_analysis = λ name s. (ok (some s.stored), s);
  update_analysis = λ ua s. (none, note "status" (record s { stored = ua }));
  collect = λ scope s. (ok shop, note "collect" s);
  get_config_map = λ name s. (err "not found", s);
  get_secret = λ name s. (err "not found", s);
  export = λ to report s. (none, note ("export to " <> location to) s);
  anthropic = λ q s. (err "unreachable", s);
  openai = λ q s. (err "unreachable", s);
  hash = λ text. text;
  unmarshal = λ text. err "no JSON";
  unmarshal_error = λ text. none;
  as_api_error = λ provider e. none;
  unmarshal_matrix = λ text. none;
  built_in = matrix;
  semver = exact_versions;
  rfc3339 = λ t. "2026-01-01T00:00:00Z";
  reports_dir = "/reports";
}

abbrev start : Server
start = record { stored = analysis; requests = []; clock = 100 }

abbrev no_cache : AiCache
no_cache = empty

nothing_cached : IsBounded no_cache
nothing_cached name = tt

Ends_example : Ends services (reconcile services "shop" no_cache start).0
Ends_example = reconcile-Ends services no_cache nothing_cached "shop" start

abbrev to_1_29 : UpgradeAnalysis
to_1_29 = record analysis { spec = record to_1_30 { target_version = "1.29" } }

lower : version_is_higher "1.29" "v1.29.4" ≡ false
unfolding version_is_higher
lower = refl

refused_example :
    EndsRound services to_1_29 no_cache shop
      (note "collect" start)
      (round services to_1_29 no_cache start)
refused_example = round-Ends services to_1_29 no_cache shop start (note "collect" start) refl

abbrev report : Report
report = calculate shop "1.30" "production"

-- An analysis that was concluded at 60.
abbrev rested : Server
rested = record start { stored = concluded analysis report shop 60 }

rests_example : reconcile services "shop" no_cache rested ≡ (
  some (record { requeue_after = some 859; error = none }, no_cache),
  record rested { clock = 102 },
)
rests_example =
    reconcile-rests services "shop" no_cache rested rested analysis report shop 60 900 100 101
      (record rested { clock = 101 }) (record rested { clock = 102 }) refl (omega arith) refl refl
      (omega arith) refl

-- The file name is the last part of the path that the user has set.
publish_run :
    (publish services analysis report start).1.requests ≡ "export to /reports/report.json" ∷ []
unfolding publish local_report_name location new_file_exporter string_dec join
publish_run = refl
