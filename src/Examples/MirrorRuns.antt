-- ===== src/Examples/MirrorRuns.antt =====
-- The theorems on the reconciler of mirrors, applied to a server that lists the requests it gets.
use mirops.Prelude.{◌≡◌, refl, String, ◌<>◌, true, none, some, List, [], ◌∷◌, ◌++◌, ok, err}
use mirops.Prelude.Int.{pos, negsuc}
use mirops.Controller.Reports.{location}
use mirops.Controller.Mirror.{ClusterMirror, MirrorServices, interval_of}
use mirops.Controller.Mirror.Rebuild.{rebuild, reconcile_mirror}
use mirops.Controller.Mirror.Faithful.{GoesOn, Writes, reconcile_mirror-GoesOn, rebuild-Writes}
use mirops.Prelude.{false, string_dec, ap, if◌then◌else◌, ◌==◌, ==_refl}
use mirops.Prelude.Text.{trim_suffix}
use mirops.Analysis.Score.{build_metrics}
use mirops.Analysis.Workloads.{state_workloads}
use mirops.Analysis.Mirror.{MirrorReport}
use mirops.Collector.Addons.Tags.{has}
use mirops.Controller.Reports.{build_exporter}
use mirops.Controller.Reports.Server.{Reads, bytes, missing, json, serve_http}
use mirops.Controller.Mirror.Rebuild.{publish_report}
use mirops.Controller.Mirror.Readback.{KeepsReports, publish_report-served}
use mirops.Examples.{shop}

abbrev mirror : ClusterMirror
mirror = record {
  name = "shop";
  generation = 3;
  spec = record {
    scope = record { mode = ""; exclude_namespaces = [] };
    refresh_interval = negsuc 0;
    source = record {
      type = "s3";
      path = "";
      bucket = "reports";
      region = "eu-west-1";
      key = "";
      account_name = "";
      container_name = "";
      blob_name = "";
      credentials_secret = "";
    };
  };
  status = record {
    components = 0;
    edges = 0;
    at_risk = 0;
    last_sync = none;
    by_namespace = [];
    sync_error = "";
    report_location = "";
    report_state = "";
    report_error = "";
    observed_generation = 2;
  };
}

abbrev server : MirrorServices
server = record {
  State = List String;
  now = λ s. (100, s);
  get_mirror = λ name s. (ok (some mirror), s);
  update_mirror = λ cm s. (none, s ++ ("status " <> cm.status.report_state) ∷ []);
  list_analyses = λ s. (ok [], s);
  collect = λ scope s. (ok shop, s ++ "collect" ∷ []);
  get_secret = λ name s. (err "not found", s);
  export = λ to report s. (some "access denied", s ++ location to ∷ []);
  rfc3339 = λ t. "2026-01-01T00:00:00Z";
  reports_dir = "/reports";
  upgrade_enabled = true;
}

GoesOn_example : GoesOn (reconcile_mirror server "shop" []).0
GoesOn_example = reconcile_mirror-GoesOn server "shop" mirror [] [] refl

written_example : Writes server mirror (rebuild server mirror [])
written_example = rebuild-Writes server mirror shop [] ("collect" ∷ []) refl

interval_runs : (interval_of (negsuc 0) ≡ 300000000000) × (interval_of (pos 60) ≡ 60)
unfolding interval_of
interval_runs = (refl, refl)

-- A server that keeps the report that was exported last, and where it was put.
record Shelf : Type 0 where
  place : String
  content : String

abbrev marshal : MirrorReport → String
marshal r = r.mirror <> r.kind

abbrev keeper : MirrorServices
keeper = record {
  State = Shelf;
  now = λ s. (100, s);
  get_mirror = λ name s. (ok (some mirror), s);
  update_mirror = λ cm s. (none, s);
  list_analyses = λ s. (ok [], s);
  collect = λ scope s. (ok shop, s);
  get_secret = λ name s. (err "not found", s);
  export = λ to report s. (none, record { place = location to; content = marshal report });
  rfc3339 = λ t. "2026-01-01T00:00:00Z";
  reports_dir = "/reports";
  upgrade_enabled = true;
}

abbrev reads : Reads Shelf
reads = record {
  get_source = λ mirror_asked name s. ok mirror.spec.source;
  get_secret = λ name s. err "not found";
  read = λ from s. if location from == s.place then bytes s.content else missing;
}

keeps : KeepsReports keeper reads marshal
keeps = record {
  secrets = λ name s. refl;
  secrets_kept = λ name to r s. refl;
  sources_kept = λ mirror_asked name to r s. refl;
  written =
      λ to r s done. ap (λ b. if b then bytes (marshal r) else missing) (==_refl (location to));
}

abbrev shelf : Shelf
shelf = record { place = ""; content = "" }

abbrev report : MirrorReport
report = record {
  kind = "ClusterMirror";
  generated_at = "";
  mirror = "shop";
  cluster_version = "";
  upgrade = record { enabled = false; analyses = []; error = "" };
  summary = record {
    components = 0;
    edges = 0;
    at_risk = 0;
    namespaces = 0;
    namespaces_at_risk = 0;
  };
  pods = (build_metrics shop).pods;
  at_risk = [];
  risk = none;
  addons = [];
  workloads = state_workloads shop;
  issues = [];
  graph = none;
}

trimmed : trim_suffix ".json" "shop" ≡ "shop"
unfolding trim_suffix string_dec
trimmed = refl

no_slash : has b'/' "shop" ≡ false
unfolding has
no_slash = refl

abbrev after : Shelf
after = record { place = "s3://reports/shop.mirops"; content = "shopClusterMirror" }

stored : publish_report keeper mirror report shelf ≡ (("s3://reports/shop.mirops", none), after)
unfolding publish_report build_exporter location string_dec
stored = refl

served_example :
    serve_http reads "/reports" "shop.mirops" "ClusterMirror" after
    ≡ record { status = 200; body = json "shopClusterMirror" }
served_example =
    publish_report-served keeper reads marshal keeps mirror report shelf after
      "s3://reports/shop.mirops" no_slash trimmed refl stored
