-- ===== src/Controller/Mirror/Rebuild.antt =====
-- internal/controller/clustermirror_controller.go: the requests of `Reconcile`, in their order.
use mirops.Prelude.{ℕ, String, false, Option, none, some, List, [], if◌then◌else◌, Result, ok, err}
use mirops.Prelude.Maps.{empty}
use mirops.Cluster.{ClusterSnapshot}
use mirops.Graph.{Graph}
use mirops.Graph.Build.{build_from_snapshot}
use mirops.Graph.Risk.{NamespaceRisk, apply_risk}
use mirops.Analysis.Mirror.{MirrorReport, MirrorUpgrade, build_mirror_report}
use mirops.Controller.{Outcome, done, failed, ◌>>=◌, return}
use mirops.Controller.Paths.{join}
use mirops.Controller.Reports.{
  Exporter, is_remote, local_report_name, new_file_exporter, location, build_exporter,
}
use mirops.Controller.Mirror.{
  ClusterMirror, MirrorServices, interval_of, mirror_scope, summary_of, synced, published,
}

-- The graph with its risks, the totals of its namespaces and the report without its time, its name
-- and the analyses. `none` means that a query of the graph ran out of fuel.
abbrev pub with_report :
    ClusterSnapshot
    → Option (Graph × List NamespaceRisk)
    → Option (List NamespaceRisk × MirrorReport)
with_report snap none = none
with_report snap (some (g, ns_risk)) = elim (build_mirror_report snap g ns_risk) [
  | none ↦ none
  | some r ↦ some (ns_risk, r)
]

unfoldable pub mirror_of : ClusterSnapshot → Option (List NamespaceRisk × MirrorReport)
mirror_of snap = with_report snap (apply_risk (build_from_snapshot snap) empty)

module _ (S : MirrorServices) where
  open S use {
    State, now, get_mirror, update_mirror, list_analyses, collect, get_secret, export, rfc3339,
    reports_dir, upgrade_enabled,
  }

  unfoldable pub upgrade_summary : State → MirrorUpgrade × State
  upgrade_summary =
      if upgrade_enabled
      then (do items ← list_analyses; return (summary_of rfc3339 items))
      else return (record { enabled = false; analyses = []; error = "" })

  abbrev pub export_to : MirrorReport → Result Exporter → State → (String × Option String) × State
  export_to report (err e) = return ("", some e)
  export_to report (ok to) = do e ← export to report; return (location to, e)

  unfoldable pub publish_report :
      ClusterMirror → MirrorReport → State → (String × Option String) × State
  publish_report cm report =
      if is_remote cm.spec.source
      then build_exporter get_secret cm.name cm.spec.source >>= export_to report
      else export_to report
          (ok (new_file_exporter (join reports_dir (local_report_name cm.name cm.spec.source))))

  abbrev requeue : ClusterMirror → Outcome
  requeue cm = record { requeue_after = some (interval_of cm.spec.refresh_interval); error = none }

  abbrev pub after_update : ClusterMirror → Option String → Outcome
  after_update cm none = requeue cm
  after_update cm (some e) = failed e

  abbrev pub titled : ClusterMirror → ℕ → MirrorUpgrade → MirrorReport → MirrorReport
  titled cm at upgrade report = record report {
    generated_at = rfc3339 at;
    mirror = cm.name;
    upgrade = upgrade;
  }

  abbrev pub show :
      ClusterMirror → Option (List NamespaceRisk × MirrorReport) → State → Option Outcome × State
  show cm none = return none
  show cm (some (ns_risk, untitled)) = do
    at ← now
    upgrade ← upgrade_summary
    let report = titled cm at upgrade untitled
    place ← publish_report cm report
    e ← update_mirror (published (synced cm report ns_risk at) place)
    return (some (after_update cm e))

  -- A snapshot that could not be collected is recorded, and tried again after the interval. The
  -- error of that record is logged.
  abbrev pub after_collect : ClusterMirror → Result ClusterSnapshot → State → Option Outcome × State
  after_collect cm (err e) = do
    logged ← update_mirror (record cm { status = record cm.status { sync_error = e } })
    return (some (requeue cm))
  after_collect cm (ok snap) = show cm (mirror_of snap)

  unfoldable pub rebuild : ClusterMirror → State → Option Outcome × State
  rebuild cm = do found ← collect (mirror_scope cm.spec); after_collect cm found

  abbrev pub after_get : Result (Option ClusterMirror) → State → Option Outcome × State
  after_get (err e) = return (some (failed e))
  after_get (ok none) = return (some done)
  after_get (ok (some cm)) = rebuild cm

  unfoldable pub reconcile_mirror : String → State → Option Outcome × State
  reconcile_mirror name = do found ← get_mirror name; after_get found
