-- ===== src/Analysis/Gate.antt =====
-- internal/analysis/score.go: the final decision, over the report with its add-ons and its graph.
pub mod Count
pub mod Exact
pub mod Levels
pub mod Pipeline
use mirops.Prelude.{
  ℕ, String, ◌<>◌, Bool, true, false, ◌&&◌, Option, none, some, List, [], ◌∷◌, ◌++◌, map, ltb,
  select, ◌==◌, if◌then◌else◌,
}
use mirops.Prelude.Text.{decimal}
use mirops.Float64.{of_ℕ, ◌*F◌, ◌/F◌, format0}
use mirops.Graph.{ComponentType, Component, Graph, storage}
use mirops.Compat.{AddonCompatibility, is_incompatible}
use mirops.Analysis.{PdbReport, PodMetrics, Report}
use mirops.Analysis.Reason.{percent}
use mirops.Analysis.Calculate.{level_critical}

abbrev pub when : Bool → String → List String
when true line = line ∷ []
when false line = []

abbrev pdb_blocker : List PdbReport → String
pdb_blocker [] = "a PodDisruptionBudget would stall node drain"
pdb_blocker (p ∷ _) =
    "PodDisruptionBudget " <> p.namespace <> "/" <> p.name <> " would stall node drain"

abbrev not_ready_blocker : PodMetrics → String
not_ready_blocker pods =
    let pct =
      if ltb 0 pods.total then of_ℕ pods.not_ready /F of_ℕ pods.total *F of_ℕ 100 else of_ℕ 0 in
    format0 pct
    <> "% of pods not ready ("
    <> decimal pods.not_ready
    <> "/"
    <> decimal pods.total
    <> ")"

abbrev addon_blocker : AddonCompatibility → String
addon_blocker a =
    if a.required_version == ""
    then "incompatible add-on: " <> a.name <> " " <> a.version
    else "incompatible add-on: " <> a.name <> " " <> a.version <> " (upgrade to "
      <> a.required_version <> ")"

abbrev pub addon_blocks : AddonCompatibility → Bool
addon_blocks a = is_incompatible a.status

abbrev is_storage : ComponentType → Bool
is_storage storage = true
is_storage _ = false

abbrev pub is_lost : Component → Bool
is_lost n = is_storage n.type && (n.status == "Lost")

abbrev lost_blocker : Component → String
lost_blocker n = "PVC " <> n.namespace <> "/" <> n.name <> " is Lost"

abbrev pub nodes_of : Option Graph → List Component
nodes_of none = []
nodes_of (some g) = g.nodes

unfoldable pub collect_blockers : Report → List String
collect_blockers report =
    let c = report.conditions in
    when c.pdb_blocking (pdb_blocker report.workloads.pdbs)
    ++ when c.high_cpu_pressure
        ("CPU pressure at " <> percent report.metrics.resources.cpu_pressure <> " of capacity")
    ++ when c.high_memory_pressure (
        "memory pressure at " <> percent report.metrics.resources.memory_pressure <> " of capacity")
    ++ when c.severely_unstable (not_ready_blocker report.metrics.pods)
    ++ map addon_blocker (select addon_blocks report.addons)
    ++ map lost_blocker (select is_lost (nodes_of report.graph))

abbrev pub enforce : Report → List String → Report
enforce report [] = record report { decision = record report.decision { blockers = [] } }
enforce report (b ∷ bs) = record report {
  decision = record { allow = false; level = level_critical; blockers = b ∷ bs };
}

unfoldable pub apply_graph_decision : Report → Report
unfolding collect_blockers
apply_graph_decision report = enforce report (collect_blockers report)
