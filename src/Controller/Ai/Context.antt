-- ===== src/Controller/Ai/Context.antt =====
-- internal/controller/ai_scorer.go, `writeGraphContext`: what the language model is told of the
-- graph. A strings.Builder is the list of the texts that are written to it.
pub mod Rows
use mathlib.Core.List.{foldl}
use mirops.Prelude.{
  ℕ, zero, suc, ◌+◌, ◌-◌, ◌≡◌, refl, String, ◌<>◌, Bool, true, false, not, ◌&&◌, ◌||◌, Option, none,
  some, List, [], ◌∷◌, ◌++◌, map, select, length, ltb, leb, eqb, ◌==◌, if◌then◌else◌,
}
use mirops.Prelude.Maps.{Map, empty, insert, get_or}
use mirops.Prelude.Text.{decimal}
use mirops.Prelude.Sort.{sort_by}
use mirops.Compat.{AddonCompatibility, status_text}
use mirops.Graph.{
  Graph, Component, ComponentType, Edge, EdgeType, workload, network, addon, config, storage, infra,
  routes_to, selects, uses_config, uses_storage, runs_on, depends_on,
}
use mirops.Graph.Risk.{NamespaceRisk}
use mirops.Analysis.{
  Report, NodeReport, DeploymentReport, StatefulSetReport, JobReport, DeprecatedApiReport,
  RiskBreakdown,
}

abbrev pub newline : String
newline = "\n"

abbrev pub line : List String → String
line [] = newline
line (s ∷ rest) = s <> line rest

abbrev pub concat : List String → String
concat [] = ""
concat (s ∷ rest) = s <> concat rest

-- A section with a title and an empty line behind it, left out if it has no rows.
unfoldable pub section : String → List String → List String
section title [] = []
section title (row ∷ rows) = (title <> newline) ∷ row ∷ rows ++ newline ∷ []

pub type_text : ComponentType → String
type_text workload = "workload"
type_text network = "network"
type_text addon = "addon"
type_text config = "config"
type_text storage = "storage"
type_text infra = "infra"

pub edge_text : EdgeType → String
edge_text routes_to = "routes-to"
edge_text selects = "selects"
edge_text uses_config = "uses-config"
edge_text uses_storage = "uses-storage"
edge_text runs_on = "runs-on"
edge_text depends_on = "depends-on"

abbrev pub max_components : ℕ
max_components = 30

abbrev pub max_dependencies : ℕ
max_dependencies = 20

abbrev or_dash : String → String
or_dash s = if s == "" then "-" else s

component_row : Component → String
unfolding type_text decimal
component_row n = line (
    "- "
    ∷ n.id
    ∷ " ("
    ∷ type_text n.type
    ∷ ", status "
    ∷ or_dash n.status
    ∷ "): risk "
    ∷ decimal n.risk
    ∷ [])

-- The loop over the components at risk; `room` is how many more may be written, and `all` how many
-- there are.
unfoldable pub component_rows : ℕ → ℕ → List Component → List String
unfolding component_row decimal
component_rows all room [] = []
component_rows all room (n ∷ rest) = elim room [
  | zero ↦ line ("- ...and " ∷ decimal (all - max_components) ∷ " more" ∷ []) ∷ []
  | suc less ↦ component_row n ∷ component_rows all less rest
]

abbrev pub riskier : Component → Component → Bool
riskier a b = ltb b.risk a.risk

abbrev pub at_risk_nodes : Graph → List Component
at_risk_nodes g = select (λ n. ltb 0 n.risk) g.nodes

abbrev mark_risky : Map Bool → Component → Map Bool
mark_risky m n = if leb 50 n.risk then insert n.id true m else m

unfoldable pub risky_ids : List Component → Map Bool
risky_ids = foldl mark_risky empty

abbrev pub touches : Map Bool → Edge → Bool
touches risky e = get_or risky e.source false || get_or risky e.target false

edge_row : Edge → String
unfolding edge_text
edge_row e = line ("- " ∷ e.source ∷ " " ∷ edge_text e.type ∷ " " ∷ e.target ∷ [])

-- The loop over the edges, which ends when there are enough.
unfoldable pub dependency_rows : ℕ → Map Bool → List Edge → List String
unfolding edge_row
dependency_rows room risky [] = []
dependency_rows room risky (e ∷ rest) = elim (touches risky e) [
  | false ↦ dependency_rows room risky rest
  | true ↦ elim room [ zero ↦ [] | suc less ↦ edge_row e ∷ dependency_rows less risky rest ]
]

-- `sort.Slice` leaves the order of equal risks open: here they keep their order.
unfoldable pub risk_rows : Graph → List String
unfolding component_rows sort_by
risk_rows g =
    let nodes = sort_by riskier (at_risk_nodes g) in
    component_rows (length nodes) max_components nodes

unfoldable pub key_dependencies : Graph → List String
unfolding dependency_rows risky_ids
key_dependencies g = dependency_rows max_dependencies (risky_ids (at_risk_nodes g)) g.edges

unfoldable pub write_graph_context : Option Graph → List String
unfolding section risk_rows key_dependencies
write_graph_context none = []
write_graph_context (some g) =
    section "COMPONENTS AT RISK (0-100, propagated through dependencies):" (risk_rows g)
    ++ section "KEY DEPENDENCIES (edges touching an at-risk component):" (key_dependencies g)
