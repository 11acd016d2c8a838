-- ===== src/Graph.antt =====
-- internal/graph/component.go: the components of the cluster mirror and the dependencies between
-- them. The children build the graph, score its risk and list what is at risk.
pub mod Build
pub mod Risk
pub mod AtRisk
use mirops.Prelude.{ℕ, String, ◌<>◌, List, ◌==◌, if◌then◌else◌}

pub data ComponentType : Type 0 where
  workload network addon config storage infra : ComponentType

pub data EdgeType : Type 0 where
  routes_to selects uses_config uses_storage runs_on depends_on : EdgeType

pub record Component : Type 0 where
  pub id : String
  pub kind : String
  pub name : String
  pub namespace : String
  pub type : ComponentType
  pub version : String
  pub status : String
  pub risk : ℕ

-- `source` and `target` are the fields `From` and `To`: the source depends on the target.
pub record Edge : Type 0 where
  pub source : String
  pub target : String
  pub type : EdgeType

pub record Graph : Type 0 where
  pub nodes : List Component
  pub edges : List Edge

-- A cluster-scoped component has an empty namespace.
unfoldable pub id : String → String → String → String
id kind namespace name =
    if namespace == "" then kind <> "/" <> name else kind <> "/" <> namespace <> "/" <> name

unfoldable pub addon_id : String → String
unfolding id
addon_id name = id "Addon" "" name
