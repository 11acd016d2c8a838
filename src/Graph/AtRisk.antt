-- ===== src/Graph/AtRisk.antt =====
-- internal/graph/atrisk.go: the components at risk, where each one's risk comes from and what
-- depends on it.
pub mod Invariant
pub mod Dependents
pub mod Report
pub mod Riskiest
use mathlib.Core.List.{foldl}
use mirops.Prelude.{
  ℕ, zero, suc, ◌+◌, String, Bool, true, false, not, ◌&&◌, ◌||◌, Option, none, some, List, [], ◌∷◌,
  ◌++◌, ltb, eqb, length, ◌==◌, if◌then◌else◌, ◌>>=◌,
}
use mirops.Prelude.Maps.{Map, empty, insert, get_or, append_at}
use mirops.Prelude.Sort.{str_lt, sort_by}
use mirops.Graph.{Component, Edge, Graph}
use mirops.Graph.Risk.{base_risk, adjacency, at_risk_threshold}

pub record AtRiskComponent : Type 0 where
  pub id : String
  pub kind : String
  pub name : String
  pub namespace : String
  pub status : String
  pub risk : ℕ
  pub inherited_from : String
  pub dependents : List String

-- Each component with the components that depend on it.
unfoldable pub reverse_edges : Graph → Map (List String)
reverse_edges g = foldl (λ rdeps e. append_at e.target e.source rdeps) empty g.edges

pub record Walk : Type 0 where
  pub seen : Map Bool
  pub queue : List String
  pub out : List String

unfoldable pub offer : Walk → String → Walk
offer s d =
    if get_or s.seen d false
    then s
    else record { seen = insert d true s.seen; queue = s.queue ++ d ∷ []; out = s.out ++ d ∷ [] }

-- The loop over the queue, with fuel for its rounds; `none` means that it ran out.
unfoldable pub walk : Map (List String) → ℕ → Walk → Option (List String)
unfolding offer
walk rdeps zero s = none
walk rdeps (suc f) s = elim s.queue [
  | [] ↦ some s.out
  | cur ∷ rest ↦ walk rdeps f (foldl offer (record s { queue = rest }) (get_or rdeps cur []))
]

abbrev pub first_walk : String → Walk
first_walk nid = record { seen = insert nid true empty; queue = nid ∷ []; out = [] }

-- The fuel is that of `walk`: a round for each component that is queued.
unfoldable pub dependents_of : ℕ → Map (List String) → String → Option (List String)
unfolding walk
dependents_of fuel rdeps nid = do out ← walk rdeps fuel (first_walk nid); some (sort_by str_lt out)

-- Only the sources of edges join the queue, each once, behind the start.
abbrev pub walk_fuel : Graph → ℕ
walk_fuel g = length g.edges + 2

unfoldable pub dependents : Graph → String → Option (List String)
unfolding dependents_of reverse_edges
dependents g nid = dependents_of (walk_fuel g) (reverse_edges g) nid

abbrev pub better : Map ℕ → String → String → String
better risk best nid =
    if best == ""
      || (ltb (get_or risk best 0) (get_or risk nid 0)
          || (eqb (get_or risk nid 0) (get_or risk best 0) && str_lt nid best))
    then nid
    else best

-- The id with the highest risk; ties go to the smaller id.
unfoldable pub riskiest : List String → Map ℕ → String
riskiest ids risk = foldl (better risk) "" ids

unfoldable pub risk_map : List Component → Map ℕ
risk_map = foldl (λ risk n. insert n.id n.risk risk) empty

unfoldable pub at_risk_component : Graph → Map String → Component → List String → AtRiskComponent
unfolding riskiest risk_map
at_risk_component g addon_status n deps_of_n = record {
  id = n.id;
  kind = n.kind;
  name = n.name;
  namespace = n.namespace;
  status = n.status;
  risk = n.risk;
  inherited_from =
      if ltb (base_risk n addon_status) n.risk
      then riskiest (get_or (adjacency g.edges) n.id []) (risk_map g.nodes)
      else "";
  dependents = deps_of_n;
}

unfoldable pub collect_at_risk : Graph → Map String → List Component → Option (List AtRiskComponent)
unfolding dependents_of reverse_edges
collect_at_risk g addon_status [] = some []
collect_at_risk g addon_status (n ∷ ns) = do
  rest ← collect_at_risk g addon_status ns
  ds ← dependents_of (walk_fuel g) (reverse_edges g) n.id
  some (if ltb n.risk at_risk_threshold then rest else at_risk_component g addon_status n ds ∷ rest)

-- Highest risk first; ties by id.
unfoldable pub riskier : AtRiskComponent → AtRiskComponent → Bool
riskier a b = if not (eqb a.risk b.risk) then ltb b.risk a.risk else str_lt a.id b.id

unfoldable pub at_risk : Graph → Map String → Option (List AtRiskComponent)
unfolding collect_at_risk at_risk_component
at_risk g addon_status = do out ← collect_at_risk g addon_status g.nodes; some (sort_by riskier out)
