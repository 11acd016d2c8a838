-- ===== src/Graph/Risk.antt =====
-- internal/graph/risk.go: intrinsic risk, its propagation along the dependency edges and the
-- totals of each namespace.
pub mod Decay
pub mod Compute
pub mod Sound
pub mod Exact
pub mod Maps
pub mod Apply
pub mod Namespaces
pub mod Partition
use mathlib.Core.List.{foldl}
use text.Mathlib.Text.{starts_with}
use mirops.Prelude.{
  ℕ, zero, suc, ◌+◌, String, Bool, true, false, ◌||◌, Option, none, some, List, [], ◌∷◌, ◌++◌, map,
  ltb, leb, length, ◌==◌, if◌then◌else◌, ◌>>=◌,
}
use mirops.Prelude.Maps.{Map, empty, insert, get_or, append_at}
use mirops.Prelude.Int.{pos_part}
use mirops.Float64.{of_ℕ, of_ratio, ◌*F◌, truncate}
use mirops.Graph.{ComponentType, Component, Edge, Graph, workload, addon, storage, infra}

abbrev pub at_risk_threshold : ℕ
at_risk_threshold = 50

pub record NamespaceRisk : Type 0 where
  pub namespace : String
  pub risk : ℕ
  pub components : ℕ
  pub at_risk : ℕ

-- `int(float64(risk) * riskDecay)`; the product is not negative.
unfoldable pub decay : ℕ → ℕ
unfolding of_ℕ of_ratio ◌*F◌ truncate
decay risk = pos_part (truncate (of_ℕ risk *F of_ratio 6 10))

addon_risk : String → ℕ
addon_risk status = if status == "incompatible" then 90 else if status == "unknown" then 40 else 0

unfoldable pub workload_risk : String → ℕ
workload_risk status =
    if status == "Down" || status == "Failed"
    then 70
    else if starts_with status "Degraded"
    then 40
    else if status == "Scaled to zero"
    then 10
    else 0

storage_risk : String → ℕ
storage_risk status = if status == "Lost" then 90 else if status == "Pending" then 50 else 0

base_risk_of_type : ComponentType → Component → Map String → ℕ
unfolding addon_risk workload_risk storage_risk
base_risk_of_type addon c addon_status = addon_risk (get_or addon_status c.name "")
base_risk_of_type workload c addon_status = workload_risk c.status
base_risk_of_type infra c addon_status = if c.status == "NotReady" then 60 else 0
base_risk_of_type storage c addon_status = storage_risk c.status
base_risk_of_type _ c addon_status = 0

unfoldable pub base_risk : Component → Map String → ℕ
unfolding base_risk_of_type
base_risk c addon_status = base_risk_of_type c.type c addon_status

unfoldable pub base_map : List Component → Map String → Map ℕ
base_map nodes addon_status =
    foldl (λ base n. insert n.id (base_risk n addon_status) base) empty nodes

-- `deps`: the targets of each component's edges, in the order of the edges.
unfoldable pub adjacency : List Edge → Map (List String)
adjacency = foldl (λ deps e. append_at e.source e.target deps) empty

-- What the closure `compute` shares between its calls.
pub record Memo : Type 0 where
  pub eff : Map ℕ
  pub visiting : Map Bool

-- The closure `compute`, with fuel for the depth of its calls; `none` means that it ran out.
module _ (base : Map ℕ) (deps : Map (List String)) where
  -- The loop over the dependencies, which keeps the largest inherited risk.
  unfoldable pub inherit :
      (String → Memo → Option (ℕ × Memo)) → List String → ℕ → Memo → Option (ℕ × Memo)
  inherit compute [] best m = some (best, m)
  inherit compute (d ∷ ds) best m = do
    (v, m') ← compute d m
    inherit compute ds (if ltb best (decay v) then decay v else best) m'

  unfoldable pub compute : ℕ → String → Memo → Option (ℕ × Memo)
  unfolding inherit
  compute zero nid m = none
  compute (suc f) nid m = elim (m.eff nid) [
    | some v ↦ some (v, m)
    | none ↦ elim (get_or m.visiting nid false) [
      | true ↦ some (get_or base nid 0, m)
      | false ↦ do
        (best, m') ←
            inherit (compute f) (get_or deps nid []) (get_or base nid 0)
              (record m { visiting = insert nid true m.visiting })
        some
            (best, record { eff = insert nid best m'.eff; visiting = insert nid false m'.visiting })
    ]
  ]

  -- The loop that writes each component's risk.
  unfoldable pub score_nodes : ℕ → List Component → Memo → Option (List Component)
  unfolding compute
  score_nodes f [] m = some []
  score_nodes f (n ∷ ns) m = do
    (v, m') ← compute f n.id m
    scored ← score_nodes f ns m'
    some (record n { risk = v } ∷ scored)

abbrev bucket_of_type : ComponentType → Component → String
bucket_of_type infra c = "cluster-scoped"
bucket_of_type _ c = if c.namespace == "" then "default" else c.namespace

unfoldable pub namespace_bucket : Component → String
namespace_bucket c = bucket_of_type c.type c

-- `acc`, the totals of one namespace.
pub record Totals : Type 0 where
  pub risk : ℕ
  pub count : ℕ
  pub at_risk : ℕ

pub record Buckets : Type 0 where
  pub by_ns : Map Totals
  pub order : List String

abbrev pub no_totals : Totals
no_totals = record { risk = 0; count = 0; at_risk = 0 }

unfoldable pub add_to_totals : Totals → Component → Totals
add_to_totals a n = record {
  risk = if ltb a.risk n.risk then n.risk else a.risk;
  count = a.count + 1;
  at_risk = if leb at_risk_threshold n.risk then a.at_risk + 1 else a.at_risk;
}

-- The body of the loop: a namespace that is met for the first time joins the order.
unfoldable pub tally : Buckets → Component → Buckets
tally b n =
    let ns = namespace_bucket n in
    elim (b.by_ns ns) [
      | none ↦ record {
        by_ns = insert ns (add_to_totals no_totals n) b.by_ns;
        order = b.order ++ ns ∷ [];
      }
      | some a ↦ record b { by_ns = insert ns (add_to_totals a n) b.by_ns }
    ]

abbrev pub no_buckets : Buckets
no_buckets = record { by_ns = empty; order = [] }

abbrev pub namespace_risk : Buckets → String → NamespaceRisk
namespace_risk b ns =
    let a = get_or b.by_ns ns no_totals in
    record { namespace = ns; risk = a.risk; components = a.count; at_risk = a.at_risk }

unfoldable pub aggregate_by_namespace : List Component → List NamespaceRisk
unfolding tally
aggregate_by_namespace nodes =
    let b = foldl tally no_buckets nodes in map (namespace_risk b) b.order

abbrev pub no_memo : Memo
no_memo = record { eff = empty; visiting = empty }

-- A call descends to a component that is not being visited, and those are a node or a target.
abbrev pub risk_fuel : Graph → ℕ
risk_fuel g = length g.nodes + length g.edges + 1

unfoldable pub apply_risk : Graph → Map String → Option (Graph × List NamespaceRisk)
unfolding score_nodes base_map adjacency aggregate_by_namespace
apply_risk g addon_status = do
  scored ←
      score_nodes (base_map g.nodes addon_status) (adjacency g.edges) (risk_fuel g) g.nodes no_memo
  some (record g { nodes = scored }, aggregate_by_namespace scored)
