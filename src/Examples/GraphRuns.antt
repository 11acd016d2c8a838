-- ===== src/Examples/GraphRuns.antt =====
-- The theorems on the graph, applied to the small cluster.
use mathlib.Core.Path.{subst, ap₂}
use mirops.Prelude.{
  ℕ, ◌*◌, ◌/◌, ◌<◌, ◌≡◌, ◌≢◌, ◌↔◌, refl, String, false, Option, some, List, [], ◌∷◌, arith, In, All,
  Distinct, length, map, count_if, ◌==◌, string_dec, apart, ◌≤◌, eq_of_==, ==_refl, max,
  if◌then◌else◌, Bool-cases, inl, inr, sym, ◌∙◌,
}
use mirops.Prelude.Maps.{empty, insert, get_or}
use mirops.Prelude.Sort.{InOrder, str_lt}
use mirops.Graph.{Component, Edge, Graph, workload, addon, depends_on}
use mirops.Graph.Build.{build_from_snapshot}
use mirops.Graph.Build.WellFormed.{ids, build_from_snapshot-well_formed}
use mirops.Graph.Risk.{
  NamespaceRisk, decay, base_risk, base_map, adjacency, apply_risk, aggregate_by_namespace,
}
use mirops.Graph.Risk.Decay.{decay_lem}
use mirops.Graph.Risk.Maps.{UniqueIds}
use mirops.Graph.Risk.Sound.{Sound}
use mirops.Graph.Risk.Exact.{IsPropagated, IsRanked, propagated}
use mirops.Graph.Risk.Apply.{Scores, apply_risk-returns, apply_risk-exact}
use mirops.Graph.Risk.Namespaces.{members, is_at_risk, summary, aggregate_by_namespace_lem}
use mirops.Graph.Risk.Partition.{sum, aggregate_by_namespace-total}
use mirops.Graph.AtRisk.{riskiest, AtRiskComponent, dependents, at_risk, riskier}
use mirops.Graph.AtRisk.Dependents.{DependsOn, dependents-finds}
use mirops.Graph.AtRisk.Report.{IsEntry, at_risk-lists}
use mirops.Graph.AtRisk.Riskiest.{riskiest-highest}
use mirops.Examples.{shop}

abbrev mirror : Graph
mirror = build_from_snapshot shop

decay_example : decay 90 ≡ 6 * 90 / 10
decay_example = decay_lem 90 (omega arith)

well_formed_example :
    UniqueIds mirror.nodes
    × All
        (λ (e : Edge). In e.source (ids mirror.nodes) × In e.target (ids mirror.nodes))
        mirror.edges
well_formed_example = build_from_snapshot-well_formed shop

apply_risk-returns_example :
    (ns : List Component) × (apply_risk mirror empty
      ≡ some (record mirror { nodes = ns }, aggregate_by_namespace ns))
    × Scores (Sound (base_map mirror.nodes empty) (adjacency mirror.edges)) mirror.nodes ns
apply_risk-returns_example = apply_risk-returns mirror empty

aggregate_example :
    (order : List String) × (aggregate_by_namespace mirror.nodes ≡ map (summary mirror.nodes) order)
    × Distinct order
    × ((ns : String) → In ns order ↔ (0 < length (members ns mirror.nodes)))
aggregate_example = aggregate_by_namespace_lem mirror.nodes

total_example :
    (sum (λ (r : NamespaceRisk). r.components) (aggregate_by_namespace mirror.nodes)
      ≡ length mirror.nodes)
    × (sum (λ (r : NamespaceRisk). r.at_risk) (aggregate_by_namespace mirror.nodes)
        ≡ count_if is_at_risk mirror.nodes)
total_example = aggregate_by_namespace-total mirror.nodes

dependents_example :
    (out : List String) × (dependents mirror "Addon/cert-manager" ≡ some out)
    × InOrder str_lt out
    × Distinct out
    × ((x : String)
        → In x out ↔ ((x ≢ "Addon/cert-manager") × DependsOn mirror "Addon/cert-manager" x))
dependents_example = dependents-finds mirror "Addon/cert-manager"

at_risk_example :
    (out : List AtRiskComponent) × (at_risk mirror empty ≡ some out)
    × InOrder riskier out
    × ((c : AtRiskComponent) → In c out ↔ IsEntry mirror empty c mirror.nodes)
    × (length out ≡ count_if is_at_risk mirror.nodes)
at_risk_example = at_risk-lists mirror empty

-- A workload that depends on an add-on which the target version breaks.
abbrev web : Component
web = record {
  id = "web";
  kind = "Deployment";
  name = "web";
  namespace = "shop";
  type = workload;
  version = "";
  status = "Running";
  risk = 0;
}

abbrev istio : Component
istio = record {
  id = "istio";
  kind = "Addon";
  name = "istio";
  namespace = "";
  type = addon;
  version = "";
  status = "";
  risk = 0;
}

abbrev broken : Graph
broken = record {
  nodes = web ∷ istio ∷ [];
  edges = record { source = "web"; target = "istio"; type = depends_on } ∷ [];
}

abbrev incompatible_istio : String → Option String
incompatible_istio = insert "istio" "incompatible" empty

abbrev broken_risk : String → ℕ
broken_risk k = if k == "istio" then 90 else if k == "web" then 54 else 0

abbrev broken_rank : String → ℕ
broken_rank k = if k == "web" then 1 else 0

own_risks : (base_risk web incompatible_istio ≡ 0) × (base_risk istio incompatible_istio ≡ 90)
unfolding base_risk string_dec
own_risks = (refl, refl)

broken_base :
    (k : String)
    → get_or (base_map broken.nodes incompatible_istio) k 0 ≡ (if k == "istio" then 90 else 0)
unfolding base_map
broken_base k = ground (arith, own_risks.0, own_risks.1)

broken_deps :
    (k : String) → get_or (adjacency broken.edges) k [] ≡ (if k == "web" then "istio" ∷ [] else [])
unfolding adjacency
broken_deps k = elim (Bool-cases (k == "web")) [
  | inl e ↦ rw (e, adjacency, get_or) refl
  | inr e ↦ rw (e, adjacency, get_or) refl
]

other_name : (("istio" == "web") ≡ false) × (("web" == "istio") ≡ false)
unfolding string_dec
other_name = (refl, refl)

broken-IsRanked :
    IsRanked (base_map broken.nodes incompatible_istio) (adjacency broken.edges) broken_rank
broken-IsRanked k =
    subst (λ l. All (λ d. broken_rank d < broken_rank k) l) (sym (broken_deps k))
      (elim (Bool-cases (k == "web")) [
        | inl e ↦ rw (e, other_name.0) (omega arith, tt)
        | inr e ↦ rw (e) tt
      ])

decay_of_istio : decay 90 ≡ 54
unfolding decay
decay_of_istio = refl

inherited_by_web : 54 ≡ max (decay (broken_risk "istio")) 0
inherited_by_web = rw (==_refl "istio", decay_of_istio) refl

equation :
    (k : String)
    → broken_risk k
      ≡ propagated
          (if k == "istio" then 90 else 0)
          broken_risk
          (if k == "web" then "istio" ∷ [] else [])
equation k = elim (Bool-cases (k == "istio")) [
  | inl e ↦
      let other : (k == "web") ≡ false = rw (eq_of_== k "istio" e) other_name.0 in
      rw (e, other) refl
  | inr e ↦ elim (Bool-cases (k == "web")) [
    | inl w ↦ rw (e, w) inherited_by_web
    | inr w ↦ rw (e, w) refl
  ]
]

broken-IsPropagated :
    IsPropagated (base_map broken.nodes incompatible_istio) (adjacency broken.edges) broken_risk
broken-IsPropagated k =
    equation k
    ∙ sym (ap₂ (λ own deps. propagated own broken_risk deps) (broken_base k) (broken_deps k))

exact_example :
    apply_risk broken incompatible_istio
    ≡ some (
      record broken { nodes = record web { risk = 54 } ∷ record istio { risk = 90 } ∷ [] },
      aggregate_by_namespace (record web { risk = 54 } ∷ record istio { risk = 90 } ∷ []),
    )
unfolding string_dec
exact_example =
    apply_risk-exact broken incompatible_istio broken_risk broken_rank broken-IsPropagated
      broken-IsRanked

named : ◌≢◌ {A = String} "web" "" × ◌≢◌ {A = String} "istio" ""
unfolding string_dec
named = (apart "web" "" refl, apart "istio" "" refl)

riskiest_example :
    In (riskiest ("web" ∷ "istio" ∷ []) (insert "istio" 90 empty)) ("web" ∷ "istio" ∷ [])
    × All
        (λ j.
          get_or (insert "istio" 90 empty) j 0
          ≤ get_or
              (insert "istio" 90 empty)
              (riskiest ("web" ∷ "istio" ∷ []) (insert "istio" 90 empty))
              0)
        ("web" ∷ "istio" ∷ [])
riskiest_example =
    riskiest-highest "web" ("istio" ∷ []) (insert "istio" 90 empty) (named.0, (named.1, tt))
