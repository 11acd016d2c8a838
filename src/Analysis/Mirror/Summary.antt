-- ===== src/Analysis/Mirror/Summary.antt =====
-- The mirror's headline numbers against its graph.
use mathlib.Core.List.{foldl}
use mirops.Prelude.{
  ◌+◌, ◌≡◌, refl, sym, ap, ◌∙◌, Bool, some, List, [], ◌∷◌, arith, length, count_if, ltb,
}
use mirops.Prelude.Maps.{empty}
use mirops.Cluster.{ClusterSnapshot}
use mirops.Graph.{Graph}
use mirops.Graph.Risk.{NamespaceRisk, aggregate_by_namespace}
use mirops.Graph.Risk.Namespaces.{is_at_risk}
use mirops.Graph.Risk.Partition.{sum, aggregate_by_namespace-total}
use mirops.Graph.AtRisk.Report.{at_risk-lists}
use mirops.Analysis.Mirror.{
  MirrorSummary, MirrorReport, add_namespace, summarize, mirror_report, build_mirror_report,
}

abbrev pub has_risk : NamespaceRisk → Bool
has_risk r = ltb 0 r.at_risk

foldl-add_namespace :
    (s : MirrorSummary) (rs : List NamespaceRisk)
    → foldl add_namespace s rs ≡ record s {
      at_risk = s.at_risk + sum (λ (r : NamespaceRisk). r.at_risk) rs;
      namespaces_at_risk = s.namespaces_at_risk + count_if has_risk rs;
    }
unfolding sum
foldl-add_namespace s [] = ground arith
foldl-add_namespace s (r ∷ rs) = ground (arith, foldl-add_namespace (add_namespace s r) rs)

-- For a graph and the namespace totals of its components, the mirror's report is always produced.
-- Its headline numbers are counts over the graph: its components, its edges, the components at
-- risk, the namespaces and those with a component at risk; and it lists as many components at risk
-- as the headline says.
pub build_mirror_report_lem :
    (snap : ClusterSnapshot) (g : Graph)
    → (r : MirrorReport) × (build_mirror_report snap g (aggregate_by_namespace g.nodes) ≡ some r)
      × (r.summary.components ≡ length g.nodes)
      × (r.summary.edges ≡ length g.edges)
      × (r.summary.at_risk ≡ count_if is_at_risk g.nodes)
      × (r.summary.namespaces ≡ length (aggregate_by_namespace g.nodes))
      × (r.summary.namespaces_at_risk ≡ count_if has_risk (aggregate_by_namespace g.nodes))
      × (length r.at_risk ≡ r.summary.at_risk)
      × (r.graph ≡ some g)
unfolding build_mirror_report summarize
build_mirror_report_lem snap g =
    let ns_risk = aggregate_by_namespace g.nodes in
    let (out, e, order, entries, size) = at_risk-lists g empty in
    let start : MirrorSummary = record {
      components = length g.nodes;
      edges = length g.edges;
      at_risk = 0;
      namespaces = length ns_risk;
      namespaces_at_risk = 0;
    } in
    let sums = foldl-add_namespace start ns_risk in
    let (total, risky) = aggregate_by_namespace-total g.nodes in
    let sum_at_risk : (summarize g ns_risk).at_risk ≡ count_if is_at_risk g.nodes =
      ap (λ (s : MirrorSummary). s.at_risk) sums ∙ omega (arith, risky) in
    let sum_namespaces : (summarize g ns_risk).namespaces_at_risk ≡ count_if has_risk ns_risk =
      ap (λ (s : MirrorSummary). s.namespaces_at_risk) sums ∙ omega arith in
    (
      mirror_report snap g ns_risk out,
      rw e,
      ap (λ (s : MirrorSummary). s.components) sums,
      ap (λ (s : MirrorSummary). s.edges) sums,
      sum_at_risk,
      ap (λ (s : MirrorSummary). s.namespaces) sums,
      sum_namespaces,
      size ∙ sym sum_at_risk,
      refl,
    )
