-- ===== src/Controller/Mirror/Faithful.antt =====
-- What the reconciler of mirrors writes, and that it goes on.
use mathlib.Core.Path.{subst}
use mirops.Prelude.{
  ℕ, ◌<◌, ◌≡◌, refl, sym, ap, ◌∙◌, String, Option, none, some, List, length, count_if, ltb, map,
  if_cases, Result, ok, err, arith,
}
use mirops.Prelude.Int.{ℤ, pos, negsuc}
use mirops.Prelude.Maps.{empty}
use mirops.Cluster.{ClusterSnapshot}
use mirops.Graph.{Graph}
use mirops.Graph.Build.{build_from_snapshot}
use mirops.Graph.Risk.{NamespaceRisk, aggregate_by_namespace}
use mirops.Graph.Risk.Apply.{apply_risk-returns}
use mirops.Graph.Risk.Namespaces.{is_at_risk}
use mirops.Analysis.Mirror.{MirrorReport}
use mirops.Analysis.Mirror.Summary.{build_mirror_report_lem}
use mirops.Controller.{Outcome}
use mirops.Controller.Mirror.{
  ClusterMirror, MirrorServices, interval_of, mirror_scope, synced, published, namespace_status,
}
use mirops.Controller.Mirror.Rebuild.{
  with_report, mirror_of, show, upgrade_summary, titled, publish_report, after_update,
  after_collect, rebuild, after_get, reconcile_mirror,
}

interval_of-positive : (z : ℤ) → 0 < interval_of z
unfolding interval_of
interval_of-positive (pos n) =
    if_cases (λ k. 0 < k) (ltb 0 n) n _ (λ up. ground arith) (λ down. omega arith)
interval_of-positive (negsuc n) = omega arith

-- A call that has not failed asks for another one, after a time.
abbrev pub GoesOn : Option Outcome → Type 0
GoesOn none = ⊥
GoesOn (some o) = elim o.error [
  | none ↦ (n : ℕ) × (o.requeue_after ≡ some n) × (0 < n)
  | some e ↦ Unit
]

-- The report that is made of a snapshot, with the totals of its namespaces.
mirror_of-returns :
    (snap : ClusterSnapshot)
    → (g : Graph) × (r : MirrorReport) × (mirror_of snap ≡ some (aggregate_by_namespace g.nodes, r))
      × (r.graph ≡ some g)
      × (r.summary.components ≡ length g.nodes)
      × (r.summary.edges ≡ length g.edges)
      × (r.summary.at_risk ≡ count_if is_at_risk g.nodes)
      × (length r.at_risk ≡ r.summary.at_risk)
unfolding mirror_of
mirror_of-returns snap =
    let (ns, scored, scores) = apply_risk-returns (build_from_snapshot snap) empty in
    let g : Graph = record (build_from_snapshot snap) { nodes = ns } in
    let (r, made, components, edges, at_risk, namespaces, risky, listed, same) =
      build_mirror_report_lem snap g in
    (
      g,
      r,
      ap (with_report snap) scored
          ∙ ap
              (λ o. elim o as (λ _. Option (List NamespaceRisk × MirrorReport)) [
                | none ↦ none
                | some q ↦ some (aggregate_by_namespace ns, q)
              ])
              made,
      same,
      components,
      edges,
      at_risk,
      listed,
    )

-- What a status has to show of a report.
pub record Shows (r : MirrorReport) (cm : ClusterMirror) : Type 0 where
  pub graph : Graph
  pub of_report : r.graph ≡ some graph
  pub components : cm.status.components ≡ length graph.nodes
  pub edges : cm.status.edges ≡ length graph.edges
  pub at_risk : cm.status.at_risk ≡ count_if is_at_risk graph.nodes
  pub listed : cm.status.at_risk ≡ length r.at_risk
  pub namespaces :
      cm.status.by_namespace ≡ map namespace_status (aggregate_by_namespace graph.nodes)

module _ (S : MirrorServices) where
  open S use {State}

  update-GoesOn : (cm : ClusterMirror) (e : Option String) → GoesOn (some (after_update S cm e))
  update-GoesOn cm none = (interval_of cm.spec.refresh_interval, refl, interval_of-positive _)
  update-GoesOn cm (some e) = tt

  rebuild-GoesOn : (cm : ClusterMirror) (s : State) → GoesOn (rebuild S cm s).0
  unfolding rebuild
  rebuild-GoesOn cm s =
      go (S.collect (mirror_scope cm.spec) s).0 (S.collect (mirror_scope cm.spec) s).1
    where
      go : (found : Result ClusterSnapshot) (t : State) → GoesOn (after_collect S cm found t).0
      go (err e) t = (interval_of cm.spec.refresh_interval, refl, interval_of-positive _)
      go (ok snap) t =
          let (g, r, made, same, components, edges, at_risk, listed) = mirror_of-returns snap in
          subst (λ m. GoesOn (show S cm m t).0) (sym made) (update-GoesOn cm _)

  -- While a mirror exists it is rebuilt again and again: each call that finds it ends, and either
  -- fails, after which it is tried again, or asks for the next call after a positive time, also if
  -- the snapshot could not be collected or the report not be written.
  pub reconcile_mirror-GoesOn :
      (name : String) (cm : ClusterMirror) (s t : State)
      → S.get_mirror name s ≡ (ok (some cm), t)
      → GoesOn (reconcile_mirror S name s).0
  unfolding reconcile_mirror
  reconcile_mirror-GoesOn name cm s t got =
      subst (λ p. GoesOn (after_get S p.0 p.1).0) (sym got) (rebuild-GoesOn cm t)

  published-Shows :
      (r : MirrorReport) (cm : ClusterMirror) (p : String × Option String)
      → Shows r cm
      → Shows r (published cm p)
  published-Shows r cm (place, none) h = record {
    graph = h.graph;
    of_report = h.of_report;
    components = h.components;
    edges = h.edges;
    at_risk = h.at_risk;
    listed = h.listed;
    namespaces = h.namespaces;
  }
  published-Shows r cm (place, some e) h = record {
    graph = h.graph;
    of_report = h.of_report;
    components = h.components;
    edges = h.edges;
    at_risk = h.at_risk;
    listed = h.listed;
    namespaces = h.namespaces;
  }

  observed :
      (cm : ClusterMirror) (p : String × Option String)
      → (published cm p).status.observed_generation ≡ cm.status.observed_generation
  observed cm (place, none) = refl
  observed cm (place, some e) = refl

  -- A rebuild writes a status that shows the report.
  abbrev pub Writes : ClusterMirror → Option Outcome × State → Type 0
  Writes cm end =
      (r : MirrorReport) × (written : ClusterMirror) × (u : State) × (end.1
        ≡ (S.update_mirror written (publish_report S cm r u).1).1)
      × (written.status.observed_generation ≡ cm.generation)
      × Shows r written

  show-Writes :
      (cm : ClusterMirror) (snap : ClusterSnapshot) (t : State)
      → Writes cm (show S cm (mirror_of snap) t)
  show-Writes cm snap t =
      let (g, r, made, same, components, edges, at_risk, listed) = mirror_of-returns snap in
      let (at, t') = S.now t in
      let (upgrade, u) = upgrade_summary S t' in
      let report = titled S cm at upgrade r in
      let done = synced cm report (aggregate_by_namespace g.nodes) at in
      let place = (publish_report S cm report u).0 in
      (
        report,
        published done place,
        u,
        ap (λ m. (show S cm m t).1) made,
        observed done place,
        published-Shows report done place (record {
          graph = g;
          of_report = same;
          components = components;
          edges = edges;
          at_risk = at_risk;
          listed = sym listed;
          namespaces = refl;
        }),
      )

  -- The status and the published report of a rebuild agree, also if the report could not be
  -- written: after a collected snapshot the last request writes a status whose numbers of
  -- components, of edges and of components at risk, and whose list of namespaces, are those of the
  -- graph in the report that was handed to the exporter just before, and which lists as many
  -- components at risk.
  pub rebuild-Writes :
      (cm : ClusterMirror) (snap : ClusterSnapshot) (s t : State)
      → S.collect (mirror_scope cm.spec) s ≡ (ok snap, t)
      → Writes cm (rebuild S cm s)
  unfolding rebuild
  rebuild-Writes cm snap s t collected =
      subst (λ p. Writes cm (after_collect S cm p.0 p.1)) (sym collected) (show-Writes cm snap t)
