-- ===== src/Graph/Build.antt =====
-- internal/graph/build.go: the two passes that project a snapshot into the component graph.
-- A Go method that appends to the builder returns the new builder.
pub mod WellFormed
use mirops.Prelude.{
  String, Bool, true, false, ◌&&◌, none, some, List, [], ◌∷◌, ◌++◌, ◌==◌, if◌then◌else◌,
}
use mirops.Prelude.Maps.{Map, empty, insert, get_or}
use mathlib.Core.List.{foldl}
use mirops.Cluster.{
  Labels, ConfigRef, DetectedAddon, NodeWorkload, Workload, BarePod, ServiceRef, IngressRef, PvcRef,
  ClusterSnapshot,
}
use mirops.Graph.{
  ComponentType, EdgeType, Component, Edge, Graph, id, workload, network, addon, config, storage,
  infra, routes_to, selects, uses_config, uses_storage, runs_on, depends_on,
}

pub record WorkloadRef : Type 0 where
  pub id : String
  pub namespace : String
  pub labels : Labels
  pub refs : List ConfigRef
  pub pvcs : List String
  pub nodes : List String
  pub istio : Bool

pub record Builder : Type 0 where
  pub nodes : List Component
  pub edges : List Edge
  pub exists : Map Bool
  pub addon_ids : Map String
  pub workloads : List WorkloadRef

unfoldable pub new_builder : Builder
new_builder = record { nodes = []; edges = []; exists = empty; addon_ids = empty; workloads = [] }

unfoldable pub add_node : Builder → Component → Builder
add_node b c =
    if get_or b.exists c.id false
    then b
    else record b { exists = insert c.id true b.exists; nodes = b.nodes ++ c ∷ [] }

-- No dangling edges: both ends must exist.
unfoldable pub add_edge : Builder → String → String → EdgeType → Builder
add_edge b source target type =
    if get_or b.exists source false && get_or b.exists target false
    then record b {
      edges = b.edges ++ record { source = source; target = target; type = type } ∷ [];
    }
    else b

-- The node passes.

abbrev pub component :
    String → String → String → String → ComponentType → String → String → Component
component nid kind name namespace type version status = record {
  id = nid;
  kind = kind;
  name = name;
  namespace = namespace;
  type = type;
  version = version;
  status = status;
  risk = 0;
}

unfoldable pub add_addon : Builder → DetectedAddon → Builder
add_addon b a =
    let nid = id "Addon" "" a.name in
    add_node (record b { addon_ids = insert a.name nid b.addon_ids })
      (component nid "Addon" a.name a.namespace addon a.version "")

unfoldable pub add_infra : Builder → NodeWorkload → Builder
add_infra b n = add_node b (component (id "Node" "" n.name) "Node" n.name "" infra "" n.status)

unfoldable pub add_workload : Builder → Workload → Builder
add_workload b w =
    let nid = id w.kind w.namespace w.name in
    let b' = add_node b (component nid w.kind w.name w.namespace workload "" w.status) in
    record b' {
      workloads =
          b'.workloads
          ++ record {
            id = nid;
            namespace = w.namespace;
            labels = w.pod_labels;
            refs = w.config_refs;
            pvcs = w.pvcs;
            nodes = w.nodes;
            istio = w.uses_istio_sidecar;
          }
            ∷ [];
    }

unfoldable pub add_bare_pod : Builder → BarePod → Builder
add_bare_pod b p =
    add_node b
      (component (id "Pod" p.namespace p.name) "Pod" p.name p.namespace workload "" p.status)

unfoldable pub add_service : Builder → ServiceRef → Builder
add_service b s =
    add_node b
      (component (id "Service" s.namespace s.name) "Service" s.name s.namespace network "" "")

unfoldable pub add_ingress : Builder → IngressRef → Builder
add_ingress b i =
    add_node b
      (component (id "Ingress" i.namespace i.name) "Ingress" i.name i.namespace network "" "")

-- A pending claim that waits for its first consumer is reported distinctly, as benign.
unfoldable pub pvc_status : PvcRef → String
pvc_status p =
    if p.phase == "Pending" && p.binding_mode == "WaitForFirstConsumer"
    then "Pending (WaitForFirstConsumer)"
    else p.phase

unfoldable pub add_pvc : Builder → PvcRef → Builder
add_pvc b p =
    add_node b
      (component (id "PVC" p.namespace p.name) "PVC" p.name p.namespace storage "" (pvc_status p))

-- The edge passes.

-- An edge to an add-on, if the add-on was detected.
unfoldable pub link_addon : Builder → String → String → Builder
link_addon b source name = elim (b.addon_ids name) [
  | none ↦ b
  | some nid ↦ add_edge b source nid depends_on
]

unfoldable pub link_ingress : Builder → IngressRef → Builder
link_ingress b ing =
    let ing_id = id "Ingress" ing.namespace ing.name in
    let b' =
      foldl (λ b svc. add_edge b ing_id (id "Service" ing.namespace svc) routes_to) b
        ing.services in
    if ing.has_tls then link_addon b' ing_id "cert-manager" else b'

abbrev pub label : Labels → String → String
label [] k = ""
label ((j, v) ∷ rest) k = if k == j then v else label rest k

-- Every key and value of the selector is among the labels; a missing label reads as "".
unfoldable pub labels_match : Labels → Labels → Bool
labels_match [] labels = true
labels_match ((k, v) ∷ rest) labels =
    let others = labels_match rest labels in if label labels k == v then others else false

abbrev pub is_empty {ℓ} : {A : Type ℓ} → List A → Bool
is_empty [] = true
is_empty (x ∷ xs) = false

unfoldable pub link_selected : String → ServiceRef → Builder → WorkloadRef → Builder
link_selected svc_id s b w =
    if w.namespace == s.namespace && labels_match s.selector w.labels
    then add_edge b svc_id w.id selects
    else b

-- The workloads are those that the node pass left in the builder.
unfoldable pub link_service : Builder → ServiceRef → Builder
link_service b s =
    if is_empty s.selector
    then b
    else foldl (link_selected (id "Service" s.namespace s.name) s) b b.workloads

unfoldable pub link_ref : WorkloadRef → Builder → ConfigRef → Builder
link_ref w b ref =
    let cid = id ref.kind w.namespace ref.name in
    add_edge (add_node b (component cid ref.kind ref.name w.namespace config "" "")) w.id cid
      uses_config

unfoldable pub link_workload : Builder → WorkloadRef → Builder
link_workload b w =
    let with_refs = foldl (link_ref w) b w.refs in
    let with_pvcs =
      foldl (λ b claim. add_edge b w.id (id "PVC" w.namespace claim) uses_storage) with_refs
        w.pvcs in
    let with_nodes =
      foldl (λ b node. add_edge b w.id (id "Node" "" node) runs_on) with_pvcs w.nodes in
    if w.istio then link_addon with_nodes w.id "istio" else with_nodes

unfoldable pub node_passes : ClusterSnapshot → Builder
node_passes snap =
    let b = foldl add_addon new_builder snap.detected_addons in
    let b = foldl add_infra b snap.node_workloads in
    let b = foldl add_workload b snap.workloads in
    let b = foldl add_bare_pod b snap.bare_pods in
    let b = foldl add_service b snap.services in
    let b = foldl add_ingress b snap.ingresses in foldl add_pvc b snap.pvcs

unfoldable pub edge_passes : Builder → ClusterSnapshot → Builder
edge_passes b snap =
    let b = foldl link_ingress b snap.ingresses in
    let b = foldl link_service b snap.services in foldl link_workload b b.workloads

unfoldable pub build_from_snapshot : ClusterSnapshot → Graph
unfolding node_passes edge_passes
build_from_snapshot snap =
    let b = edge_passes (node_passes snap) snap in record { nodes = b.nodes; edges = b.edges }
