-- ===== src/Graph/Build/WellFormed.antt =====
-- The builder never leaves a dangling edge and never adds a component twice.
use mathlib.Core.List.{foldl}
use mirops.Prelude.{
  String, Bool, true, false, ◌&&◌, List, [], ◌∷◌, ◌++◌, ◌≡◌, ◌↔◌, ◌⊎◌, inl, inr, refl, sym, ◌∙◌, ap,
  map, In, All, All-mono, All-append, In-append, foldl_keeps, ◌==◌, eq_of_==, ==_refl,
  if◌then◌else◌, Bool-cases, Option-cases,
}
use mathlib.Core.Bool.{false≢true}
use mirops.Prelude.Maps.{insert, get_or, get_or-insert}
use mirops.Cluster.{DetectedAddon, Workload, ServiceRef, IngressRef, ClusterSnapshot}
use mirops.Graph.{Component, Edge, EdgeType, id, workload}
use mirops.Graph.Risk.Maps.{UniqueIds}
use mirops.Graph.Build.{
  Builder, WorkloadRef, new_builder, add_node, add_edge, add_addon, add_infra, add_workload,
  add_bare_pod, add_service, add_ingress, add_pvc, link_addon, link_ingress, link_selected,
  link_service, link_ref, link_workload, node_passes, edge_passes, build_from_snapshot, is_empty,
  component,
}

abbrev pub present : Builder → String → Bool
present b k = get_or b.exists k false

abbrev pub ids : List Component → List String
ids = map (λ (n : Component). n.id)

pub record IsWellFormed (b : Builder) : Type 0 where
  pub listed : (k : String) → (present b k ≡ true) ↔ In k (ids b.nodes)
  pub unique : UniqueIds b.nodes
  pub linked : All (λ (e : Edge). (present b e.source ≡ true) × (present b e.target ≡ true)) b.edges

new_builder-IsWellFormed : IsWellFormed new_builder
unfolding new_builder
new_builder-IsWellFormed = record {
  listed = λ k. (λ h. absurd (false≢true h), λ i. elim i [ ]);
  unique = tt;
  linked = tt;
}

UniqueIds-concat :
    (ns : List Component) (c : Component)
    → UniqueIds ns
    → ¬ In c.id (ids ns)
    → UniqueIds (ns ++ c ∷ [])
UniqueIds-concat [] c u h = (tt, tt)
UniqueIds-concat (n ∷ ns) c u h =
    (All-append _ ns (c ∷ []) u.0 (λ e. h (inl e), tt), UniqueIds-concat ns c u.1 (λ i. h (inr i)))

ids-concat : (ns : List Component) (c : Component) → ids (ns ++ c ∷ []) ≡ ids ns ++ c.id ∷ []
ids-concat [] c = refl
ids-concat (n ∷ ns) c = ap (◌∷◌ n.id) (ids-concat ns c)

keeps_true : (t p : Bool) → p ≡ true → (if t then true else p) ≡ true
keeps_true true p h = refl
keeps_true false p h = h

listed-concat :
    (b : Builder) (c : Component) (k : String)
    → (present b k ≡ true) ↔ In k (ids b.nodes)
    → (get_or (insert c.id true b.exists) k false ≡ true) ↔ In k (ids (b.nodes ++ c ∷ []))
listed-concat b c k h =
    rw (ids-concat b.nodes c, get_or-insert c.id true b.exists k false)
      (to (Bool-cases (k == c.id)), from)
  where
    to :
        ((k == c.id) ≡ true) ⊎ ((k == c.id) ≡ false)
        → (if k == c.id then true else present b k) ≡ true
        → In k (ids b.nodes ++ c.id ∷ [])
    to (inl e) p = (In-append k (ids b.nodes) (c.id ∷ [])).1 (inr (inl (eq_of_== k c.id e)))
    to (inr e) p = (In-append k (ids b.nodes) (c.id ∷ [])).1 (inl (h.0 (rw e at p)))

    from : In k (ids b.nodes ++ c.id ∷ []) → (if k == c.id then true else present b k) ≡ true
    from i = elim ((In-append k (ids b.nodes) (c.id ∷ [])).0 i) [
      | inl old ↦ keeps_true (k == c.id) _ (h.1 old)
      | inr last ↦ elim last [ inl e ↦ rw (e, ==_refl c.id) | inr z ↦ elim z [ ] ]
    ]

present-insert :
    (b : Builder) (k j : String)
    → present b j ≡ true
    → get_or (insert k true b.exists) j false ≡ true
present-insert b k j h = get_or-insert k true b.exists j false ∙ keeps_true (j == k) _ h

pub add_node-IsWellFormed :
    (b : Builder) (c : Component) → IsWellFormed b → IsWellFormed (add_node b c)
unfolding add_node
add_node-IsWellFormed b c h = elim (Bool-cases (present b c.id)) [
  | inl old ↦ rw (old, add_node) h
  | inr new ↦
      rw (new, add_node)
        (record {
          listed = λ k. listed-concat b c k (h.listed k);
          unique =
              UniqueIds-concat b.nodes c h.unique (λ i. false≢true (sym new ∙ (h.listed c.id).1 i));
          linked =
              All-mono _ _
                (λ e l. (present-insert b c.id e.source l.0, present-insert b c.id e.target l.1))
                b.edges h.linked;
        })
]

pub add_edge-IsWellFormed :
    (b : Builder) (source target : String) (type : EdgeType)
    → IsWellFormed b
    → IsWellFormed (add_edge b source target type)
unfolding add_edge
add_edge-IsWellFormed b source target type h = go (present b source) (present b target) refl refl
  where
    go :
        (s t : Bool)
        → present b source ≡ s
        → present b target ≡ t
        → IsWellFormed (
            if s && t
            then record b {
              edges = b.edges ++ record { source = source; target = target; type = type } ∷ [];
            }
            else b)
    go true true s t = record {
      listed = h.listed;
      unique = h.unique;
      linked =
          All-append (λ (e : Edge). (present b e.source ≡ true) × (present b e.target ≡ true))
            b.edges _ h.linked ((s, t), tt);
    }
    go true false s t = h
    go false t s _ = h

link_addon-IsWellFormed :
    (b : Builder) (source name : String) → IsWellFormed b → IsWellFormed (link_addon b source name)
unfolding link_addon
link_addon-IsWellFormed b source name h = elim (Option-cases (b.addon_ids name)) [
  | inl missing ↦ rw (missing, link_addon) h
  | inr (nid, found) ↦ rw (found, link_addon) (add_edge-IsWellFormed b source nid _ h)
]

if-IsWellFormed :
    (t : Bool) (a b : Builder) → IsWellFormed a → IsWellFormed b → IsWellFormed (if t then a else b)
if-IsWellFormed true a b p q = p
if-IsWellFormed false a b p q = q

add_addon-IsWellFormed :
    (b : Builder) (a : DetectedAddon) → IsWellFormed b → IsWellFormed (add_addon b a)
unfolding add_addon
add_addon-IsWellFormed b a h =
    add_node-IsWellFormed _ _ (record { listed = h.listed; unique = h.unique; linked = h.linked })

add_workload-IsWellFormed :
    (b : Builder) (w : Workload) → IsWellFormed b → IsWellFormed (add_workload b w)
unfolding add_workload
add_workload-IsWellFormed b w h =
    let k =
      add_node-IsWellFormed b
        (component (id w.kind w.namespace w.name) w.kind w.name w.namespace workload "" w.status)
        h in
    record { listed = k.listed; unique = k.unique; linked = k.linked }

node_passes-IsWellFormed : (snap : ClusterSnapshot) → IsWellFormed (node_passes snap)
unfolding node_passes add_infra add_bare_pod add_service add_ingress add_pvc
node_passes-IsWellFormed snap =
    foldl_keeps IsWellFormed add_pvc (λ b p. add_node-IsWellFormed b _) snap.pvcs _
      (foldl_keeps IsWellFormed add_ingress (λ b i. add_node-IsWellFormed b _) snap.ingresses _
        (foldl_keeps IsWellFormed add_service (λ b s. add_node-IsWellFormed b _) snap.services _
          (foldl_keeps IsWellFormed add_bare_pod (λ b p. add_node-IsWellFormed b _) snap.bare_pods _
            (foldl_keeps IsWellFormed add_workload add_workload-IsWellFormed snap.workloads _ (
              foldl_keeps IsWellFormed add_infra (λ b n. add_node-IsWellFormed b _)
                snap.node_workloads _
                (foldl_keeps IsWellFormed add_addon add_addon-IsWellFormed snap.detected_addons
                  new_builder new_builder-IsWellFormed))))))

link_ingress-IsWellFormed :
    (b : Builder) (i : IngressRef) → IsWellFormed b → IsWellFormed (link_ingress b i)
unfolding link_ingress
link_ingress-IsWellFormed b i h =
    let k = foldl_keeps IsWellFormed _ (λ b svc. add_edge-IsWellFormed b _ _ _) i.services b h in
    if-IsWellFormed i.has_tls _ _ (link_addon-IsWellFormed _ _ _ k) k

link_service-IsWellFormed :
    (b : Builder) (s : ServiceRef) → IsWellFormed b → IsWellFormed (link_service b s)
unfolding link_service link_selected
link_service-IsWellFormed b s h = if-IsWellFormed (is_empty s.selector) _ _ h (
    foldl_keeps IsWellFormed _ (λ b w k. if-IsWellFormed _ _ _ (add_edge-IsWellFormed b _ _ _ k) k)
      b.workloads b h)

link_workload-IsWellFormed :
    (b : Builder) (w : WorkloadRef) → IsWellFormed b → IsWellFormed (link_workload b w)
unfolding link_workload link_ref
link_workload-IsWellFormed b w h =
    let refs =
      foldl_keeps IsWellFormed (link_ref w)
        (λ b r k. add_edge-IsWellFormed _ _ _ _ (add_node-IsWellFormed b _ k)) w.refs b h in
    let pvcs = foldl_keeps IsWellFormed _ (λ b c. add_edge-IsWellFormed b _ _ _) w.pvcs _ refs in
    let nodes = foldl_keeps IsWellFormed _ (λ b n. add_edge-IsWellFormed b _ _ _) w.nodes _ pvcs in
    if-IsWellFormed w.istio _ _ (link_addon-IsWellFormed _ _ _ nodes) nodes

edge_passes-IsWellFormed :
    (b : Builder) (snap : ClusterSnapshot) → IsWellFormed b → IsWellFormed (edge_passes b snap)
unfolding edge_passes
edge_passes-IsWellFormed b snap h =
    let b' = foldl link_service (foldl link_ingress b snap.ingresses) snap.services in
    foldl_keeps IsWellFormed link_workload link_workload-IsWellFormed b'.workloads b' (
      foldl_keeps IsWellFormed link_service link_service-IsWellFormed snap.services _
        (foldl_keeps IsWellFormed link_ingress link_ingress-IsWellFormed snap.ingresses b h))

-- In the graph of any snapshot no two components share an id, and both ends of every edge are ids
-- of components of the graph.
pub build_from_snapshot-well_formed :
    (snap : ClusterSnapshot)
    → let g = build_from_snapshot snap in
      UniqueIds g.nodes
      × All (λ (e : Edge). In e.source (ids g.nodes) × In e.target (ids g.nodes)) g.edges
unfolding build_from_snapshot
build_from_snapshot-well_formed snap =
    let h = edge_passes-IsWellFormed (node_passes snap) snap (node_passes-IsWellFormed snap) in
    (
      h.unique,
      All-mono _ _ (λ e l. ((h.listed e.source).0 l.0, (h.listed e.target).0 l.1)) _ h.linked,
    )
