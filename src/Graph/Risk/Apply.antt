-- ===== src/Graph/Risk/Apply.antt =====
-- `ApplyRisk` as a whole, on every graph and on graphs without cycles.
use mirops.Prelude.{
  ℕ, ◌<◌, ◌≡◌, refl, sym, ◌∙◌, ap, String, false, not, Option, none, some, List, [], ◌∷◌, ◌++◌,
  arith, In, All, All-mono, All-In-map, map, count_if-le-length, In-append_left, In-append_right,
  length-append, length-map,
}
use mathlib.Core.Bool.{false≢true}
use mirops.Prelude.Maps.{Map, get_or}
use mirops.Graph.{Component, Edge, Graph}
use mirops.Graph.Risk.{
  Memo, compute, score_nodes, base_map, adjacency, aggregate_by_namespace, apply_risk, risk_fuel,
  no_memo,
}
use mirops.Graph.Risk.Maps.{adjacency_lem, targets-closed, base_map_le}
use mirops.Graph.Risk.Compute.{visits, unvisited, Ends, compute-Ends}
use mirops.Graph.Risk.Sound.{Known, Gives, Sound, compute-Sound}
use mirops.Graph.Risk.Exact.{IsPropagated, IsRanked, Agrees, Exact, compute-Exact}

-- The components of `out` are those of `ns` with risks that satisfy `Q`.
abbrev pub Scores : (String → ℕ → Type 0) → List Component → List Component → Type 0
Scores Q [] [] = Unit
Scores Q [] (s ∷ ss) = ⊥
Scores Q (n ∷ ns) [] = ⊥
Scores Q (n ∷ ns) (s ∷ ss) = (s ≡ record n { risk = s.risk }) × Q n.id s.risk × Scores Q ns ss

module _ (base : Map ℕ) (deps : Map (List String)) (u : List String) (I : Memo → Type 0)
    (Q : String → ℕ → Type 0) (f : ℕ)
    (call : (nid : String) (m : Memo)
      → In nid u
      → I m
      → (r : ℕ × Memo) × (compute base deps f nid m ≡ some r) × Q nid r.0 × I r.1) where
  score_nodes_rule :
      (ns : List Component) (m : Memo)
      → All (λ (n : Component). In n.id u) ns
      → I m
      → (out : List Component) × (score_nodes base deps f ns m ≡ some out) × Scores Q ns out
  unfolding score_nodes
  score_nodes_rule [] m h i = ([], refl, tt)
  score_nodes_rule (n ∷ ns) m h i =
      let (r, e, q, i') = call n.id m h.0 i in
      let (out, e', scores) = score_nodes_rule ns r.1 h.1 i' in
      (record n { risk = r.0 } ∷ out, rw (e, e'), (refl, q, scores))

abbrev base_of : Graph → Map String → Map ℕ
base_of g addon_status = base_map g.nodes addon_status

abbrev deps_of : Graph → Map (List String)
deps_of g = adjacency g.edges

-- Every component that the recursion can meet.
abbrev universe : Graph → List String
universe g = map (λ (n : Component). n.id) g.nodes ++ map (λ (e : Edge). e.target) g.edges

nodes-In-universe : (g : Graph) → All (λ (n : Component). In n.id (universe g)) g.nodes
nodes-In-universe g =
    All-mono _ _ (λ n. In-append_left n.id _ _) g.nodes
      (All-In-map (λ (n : Component). n.id) g.nodes)

universe-closed : (g : Graph) (k : String) → All (λ d. In d (universe g)) (get_or (deps_of g) k [])
universe-closed g k = rw (adjacency_lem g.edges k) (
    targets-closed k g.edges (universe g) (
      All-mono _ _ (λ e. In-append_right e.target _ _) g.edges
        (All-In-map (λ (e : Edge). e.target) g.edges)))

unvisited-lt-fuel : (g : Graph) (m : Memo) → unvisited (universe g) m < risk_fuel g
unvisited-lt-fuel g m = omega (
  arith,
  count_if-le-length (λ k. not (visits m k)) (universe g),
  length-append (map (λ (n : Component). n.id) g.nodes) (map (λ (e : Edge). e.target) g.edges),
  length-map (λ (n : Component). n.id) g.nodes,
  length-map (λ (e : Edge). e.target) g.edges,
)

module _ (g : Graph) (addon_status : Map String) where
  returned :
      (nid : String) (m : Memo) (r : Option (ℕ × Memo))
      → Ends m r
      → Gives
          (base_of g addon_status)
          (deps_of g)
          (Sound (base_of g addon_status) (deps_of g))
          nid
          r
      → (x : ℕ × Memo) × (r ≡ some x)
        × Sound (base_of g addon_status) (deps_of g) nid x.0
        × Known
            (base_of g addon_status)
            (deps_of g)
            (Sound (base_of g addon_status) (deps_of g))
            x.1
  returned nid m none e k = elim e [ ]
  returned nid m (some x) e k = (x, refl, k.0, k.1)

  call-Sound :
      (nid : String) (m : Memo)
      → In nid (universe g)
      → Known (base_of g addon_status) (deps_of g) (Sound (base_of g addon_status) (deps_of g)) m
      → (x : ℕ × Memo) × (compute (base_of g addon_status) (deps_of g) (risk_fuel g) nid m ≡ some x)
        × Sound (base_of g addon_status) (deps_of g) nid x.0
        × Known
            (base_of g addon_status)
            (deps_of g)
            (Sound (base_of g addon_status) (deps_of g))
            x.1
  call-Sound nid m i known =
      returned nid m _
        (compute-Ends (base_of g addon_status) (deps_of g) (universe g) (universe-closed g)
          (risk_fuel g) nid m i (unvisited-lt-fuel g m))
        (compute-Sound (base_of g addon_status) (deps_of g) (base_map_le g.nodes addon_status)
          (risk_fuel g) nid m known)

-- On every graph, cyclic or not, `ApplyRisk` returns. It keeps the components and the edges and
-- writes only risks, each of which is at least the component's own risk, at most 90, and explained
-- by the own risk of a component that it depends on, decayed once for each hop. The totals are
-- those of the scored components.
pub apply_risk-returns :
    (g : Graph) (addon_status : Map String)
    → (ns : List Component) × (apply_risk g addon_status
        ≡ some (record g { nodes = ns }, aggregate_by_namespace ns))
      × Scores (Sound (base_map g.nodes addon_status) (adjacency g.edges)) g.nodes ns
unfolding apply_risk
apply_risk-returns g addon_status =
    let (ns, e, scores) =
      score_nodes_rule (base_of g addon_status) (deps_of g) (universe g) _ _ (risk_fuel g)
        (call-Sound g addon_status) g.nodes no_memo (nodes-In-universe g) (λ k v h. cc) in
    (ns, rw e, scores)

Scores-map :
    (risk : String → ℕ) (ns out : List Component)
    → Scores (λ k v. v ≡ risk k) ns out
    → out ≡ map (λ (n : Component). record n { risk = risk n.id }) ns
Scores-map risk [] [] h = refl
Scores-map risk [] (s ∷ ss) h = elim h [ ]
Scores-map risk (n ∷ ns) [] h = elim h [ ]
Scores-map risk (n ∷ ns) (s ∷ ss) h =
    let same : s ≡ record n { risk = risk n.id } =
      h.0 ∙ ap (λ (v : ℕ). record n { risk = v }) h.1 in
    rw (same, Scores-map risk ns ss h.2)

module _ (g : Graph) (addon_status : Map String) (risk rank : String → ℕ)
    (eq : IsPropagated (base_map g.nodes addon_status) (adjacency g.edges) risk)
    (ranked : IsRanked (base_map g.nodes addon_status) (adjacency g.edges) rank) where
  abbrev Settled : Memo → Type 0
  Settled m =
      Agrees (base_of g addon_status) (deps_of g) risk rank eq ranked m
      × ((k : String) → visits m k ≡ false)

  returned-Exact :
      (nid : String) (m : Memo) (r : Option (ℕ × Memo))
      → ((k : String) → visits m k ≡ false)
      → Ends m r
      → Exact (base_of g addon_status) (deps_of g) risk rank eq ranked (risk nid) m r
      → (x : ℕ × Memo) × (r ≡ some x) × (x.0 ≡ risk nid) × Settled x.1
  returned-Exact nid m none idle e k = elim e [ ]
  returned-Exact nid m (some x) idle e k = (x, refl, k.0, (k.1, λ j. k.2 j ∙ idle j))

  call_exact :
      (nid : String) (m : Memo)
      → In nid (universe g)
      → Settled m
      → (x : ℕ × Memo) × (compute (base_of g addon_status) (deps_of g) (risk_fuel g) nid m ≡ some x)
        × (x.0 ≡ risk nid)
        × Settled x.1
  call_exact nid m i (agrees, idle) =
      returned-Exact nid m _ idle
        (compute-Ends (base_of g addon_status) (deps_of g) (universe g) (universe-closed g)
          (risk_fuel g) nid m i (unvisited-lt-fuel g m))
        (compute-Exact (base_of g addon_status) (deps_of g) risk rank eq ranked (risk_fuel g) nid m
          agrees (λ k t. absurd (false≢true (sym (idle k) ∙ t))))

-- On a graph without cycles (each edge leads to a component of lower rank) `ApplyRisk` writes the
-- solution of the equation of propagated risk: each component's risk is the largest of its own
-- risk and the decayed risks of what it depends on.
pub apply_risk-exact :
    (g : Graph) (addon_status : Map String) (risk rank : String → ℕ)
    → IsPropagated (base_map g.nodes addon_status) (adjacency g.edges) risk
    → IsRanked (base_map g.nodes addon_status) (adjacency g.edges) rank
    → let ns = map (λ (n : Component). record n { risk = risk n.id }) g.nodes in
      apply_risk g addon_status ≡ some (record g { nodes = ns }, aggregate_by_namespace ns)
unfolding apply_risk
apply_risk-exact g addon_status risk rank eq ranked =
    let (ns, e, scores) =
      score_nodes_rule (base_of g addon_status) (deps_of g) (universe g) _ (λ k v. v ≡ risk k)
        (risk_fuel g) (call_exact g addon_status risk rank eq ranked) g.nodes no_memo
        (nodes-In-universe g) (λ k v h. cc, unfold visits in λ k. refl) in
    rw (e, Scores-map risk g.nodes ns scores)
