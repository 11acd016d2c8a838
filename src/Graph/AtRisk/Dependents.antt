-- ===== src/Graph/AtRisk/Dependents.antt =====
-- The breadth-first walk over the reverse edges ends, and finds exactly the components that depend
-- on its start.
use mathlib.Core.List.{foldl}
use mathlib.Core.Path.{subst, subst₂}
use mirops.Prelude.{
  ℕ, zero, suc, ◌+◌, ◌≤◌, ◌<◌, ◌≡◌, ◌≢◌, ◌↔◌, ◌⊎◌, inl, inr, refl, sym, ap, String, Bool, true,
  false, not, some, List, [], ◌∷◌, arith, In, All, All-In, All-In-map, Distinct, List-cases, length,
  length-append, length-map, count_if, count_if-le-length, map, ◌==◌, eq_of_==, ==_refl,
  if◌then◌else◌, Bool-cases,
}
use mirops.Prelude.Maps.{Map, empty, get_or, values_of, group_from_lem}
use mirops.Prelude.Sort.{
  str_lt, str_lt_asym, sort_by, In-sort_by, InOrder, InOrder-sort_by, Distinct-sort_by,
}
use mirops.Graph.{Edge, Graph}
use mirops.Graph.AtRisk.{
  Walk, offer, walk, first_walk, dependents_of, dependents, reverse_edges, walk_fuel,
}
use mirops.Graph.AtRisk.Invariant.{
  marked, mark, marked-mark, offer_old, offer_new, Inv, Inv-offers, Inv-pop, Inv-end, Inv-first,
}

-- `x` depends on `nid`, directly or through others.
pub data DependsOn (g : Graph) (nid : String) : String → Type 0 where
  itself : DependsOn g nid nid
  through :
      {y x : String}
      → DependsOn g nid y
      → (e : Edge) → In e g.edges
      → e.target ≡ y
      → e.source ≡ x
      → DependsOn g nid x

abbrev unseen : List String → Walk → ℕ
unseen u s = count_if (λ k. not (marked s k)) u

unseen-mark_le : (u : List String) (s : Walk) (d : String) → unseen u (mark s d) ≤ unseen u s
unseen-mark_le [] s d = omega arith
unseen-mark_le (k ∷ u) s d = ground (arith, marked-mark s d k, unseen-mark_le u s d)

unseen-mark :
    (u : List String) (s : Walk) (d : String)
    → In d u
    → marked s d ≡ false
    → unseen u (mark s d) < unseen u s
unseen-mark [] s d i new = elim i [ ]
unseen-mark (k ∷ u) s d (inl e) new =
    ground (arith, marked-mark s d k, ap (marked s) e, unseen-mark_le u s d)
unseen-mark (k ∷ u) s d (inr i) new = ground (arith, marked-mark s d k, unseen-mark u s d i new)

-- The components queued and those not seen yet; a round takes one away.
abbrev work : List String → Walk → ℕ
work u s = length s.queue + unseen u s

work-offer : (u : List String) (s : Walk) (d : String) → In d u → work u (offer s d) ≤ work u s
work-offer u s d i = elim (Bool-cases (marked s d)) [
  | inl old ↦ rw (offer_old s d old) (omega arith)
  | inr new ↦
      rw (offer_new s d new)
        (let lt = unseen-mark u s d i new in omega (arith, length-append s.queue (d ∷ [])))
]

work-offers :
    (u : List String) (s : Walk) (ds : List String)
    → All (λ d. In d u) ds
    → work u (foldl offer s ds) ≤ work u s
work-offers u s [] h = omega arith
work-offers u s (d ∷ ds) h = omega (arith, work-offer u s d h.0, work-offers u (offer s d) ds h.1)

module _ (rdeps : Map (List String)) (nid : String) (Reach : String → Type 0) (start : Reach nid)
    (step : (a b : String) → Reach a → In b (get_or rdeps a []) → Reach b)
    (least : (P : String → Type 0)
      → P nid
      → ((a b : String) → P a → In b (get_or rdeps a []) → P b)
      → (x : String) → Reach x
      → P x)
    (u : List String) (inside : (k : String) → All (λ d. In d u) (get_or rdeps k [])) where
  abbrev Finds : List String → Type 0
  Finds out = Distinct out × ((x : String) → In x out ↔ ((x ≢ nid) × Reach x))

  walk-Finds :
      (f : ℕ) (v : String) (s : Walk)
      → work u s < f
      → Inv rdeps nid Reach start step v [] s
      → (out : List String) × (walk rdeps f s ≡ some out) × Finds out
  unfolding walk
  walk-Finds zero v s lt h = elim lt [ ]
  walk-Finds (suc f) v s lt h = elim (List-cases s.queue) [
    | inl e ↦ (s.out, rw (e, walk), Inv-end rdeps nid Reach start step v s least e h)
    | inr (cur, rest, e) ↦
        let s' = record s { queue = rest } in
        let popped = Inv-pop rdeps nid Reach start step v cur rest s e h in
        let reach = h.sound cur (h.queued cur (rw e (inl refl))) in
        let less : work u s' < work u s = unfold marked in omega (arith, ap length e) in
        let (out, e', finds) =
          walk-Finds f cur (foldl offer s' (get_or rdeps cur []))
            (omega (arith, work-offers u s' (get_or rdeps cur []) (inside cur)))
            (Inv-offers rdeps nid Reach start step cur (get_or rdeps cur []) s' reach
              (All-In (get_or rdeps cur [])) popped) in
        (out, rw (e, walk) e', finds)
  ]

-- The sources of the edges into `k`.
abbrev sources_of : String → List Edge → List String
sources_of = values_of (λ (e : Edge). e.target) (λ (e : Edge). e.source)

reverse_edges_lem : (g : Graph) (k : String) → get_or (reverse_edges g) k [] ≡ sources_of k g.edges
unfolding reverse_edges
reverse_edges_lem g k =
    group_from_lem (λ (e : Edge). e.target) (λ (e : Edge). e.source) empty k g.edges

In-sources_of :
    (k x : String) (es : List Edge)
    → In x (sources_of k es)
    → (e : Edge) × In e es × (e.target ≡ k) × (e.source ≡ x)
In-sources_of k x [] i = elim i [ ]
In-sources_of k x (e ∷ es) i = go (Bool-cases (k == e.target)) (In-sources_of k x es)
  where
    later :
        ((e' : Edge) × In e' es × (e'.target ≡ k) × (e'.source ≡ x))
        → (e' : Edge) × In e' (e ∷ es) × (e'.target ≡ k) × (e'.source ≡ x)
    later (e', i', t, s) = (e', inr i', t, s)

    go :
        ((k == e.target) ≡ true) ⊎ ((k == e.target) ≡ false)
        → (In x (sources_of k es) → (e' : Edge) × In e' es × (e'.target ≡ k) × (e'.source ≡ x))
        → (e' : Edge) × In e' (e ∷ es) × (e'.target ≡ k) × (e'.source ≡ x)
    go (inl t) rec =
        let j : In x (e.source ∷ sources_of k es) = rw (t, values_of) at i in
        elim j [
          | inl q ↦ (e, inl refl, sym (eq_of_== k e.target t), sym q)
          | inr old ↦ later (rec old)
        ]
    go (inr t) rec = later (rec (rw (t, values_of) at i))

sources_of-In : (e : Edge) (es : List Edge) → In e es → In e.source (sources_of e.target es)
sources_of-In e [] i = elim i [ ]
sources_of-In e (e' ∷ es) (inl q) = rw (q, ==_refl e'.target) (inl refl)
sources_of-In e (e' ∷ es) (inr i) = go (e.target == e'.target) (sources_of-In e es i)
  where
    go :
        (b : Bool)
        → In e.source (sources_of e.target es)
        → In e.source (if b then e'.source ∷ sources_of e.target es else sources_of e.target es)
    go true j = inr j
    go false j = j

sources_of-closed :
    (k : String) (es : List Edge) (u : List String)
    → All (λ (e : Edge). In e.source u) es
    → All (λ d. In d u) (sources_of k es)
sources_of-closed k [] u h = tt
sources_of-closed k (e ∷ es) u h = go (k == e.target) (sources_of-closed k es u h.1)
  where
    go :
        (b : Bool)
        → All (λ d. In d u) (sources_of k es)
        → All (λ d. In d u) (if b then e.source ∷ sources_of k es else sources_of k es)
    go true rest = (h.0, rest)
    go false rest = rest

module _ (g : Graph) (nid : String) where
  DependsOn-step :
      (a b : String) → DependsOn g nid a → In b (get_or (reverse_edges g) a []) → DependsOn g nid b
  DependsOn-step a b r i =
      let (e, i', t, s) = In-sources_of a b g.edges (subst (In b) (reverse_edges_lem g a) i) in
      through r e i' t s

  DependsOn-least :
      (P : String → Type 0)
      → P nid
      → ((a b : String) → P a → In b (get_or (reverse_edges g) a []) → P b)
      → (x : String) → DependsOn g nid x
      → P x
  DependsOn-least P base more x itself = base
  DependsOn-least P base more x (through {y} r e i t s) =
      more y x (DependsOn-least P base more y r) (
        subst (In x) (sym (reverse_edges_lem g y))
          (subst₂ (λ z k. In z (sources_of k g.edges)) s t (sources_of-In e g.edges i)))

  edge_sources : List String
  edge_sources = map (λ (e : Edge). e.source) g.edges

  -- The list of dependents is always found: it is in order and names, each once, exactly the
  -- components other than `nid` that depend on it directly or through others.
  pub dependents-finds :
      (out : List String) × (dependents g nid ≡ some out)
      × InOrder str_lt out
      × Distinct out
      × ((x : String) → In x out ↔ ((x ≢ nid) × DependsOn g nid x))
  unfolding dependents dependents_of edge_sources
  dependents-finds =
      let (out, e, finds) =
        walk-Finds (reverse_edges g) nid (DependsOn g nid) itself DependsOn-step DependsOn-least
          edge_sources
          (λ k. rw (reverse_edges_lem g k) (
            sources_of-closed k g.edges edge_sources (All-In-map (λ (e : Edge). e.source) g.edges)))
          (walk_fuel g) nid (first_walk nid)
          (omega (
            arith,
            count_if-le-length (λ k. not (marked (first_walk nid) k)) edge_sources,
            length-map (λ (e : Edge). e.source) g.edges,
          ))
          (Inv-first (reverse_edges g) nid (DependsOn g nid) itself DependsOn-step) in
      (
        sort_by str_lt out,
        rw (e, dependents_of),
        InOrder-sort_by str_lt str_lt_asym out,
        Distinct-sort_by str_lt out finds.0,
        λ x. (
          λ i. (finds.1 x).0 ((In-sort_by str_lt x out).0 i),
          λ d. (In-sort_by str_lt x out).1 ((finds.1 x).1 d),
        ),
      )
