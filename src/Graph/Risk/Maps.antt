-- ===== src/Graph/Risk/Maps.antt =====
-- The two maps that `ApplyRisk` builds before it propagates: own risks and dependencies.
use mathlib.Core.List.{foldl}
use mirops.Prelude.{
  ℕ, ◌≤◌, ◌≡◌, ◌≢◌, refl, sym, ◌∙◌, String, Bool, true, false, List, [], ◌∷◌, inl, inr, ◌⊎◌, arith,
  In, All, if◌then◌else◌, Bool-cases, ◌==◌, eq_of_==, ==_refl,
}
use mirops.Prelude.Maps.{Map, empty, insert, get_or, get_or-insert, values_of, group_from_lem}
use mirops.Graph.{Component, Edge}
use mirops.Graph.Risk.{base_risk, base_map, adjacency}

-- The targets of a component's edges, in the order of the edges.
abbrev pub targets_of : String → List Edge → List String
targets_of = values_of (λ (e : Edge). e.source) (λ (e : Edge). e.target)

pub adjacency_lem : (es : List Edge) (k : String) → get_or (adjacency es) k [] ≡ targets_of k es
unfolding adjacency
adjacency_lem es k = group_from_lem (λ (e : Edge). e.source) (λ (e : Edge). e.target) empty k es

pub targets-closed :
    (k : String) (es : List Edge) (u : List String)
    → All (λ (e : Edge). In e.target u) es
    → All (λ d. In d u) (targets_of k es)
targets-closed k [] u h = tt
targets-closed k (e ∷ es) u h = go (k == e.source) (targets-closed k es u h.1)
  where
    go :
        (b : Bool)
        → All (λ d. In d u) (targets_of k es)
        → All (λ d. In d u) (if b then e.target ∷ targets_of k es else targets_of k es)
    go true rest = (h.0, rest)
    go false rest = rest

pub base_risk_le : (c : Component) (addon_status : Map String) → base_risk c addon_status ≤ 90
unfolding base_risk
base_risk_le c addon_status = ground arith

abbrev put : Map String → Map ℕ → Component → Map ℕ
put addon_status base n = insert n.id (base_risk n addon_status) base

base_map_le_from :
    (addon_status : Map String) (base : Map ℕ) (ns : List Component) (k : String)
    → ((j : String) → get_or base j 0 ≤ 90)
    → get_or (foldl (put addon_status) base ns) k 0 ≤ 90
base_map_le_from addon_status base [] k h = h k
base_map_le_from addon_status base (n ∷ ns) k h =
    base_map_le_from addon_status (put addon_status base n) ns k
      λ j. rw (get_or-insert n.id (base_risk n addon_status) base j 0) (go j (j == n.id))
  where
    go : (j : String) (b : Bool) → (if b then base_risk n addon_status else get_or base j 0) ≤ 90
    go j true = base_risk_le n addon_status
    go j false = h j

pub base_map_le :
    (ns : List Component) (addon_status : Map String) (k : String)
    → get_or (base_map ns addon_status) k 0 ≤ 90
unfolding base_map
base_map_le ns addon_status k = base_map_le_from addon_status empty ns k (λ j. omega arith)

-- No two components share an id.
abbrev pub UniqueIds : List Component → Type 0
UniqueIds [] = Unit
UniqueIds (n ∷ ns) = All (λ (m : Component). m.id ≢ n.id) ns × UniqueIds ns

base_map_other :
    (addon_status : Map String) (base : Map ℕ) (ns : List Component) (k : String)
    → All (λ (n : Component). n.id ≢ k) ns
    → get_or (foldl (put addon_status) base ns) k 0 ≡ get_or base k 0
base_map_other addon_status base [] k h = refl
base_map_other addon_status base (n ∷ ns) k h =
    base_map_other addon_status (put addon_status base n) ns k h.1
    ∙ get_or-insert n.id (base_risk n addon_status) base k 0
    ∙ go (Bool-cases (k == n.id))
  where
    go :
        ((k == n.id) ≡ true) ⊎ ((k == n.id) ≡ false)
        → (if k == n.id then base_risk n addon_status else get_or base k 0) ≡ get_or base k 0
    go (inl e) = absurd (h.0 (sym (eq_of_== k n.id e)))
    go (inr e) = rw e

base_map_from :
    (addon_status : Map String) (base : Map ℕ) (ns : List Component) (n : Component)
    → UniqueIds ns
    → In n ns
    → get_or (foldl (put addon_status) base ns) n.id 0 ≡ base_risk n addon_status
base_map_from addon_status base [] n u i = elim i [ ]
base_map_from addon_status base (m ∷ ns) n u (inr i) =
    base_map_from addon_status (put addon_status base m) ns n u.1 i
base_map_from addon_status base (m ∷ ns) n u (inl e) = rw e (
    base_map_other addon_status (put addon_status base m) ns m.id u.0
    ∙ get_or-insert m.id (base_risk m addon_status) base m.id 0
    ∙ rw (==_refl m.id))

-- With unique ids the map of own risks gives each component its own.
pub base_map_lem :
    (ns : List Component) (addon_status : Map String) (n : Component)
    → UniqueIds ns
    → In n ns
    → get_or (base_map ns addon_status) n.id 0 ≡ base_risk n addon_status
unfolding base_map
base_map_lem ns addon_status n = base_map_from addon_status empty ns n
