-- ===== src/Controller/Ai/Context/Rows.antt =====
-- internal/controller/ai_scorer.go, `writeGraphContext`: what the two sections on the graph hold.
use mathlib.Core.List.{foldl}
use mirops.Prelude.{
  ℕ, zero, suc, ◌-◌, ◌<◌, ◌≤◌, ◌≡◌, refl, sym, ap, ◌∙◌, String, ◌<>◌, Bool, true, false, ◌&&◌, ◌||◌,
  List, [], ◌∷◌, ◌++◌, map, select, length, leb, ltb, ◌==◌, ◌↔◌, In, In-select, select-In, count_if,
  length-select, if◌then◌else◌, Bool-cases, inl, inr, arith,
}
use mirops.Prelude.Text.{decimal}
use mirops.Prelude.Maps.{Map, empty, get_or, get_or-insert}
use mirops.Prelude.Sort.{sort_by, In-sort_by, length-sort_by, InOrder, InOrder-sort_by}
use mirops.Graph.{Graph, Component, Edge}
use mirops.Controller.Ai.Context.{
  type_text, edge_text, component_row, edge_row, component_rows, riskier, at_risk_nodes, mark_risky,
  risky_ids, touches, dependency_rows, risk_rows, key_dependencies,
}

-- The first so many elements.
abbrev pub take {ℓ} : {A : Type ℓ} → ℕ → List A → List A
take n [] = []
take n (x ∷ xs) = elim n [ zero ↦ [] | suc m ↦ x ∷ take m xs ]

-- The text on a component.
abbrev pub described : Component → String
described n =
    "- "
    <> (n.id
        <> (" ("
            <> (type_text n.type
                <> (", status "
                    <> ((if n.status == "" then "-" else n.status)
                        <> ("): risk " <> (decimal n.risk <> "\n")))))))

-- The line on the components that are left out.
abbrev pub overflow : ℕ → ℕ → ℕ → List String
overflow all room n =
    if ltb room n then ("- ...and " <> (decimal (all - 30) <> " more\n")) ∷ [] else []

-- The text on an edge.
abbrev pub connected : Edge → String
connected e = "- " <> (e.source <> (" " <> (edge_text e.type <> (" " <> (e.target <> "\n")))))

-- It is the id of a component whose risk is at least 50.
abbrev pub is_risky : List Component → String → Bool
is_risky [] id = false
is_risky (n ∷ ns) id = (leb 50 n.risk && (id == n.id)) || is_risky ns id

-- One of its ends is such a component.
abbrev pub touches_risky : List Component → Edge → Bool
touches_risky ns e = is_risky ns e.source || is_risky ns e.target

component_row-described : (n : Component) → component_row n ≡ described n
unfolding component_row
component_row-described n = refl

overflow-suc : (all room n : ℕ) → overflow all (suc room) (suc n) ≡ overflow all room n
overflow-suc all room n = ground arith

component_rows_lem :
    (all room : ℕ) (ns : List Component)
    → component_rows all room ns ≡ map described (take room ns) ++ overflow all room (length ns)
unfolding component_rows
component_rows_lem all room [] = ground arith
component_rows_lem all zero (n ∷ rest) = ground arith
component_rows_lem all (suc less) (n ∷ rest) =
    ap (λ rows. described n ∷ rows)
      (component_rows_lem all less rest
        ∙ ap (λ more. map described (take less rest) ++ more)
            (sym (overflow-suc all less (length rest))))

touches-risky :
    (risky : Map Bool) (ns : List Component)
    → ((id : String) → get_or risky id false ≡ is_risky ns id)
    → (e : Edge) → touches risky e ≡ touches_risky ns e
touches-risky risky ns same e = rw (same e.source, same e.target) refl

edge_row-connected : (e : Edge) → edge_row e ≡ connected e
unfolding edge_row
edge_row-connected e = refl

dependency_rows_lem :
    (room : ℕ) (risky : Map Bool) (ns : List Component)
    (same : (id : String) → get_or risky id false ≡ is_risky ns id) (es : List Edge)
    → dependency_rows room risky es ≡ map connected (take room (select (touches_risky ns) es))
unfolding dependency_rows
dependency_rows_lem room risky ns same [] = refl
dependency_rows_lem zero risky ns same (e ∷ rest) = elim (Bool-cases (touches_risky ns e)) [
  | inl t ↦ rw (dependency_rows, touches-risky risky ns same e, t, select) refl
  | inr f ↦
      rw (dependency_rows, touches-risky risky ns same e, f, select)
        (dependency_rows_lem zero risky ns same rest)
]
dependency_rows_lem (suc less) risky ns same (e ∷ rest) = elim (Bool-cases (touches_risky ns e)) [
  | inl t ↦
      rw (dependency_rows, touches-risky risky ns same e, t, select)
        (ap (λ rows. connected e ∷ rows) (dependency_rows_lem less risky ns same rest))
  | inr f ↦
      rw (dependency_rows, touches-risky risky ns same e, f, select)
        (dependency_rows_lem (suc less) risky ns same rest)
]

if_or : (b c : Bool) → (if b then true else c) ≡ (b || c)
if_or true c = refl
if_or false c = refl

or_swap : (a b c : Bool) → (a || (b || c)) ≡ ((b || a) || c)
or_swap true true c = refl
or_swap true false c = refl
or_swap false true c = refl
or_swap false false c = refl

or_false : (b : Bool) → (b || false) ≡ b
or_false true = refl
or_false false = refl

mark_risky_lem :
    (m : Map Bool) (n : Component) (id : String)
    → get_or (mark_risky m n) id false ≡ ((leb 50 n.risk && (id == n.id)) || get_or m id false)
mark_risky_lem m n id = elim (Bool-cases (leb 50 n.risk)) [
  | inl e ↦ rw (e) (get_or-insert n.id true m id false ∙ if_or (id == n.id) _)
  | inr e ↦ rw (e) refl
]

risky_from :
    (m : Map Bool) (ns : List Component) (id : String)
    → get_or (foldl mark_risky m (select (λ n. ltb 0 n.risk) ns)) id false
      ≡ (is_risky ns id || get_or m id false)
risky_from m [] id = refl
risky_from m (n ∷ ns) id = elim (Bool-cases (ltb 0 n.risk)) [
  | inl e ↦
      rw (e, select)
        (risky_from (mark_risky m n) ns id
          ∙ ap (λ b. is_risky ns id || b) (mark_risky_lem m n id)
          ∙ or_swap (is_risky ns id) (leb 50 n.risk && (id == n.id)) (get_or m id false))
  | inr e ↦
      let low : leb 50 n.risk ≡ false = ground arith in rw (e, low, select) (risky_from m ns id)
]

-- No component has a higher risk than the one in front of it.
abbrev pub Descending : List Component → Type 0
Descending [] = Unit
Descending (x ∷ []) = Unit
Descending (x ∷ y ∷ ys) = (y.risk ≤ x.risk) × Descending (y ∷ ys)

InOrder-Descending : (ns : List Component) → InOrder riskier ns → Descending ns
InOrder-Descending [] h = tt
InOrder-Descending (x ∷ []) h = tt
InOrder-Descending (x ∷ y ∷ ys) h =
    let first : y.risk ≤ x.risk = let e = h.0 in ground arith in
    (first, InOrder-Descending (y ∷ ys) h.1)

riskier_asym : (a b : Component) → riskier a b ≡ true → riskier b a ≡ false
riskier_asym a b h = ground arith

-- The section on the components at risk is about these components.
abbrev pub Tells : Graph → List Component → Type 0
Tells g ns =
    Descending ns
    × ((n : Component) → In n ns ↔ (In n g.nodes × (0 < n.risk)))
    × (length ns ≡ count_if (λ (n : Component). ltb 0 n.risk) g.nodes)
    × (risk_rows g ≡ map described (take 30 ns) ++ overflow (length ns) 30 (length ns))

risk_rows-Tells : (g : Graph) → Tells g (sort_by riskier (at_risk_nodes g))
unfolding risk_rows
risk_rows-Tells g =
    let at_risk = at_risk_nodes g in
    (
      InOrder-Descending _ (InOrder-sort_by riskier riskier_asym at_risk),
      λ n. (
        λ i.
            let (found, positive) =
              In-select (λ n. ltb 0 n.risk) n g.nodes ((In-sort_by riskier n at_risk).0 i) in
            (found, ground arith),
        λ (found, positive).
            (In-sort_by riskier n at_risk).1
              (select-In (λ n. ltb 0 n.risk) n g.nodes (ground arith) found),
      ),
      length-sort_by riskier at_risk ∙ length-select (λ (n : Component). ltb 0 n.risk) g.nodes,
      component_rows_lem (length (sort_by riskier at_risk)) 30 (sort_by riskier at_risk),
    )

-- The prompt describes the components with a risk above 0, from the highest risk down, each with its
-- id, type, status and risk: all of them if there are no more than 30, and otherwise the first 30
-- and then a line with the number of the others. And it names the edges of which one end is the id
-- of a component with a risk of at least 50, in the order of the graph and up to 20 of them, each
-- with its source, type and target.
pub risk_rows_lem :
    (g : Graph)
    → ((ns : List Component) × Tells g ns)
      × (key_dependencies g ≡ map connected (take 20 (select (touches_risky g.nodes) g.edges)))
unfolding key_dependencies risky_ids
risk_rows_lem g = (
  (sort_by riskier (at_risk_nodes g), risk_rows-Tells g),
  dependency_rows_lem 20 (risky_ids (at_risk_nodes g)) g.nodes
      (λ id. risky_from empty g.nodes id ∙ or_false (is_risky g.nodes id)) g.edges,
)
