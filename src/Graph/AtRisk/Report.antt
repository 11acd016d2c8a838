-- ===== src/Graph/AtRisk/Report.antt =====
-- The list of components at risk as a whole.
use mirops.Prelude.{
  length, count_if, ◌≤◌, ◌≡◌, ◌↔◌, ◌⊎◌, inl, inr, refl, sym, ap, ◌∙◌, ltb→lt, String, true, false,
  some, List, [], ◌∷◌, arith, In, ltb, if◌then◌else◌, Bool-cases,
}
use mathlib.Core.Path.{ap₂}
use mathlib.Core.Option.{some-injective}
use mirops.Prelude.Maps.{Map}
use mirops.Prelude.Sort.{str_lt_asym, sort_by, In-sort_by, InOrder, InOrder-sort_by, length-sort_by}
use mirops.Graph.{Component, Graph}
use mirops.Graph.Risk.{at_risk_threshold}
use mirops.Graph.Risk.Namespaces.{is_at_risk}
use mirops.Graph.AtRisk.{
  AtRiskComponent, dependents, at_risk_component, collect_at_risk, riskier, at_risk,
}
use mirops.Graph.AtRisk.Dependents.{dependents-finds}

riskier_asym : (a b : AtRiskComponent) → riskier a b ≡ true → riskier b a ≡ false
unfolding riskier
riskier_asym a b h = ground (arith, str_lt_asym a.id b.id)

module _ (g : Graph) (addon_status : Map String) where
  -- The entry of a component at risk, with its dependents.
  abbrev pub IsEntry : AtRiskComponent → List Component → Type 0
  IsEntry c ns =
      (n : Component) × (ds : List String) × In n ns
      × (at_risk_threshold ≤ n.risk)
      × (dependents g n.id ≡ some ds)
      × (c ≡ at_risk_component g addon_status n ds)

  IsEntry-cons :
      (n : Component) (ns : List Component) (ds : List String) (out : List AtRiskComponent)
      → dependents g n.id ≡ some ds
      → (c : AtRiskComponent) → In c out ↔ IsEntry c ns
      → ((ltb n.risk at_risk_threshold ≡ true) ⊎ (ltb n.risk at_risk_threshold ≡ false))
      → In c (
          if ltb n.risk at_risk_threshold then out else at_risk_component g addon_status n ds ∷ out)
        ↔ IsEntry c (n ∷ ns)
  IsEntry-cons n ns ds out found c rest (inl low) = rw low (
    λ i. let (m, ms, j, r, d, e) = rest.0 i in (m, ms, inr j, r, d, e),
    λ (m, ms, j, r, d, e). elim j [
      | inl same ↦
          absurd
            (let q = ap (λ (k : Component). k.risk) same in let l = ltb→lt _ _ low in omega arith)
      | inr k ↦ rest.1 (m, ms, k, r, d, e)
    ],
  )
  IsEntry-cons n ns ds out found c rest (inr high) = rw high (
    λ i. elim i [
      | inl e ↦ (n, ds, inl refl, ground arith, found, e)
      | inr j ↦ let (m, ms, k, r, d, e) = rest.0 j in (m, ms, inr k, r, d, e)
    ],
    λ (m, ms, j, r, d, e). elim j [
      | inl same ↦ inl (
          e
          ∙ ap₂ (at_risk_component g addon_status) same (
              some-injective ms ds
                (sym d ∙ ap (λ (k : Component). dependents g k.id) same ∙ found)))
      | inr k ↦ inr (rest.1 (m, ms, k, r, d, e))
    ],
  )

  collect_at_risk-returns :
      (ns : List Component)
      → (out : List AtRiskComponent) × (collect_at_risk g addon_status ns ≡ some out)
        × ((c : AtRiskComponent) → In c out ↔ IsEntry c ns)
        × (length out ≡ count_if is_at_risk ns)
  unfolding collect_at_risk dependents
  collect_at_risk-returns [] =
      ([], refl, λ c. (λ i. elim i [ ], λ (n, ds, i, r, d, e). elim i [ ]), refl)
  collect_at_risk-returns (n ∷ ns) =
      let (out, e, entries, size) = collect_at_risk-returns ns in
      let (ds, e', o, u, fs) = dependents-finds g n.id in
      (
        (if ltb n.risk at_risk_threshold then out else at_risk_component g addon_status n ds ∷ out),
        rw (e, e'),
        λ c. IsEntry-cons n ns ds out e' c (entries c) (Bool-cases (ltb n.risk at_risk_threshold)),
        ground (arith, size),
      )

-- The components at risk are always listed: an entry for each component whose risk reaches the
-- threshold, with its dependents, and for no other, as many entries as components at risk; the
-- riskiest first, ties by id.
pub at_risk-lists :
    (g : Graph) (addon_status : Map String)
    → (out : List AtRiskComponent) × (at_risk g addon_status ≡ some out)
      × InOrder riskier out
      × ((c : AtRiskComponent) → In c out ↔ IsEntry g addon_status c g.nodes)
      × (length out ≡ count_if is_at_risk g.nodes)
unfolding at_risk
at_risk-lists g addon_status =
    let (out, e, entries, size) = collect_at_risk-returns g addon_status g.nodes in
    (
      sort_by riskier out,
      rw e,
      InOrder-sort_by riskier riskier_asym out,
      λ c. (
        λ i. (entries c).0 ((In-sort_by riskier c out).0 i),
        λ h. (In-sort_by riskier c out).1 ((entries c).1 h),
      ),
      length-sort_by riskier out ∙ size,
    )
