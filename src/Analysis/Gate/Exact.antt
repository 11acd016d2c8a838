-- ===== src/Analysis/Gate/Exact.antt =====
-- The final decision against the facts that it must follow.
use mirops.Prelude.{
  ◌<◌, ◌≡◌, ◌↔◌, ◌⊎◌, inl, inr, String, true, false, not, List, [], ◌∷◌, arith, In, length,
  count_if, count_if-In,
}
use mirops.Graph.{Component, storage}
use mirops.Compat.{AddonCompatibility, incompatible}
use mirops.Analysis.{Report}
use mirops.Analysis.Calculate.{level_critical, blocked}
use mirops.Analysis.Gate.{
  collect_blockers, apply_graph_decision, enforce, addon_blocks, is_lost, nodes_of,
}
use mirops.Analysis.Gate.Count.{length-collect_blockers}

-- A fact that fails the upgrade.
unfoldable pub HasBlocker : Report → Type 0
HasBlocker r =
    (blocked r.conditions ≡ true)
    ⊎ ((a : AddonCompatibility) × (In a r.addons × (a.status ≡ incompatible)))
    ⊎ ((n : Component) × (In n (nodes_of r.graph) × (n.type ≡ storage) × (n.status ≡ "Lost")))

-- The decision agrees with the conditions, as `decide` leaves it.
unfoldable pub FollowsConditions : Report → Type 0
FollowsConditions r =
    (r.decision.allow ≡ not (blocked r.conditions))
    × (r.decision.level ≡ level_critical ↔ blocked r.conditions ≡ true)

addon_blocks_lem : (a : AddonCompatibility) → addon_blocks a ≡ true ↔ a.status ≡ incompatible
addon_blocks_lem a = ground arith

is_lost_lem : (n : Component) → is_lost n ≡ true ↔ ((n.type ≡ storage) × (n.status ≡ "Lost"))
is_lost_lem n = ground (arith)

-- The same three cases, by the numbers that are counted.
counted :
    (r : Report)
    → (0 < length (collect_blockers r)) ↔ (
        (blocked r.conditions ≡ true)
        ⊎ ((0 < count_if addon_blocks r.addons) ⊎ (0 < count_if is_lost (nodes_of r.graph))))
counted r = ground (arith, length-collect_blockers r)

HasBlocker_lem : (r : Report) → (0 < length (collect_blockers r)) ↔ HasBlocker r
unfolding HasBlocker
HasBlocker_lem r = (
  λ h. elim ((counted r).0 h) [
    | inl b ↦ inl b
    | inr (inl c) ↦
        let (a, (i, t)) = (count_if-In addon_blocks r.addons).0 c in
        inr (inl (a, (i, (addon_blocks_lem a).0 t)))
    | inr (inr c) ↦
        let (n, (i, t)) = (count_if-In is_lost (nodes_of r.graph)).0 c in
        let (s, u) = (is_lost_lem n).0 t in inr (inr (n, (i, s, u)))
  ],
  λ h. (counted r).1 (elim h [
    | inl b ↦ inl b
    | inr (inl (a, (i, t))) ↦
        inr (inl ((count_if-In addon_blocks r.addons).1 (a, (i, (addon_blocks_lem a).1 t))))
    | inr (inr (n, (i, t, u))) ↦
        inr (inr ((count_if-In is_lost (nodes_of r.graph)).1 (n, (i, (is_lost_lem n).1 (t, u)))))
  ]),
)

enforce_lem :
    (r : Report) (bs : List String)
    → FollowsConditions r
    → (blocked r.conditions ≡ true → 0 < length bs)
    → ((enforce r bs).decision.allow ≡ false ↔ 0 < length bs)
      × ((enforce r bs).decision.level ≡ level_critical ↔ 0 < length bs)
      × ((enforce r bs).decision.blockers ≡ [] ↔ (enforce r bs).decision.allow ≡ true)
      × ((enforce r bs).scores ≡ r.scores)
unfolding FollowsConditions
enforce_lem r [] f h = ground (arith, f, h)
enforce_lem r (b ∷ bs) f h = ground (arith, f, h)

-- If the decision of the report agrees with its conditions, then after `apply_graph_decision` the
-- upgrade is refused exactly if a blocking condition holds, a listed add-on is incompatible or a
-- volume claim of the graph is lost; the level is CRITICAL exactly then, the blockers are empty
-- exactly if the upgrade is allowed, and the scores are what they were.
pub apply_graph_decision_lem :
    (r : Report)
    → FollowsConditions r
    → ((apply_graph_decision r).decision.allow ≡ false ↔ HasBlocker r)
      × ((apply_graph_decision r).decision.level ≡ level_critical ↔ HasBlocker r)
      × ((apply_graph_decision r).decision.blockers ≡ []
          ↔ (apply_graph_decision r).decision.allow ≡ true)
      × ((apply_graph_decision r).scores ≡ r.scores)
unfolding apply_graph_decision
apply_graph_decision_lem r f =
    let (there, back) = HasBlocker_lem r in
    let (allow, level, cleared, scores) =
      enforce_lem r (collect_blockers r) f (λ b. (counted r).1 (inl b)) in
    (
      (λ e. there (allow.0 e), λ h. allow.1 (back h)),
      (λ e. there (level.0 e), λ h. level.1 (back h)),
      cleared,
      scores,
    )
