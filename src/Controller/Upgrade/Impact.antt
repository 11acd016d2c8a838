-- ===== src/Controller/Upgrade/Impact.antt =====
-- The blast radius of an upgrade.
use mirops.Prelude.{
  ◌≡◌, refl, ap, String, Bool, some, List, [], ◌∷◌, All, map, select, Bool-cases, inl, inr,
}
use mirops.Graph.{Graph, addon_id}
use mirops.Graph.AtRisk.{dependents}
use mirops.Graph.AtRisk.Dependents.{dependents-finds}
use mirops.Compat.{AddonCompatibility, is_incompatible}
use mirops.Analysis.{AddonImpact}
use mirops.Controller.Upgrade.{with_impact, upgrade_impact}

abbrev pub broken : AddonCompatibility → Bool
broken a = is_incompatible a.status

abbrev pub broken_key : AddonCompatibility → String × String × String
broken_key a = (a.name, a.version, a.required_version)

abbrev pub impact_key : AddonImpact → String × String × String
impact_key i = (i.addon, i.version, i.required_version)

abbrev pub IsRadius : Graph → AddonImpact → Type 0
IsRadius g i = dependents g (addon_id i.addon) ≡ some i.affected

-- The impact of an upgrade is always found: one entry for each incompatible add-on and for no
-- other, in the order of the add-ons, with what the graph says depends on the add-on.
pub upgrade_impact-lists :
    (addons : List AddonCompatibility) (g : Graph)
    → (out : List AddonImpact) × (upgrade_impact addons g ≡ some out)
      × (map impact_key out ≡ map broken_key (select broken addons))
      × All (IsRadius g) out
unfolding upgrade_impact
upgrade_impact-lists [] g = ([], refl, refl, tt)
upgrade_impact-lists (a ∷ rest) g =
    let (out, e, keys, radii) = upgrade_impact-lists rest g in
    let (ds, e', o, u, fs) = dependents-finds g (addon_id a.name) in
    (
      with_impact a ds out,
      rw (e, e') refl,
      elim (Bool-cases (broken a)) [
        | inl b ↦ rw (b, select) (ap (λ l. broken_key a ∷ l) keys)
        | inr b ↦ rw (b, select) keys
      ],
      elim (Bool-cases (broken a)) [ inl b ↦ rw (b) (e', radii) | inr b ↦ rw (b) radii ],
    )
