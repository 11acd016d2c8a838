-- ===== src/Compat/Required.antt =====
-- The add-on version that `evaluateOne` asks for.
use mirops.Prelude.{
  ◌≡◌, inl, inr, refl, sym, ap, ◌∙◌, String, true, false, Option, none, some, List, [], ◌∷◌, In,
  ◌==◌, ==_refl, Option-cases,
}
use mirops.Cluster.{DetectedAddon}
use mirops.Compat.{
  CompatRule, incompatible, AddonCompatibility, Semver, supports, first, required_addon_version,
  incompatible_result, chosen_result, match_rules, evaluate_version, evaluate_addon,
}
use mirops.Compat.First.{first-some}

-- The empty text equals itself.
filled : {A : Type 0} → ("" == "") ≡ false → A
filled h = cc (h, ==_refl "")

module _ (V : Semver) where
  open V use {Version}

  -- A result demands a version only if it is incompatible, and then the range of a rule that
  -- supports the target.
  Demands : Version → List CompatRule → AddonCompatibility → Type 0
  Demands target rules c =
      (c.required_version == "") ≡ false
      → (c.status ≡ incompatible)
        × ((r : CompatRule) × (In r rules
              × (supports V target r ≡ true)
              × (c.required_version ≡ r.addon_range)))

  incompatible_result-Demands :
      (a : DetectedAddon) (target : Version) (rules : List CompatRule) (r : CompatRule)
      → Demands target rules (incompatible_result V a target rules r)
  unfolding Demands incompatible_result required_addon_version
  incompatible_result-Demands a target rules r h =
      elim (Option-cases (first V (supports V target) rules)) [
        | inl e ↦
            let none_known : required_addon_version V rules target ≡ "" =
              rw (e, required_addon_version) refl in
            filled (ap (λ t. t == "") (sym none_known) ∙ h)
        | inr (x, e) ↦
            let (i, s) = first-some V (supports V target) rules x e in
            (refl, (x, (i, s, rw (e, required_addon_version) refl)))
      ]

  chosen_result-Demands :
      (a : DetectedAddon) (target : Version) (rules : List CompatRule) (r : CompatRule)
      (m : Option CompatRule)
      → Demands target rules (chosen_result V a target rules r m)
  unfolding Demands chosen_result
  chosen_result-Demands a target rules r none h = incompatible_result-Demands a target rules r h
  chosen_result-Demands a target rules r (some x) h = filled h

  match_rules-Demands :
      (a : DetectedAddon) (target : Version) (rules l : List CompatRule)
      → Demands target rules (match_rules V a target rules l)
  unfolding Demands match_rules
  match_rules-Demands a target rules [] h = filled h
  match_rules-Demands a target rules (r ∷ rs) h = chosen_result-Demands a target rules r _ h

  module _ (parse_semver : String → Option Version) where
    evaluate_version-Demands :
        (a : DetectedAddon) (target : Version) (rules : List CompatRule) (v : Option Version)
        → Demands target rules (evaluate_version V parse_semver a target rules v)
    unfolding evaluate_version Demands
    evaluate_version-Demands a target rules none h = filled h
    evaluate_version-Demands a target rules (some v) h = match_rules-Demands a target rules _ h

    -- `evaluate_addon` demands a version only of an incompatible add-on, and the range that it
    -- demands is the range of a listed rule that supports the target.
    pub evaluate_addon-required_version :
        (a : DetectedAddon) (target : Version) (rules : List CompatRule)
        → ((evaluate_addon V parse_semver a (some target) rules).required_version == "") ≡ false
        → ((evaluate_addon V parse_semver a (some target) rules).status ≡ incompatible)
          × ((r : CompatRule) × (In r rules
                × (supports V target r ≡ true)
                × ((evaluate_addon V parse_semver a (some target) rules).required_version
                    ≡ r.addon_range)))
    unfolding evaluate_addon Demands
    evaluate_addon-required_version a target [] h = filled h
    evaluate_addon-required_version a target (r ∷ rs) h =
        evaluate_version-Demands a target (r ∷ rs) _ h
