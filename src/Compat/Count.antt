-- ===== src/Compat/Count.antt =====
-- The results of `Evaluate` as a whole.
use mirops.Prelude.{
  ◌≡◌, inl, inr, refl, String, Bool, Option, none, some, List, [], ◌∷◌, arith, map, count_if,
  Option-cases,
}
use mirops.Prelude.Maps.{get_or}
use mirops.Cluster.{DetectedAddon}
use mirops.Compat.{
  CompatRule, Matrix, AddonCompatibility, Semver, supports, first, incompatible_result,
  chosen_result, match_rules, evaluate_version, evaluate_addon, is_incompatible, evaluate_all,
  evaluate,
}

abbrev pub result_key : AddonCompatibility → String × String
result_key r = (r.name, r.version)

abbrev pub addon_key : DetectedAddon → String × String
addon_key a = (a.name, a.version)

abbrev pub blocks : AddonCompatibility → Bool
blocks r = is_incompatible r.status

module _ (V : Semver) where
  open V use {Version}

  match_rules-name :
      (a : DetectedAddon) (target : Version) (rules l : List CompatRule)
      → ((match_rules V a target rules l).name ≡ a.name)
        × ((match_rules V a target rules l).version ≡ a.version)
  unfolding match_rules chosen_result incompatible_result
  match_rules-name a target rules [] = (refl, refl)
  match_rules-name a target rules (r ∷ rs) =
      elim (Option-cases (first V (supports V target) (r ∷ rs))) [
        | inl e ↦ (rw (e) refl, rw (e) refl)
        | inr (x, e) ↦ (rw (e) refl, rw (e) refl)
      ]

  module _ (parse_semver : String → Option Version) where
    evaluate_version-name :
        (a : DetectedAddon) (target : Version) (rules : List CompatRule) (v : Option Version)
        → ((evaluate_version V parse_semver a target rules v).name ≡ a.name)
          × ((evaluate_version V parse_semver a target rules v).version ≡ a.version)
    unfolding evaluate_version
    evaluate_version-name a target rules none = (refl, refl)
    evaluate_version-name a target rules (some v) = match_rules-name a target rules _

    evaluate_addon-name :
        (a : DetectedAddon) (target : Option Version) (rules : List CompatRule)
        → ((evaluate_addon V parse_semver a target rules).name ≡ a.name)
          × ((evaluate_addon V parse_semver a target rules).version ≡ a.version)
    unfolding evaluate_addon
    evaluate_addon-name a target [] = (refl, refl)
    evaluate_addon-name a none (r ∷ rs) = (refl, refl)
    evaluate_addon-name a (some t) (r ∷ rs) = evaluate_version-name a t (r ∷ rs) _

    evaluate_all_lem :
        (target : Option Version) (m : Matrix) (addons : List DetectedAddon)
        → (map result_key (evaluate_all V parse_semver target m addons).0 ≡ map addon_key addons)
          × ((evaluate_all V parse_semver target m addons).1
              ≡ count_if blocks (evaluate_all V parse_semver target m addons).0)
    unfolding evaluate_all
    evaluate_all_lem target m [] = (refl, refl)
    evaluate_all_lem target m (a ∷ as_left) =
        let (keys, count) = evaluate_all_lem target m as_left in
        let (n, v) = evaluate_addon-name a target (get_or m a.name []) in
        (cc (keys, n, v), ground (arith, count))

    -- `evaluate` keeps every add-on, in order and with its version, and counts exactly the
    -- incompatible ones.
    pub evaluate_lem :
        (addons : List DetectedAddon) (target_version : String) (m : Matrix)
        → (map result_key (evaluate V parse_semver addons target_version m).0
            ≡ map addon_key addons)
          × ((evaluate V parse_semver addons target_version m).1
              ≡ count_if blocks (evaluate V parse_semver addons target_version m).0)
    unfolding evaluate
    evaluate_lem addons target_version m = evaluate_all_lem (parse_semver target_version) m addons
