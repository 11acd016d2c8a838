-- ===== src/Compat/Verdict.antt =====
-- The status that `evaluateOne` gives, over any package of versions and ranges.
use mathlib.Core.Path.{subst}
use mirops.Prelude.{
  ◌≡◌, ◌↔◌, inl, inr, refl, sym, String, true, false, Option, none, some, List, [], ◌∷◌, In,
  In-select, select-In, select, ◌==◌, Bool-cases,
}
use mirops.Cluster.{DetectedAddon}
use mirops.Compat.{
  CompatRule, Status, compatible, incompatible, unknown, Semver, supports, applies, first,
  incompatible_result, chosen_result, match_rules, evaluate_version, evaluate_addon,
}
use mirops.Compat.First.{first-some, first-none}

module _ (V : Semver) where
  open V use {Version}

  -- Some rule that applies to version `v` supports the target.
  unfoldable pub Supported : Version → Version → List CompatRule → Type 0
  Supported v target rules =
      (r : CompatRule) × (In r rules × (applies V v r ≡ true) × (supports V target r ≡ true))

  -- Some rule applies to version `v`, and none that applies supports the target.
  unfoldable pub Unsupported : Version → Version → List CompatRule → Type 0
  Unsupported v target rules =
      ((r : CompatRule) × (In r rules × (applies V v r ≡ true)))
      × ((r : CompatRule) → In r rules → applies V v r ≡ true → supports V target r ≡ false)

  Verdict : Status → Version → Version → List CompatRule → Type 0
  Verdict compatible v target rules = Supported v target rules
  Verdict incompatible v target rules = Unsupported v target rules
  Verdict unknown v target rules = (r : CompatRule) → In r rules → applies V v r ≡ false

  chosen_result-Verdict :
      (a : DetectedAddon) (v target : Version) (rules : List CompatRule) (r : CompatRule)
      (rs : List CompatRule)
      → select (applies V v) rules ≡ r ∷ rs
      → (m : Option CompatRule) → first V (supports V target) (r ∷ rs) ≡ m
      → Verdict (chosen_result V a target rules r m).status v target rules
  unfolding Verdict Supported Unsupported chosen_result incompatible_result
  chosen_result-Verdict a v target rules r rs e (some x) f =
      let (i, s) = first-some V (supports V target) (r ∷ rs) x f in
      let (j, t) = In-select (applies V v) x rules (subst (λ l. In x l) (sym e) i) in (x, (j, t, s))
  chosen_result-Verdict a v target rules r rs e none f = (
    (r, In-select (applies V v) r rules (subst (λ l. In r l) (sym e) (inl refl))),
    λ x i t.
        first-none V (supports V target) (r ∷ rs) x f
          (subst (λ l. In x l) e (select-In (applies V v) x rules t i)),
  )

  match_rules-Verdict :
      (a : DetectedAddon) (v target : Version) (rules l : List CompatRule)
      → select (applies V v) rules ≡ l
      → Verdict (match_rules V a target rules l).status v target rules
  unfolding Verdict match_rules
  match_rules-Verdict a v target rules (r ∷ rs) e =
      chosen_result-Verdict a v target rules r rs e _ refl
  match_rules-Verdict a v target rules [] e = λ r i. elim (Bool-cases (applies V v r)) [
    | inl t ↦ elim (subst (λ l. In r l) e (select-In (applies V v) r rules t i)) [ ]
    | inr f ↦ f
  ]

  evaluate_addon-Verdict :
      (parse_semver : String → Option Version) (a : DetectedAddon) (v target : Version)
      (rules : List CompatRule)
      → (a.version == "") ≡ false
      → parse_semver a.version ≡ some v
      → Verdict (evaluate_addon V parse_semver a (some target) rules).status v target rules
  unfolding Verdict evaluate_addon evaluate_version
  evaluate_addon-Verdict parse_semver a v target [] e p = λ r i. elim i [ ]
  evaluate_addon-Verdict parse_semver a v target (r ∷ rs) e p =
      rw (e, p) (match_rules-Verdict a v target (r ∷ rs) _ refl)

  -- The three verdicts exclude each other.
  Verdict-exact :
      (s : Status) (v target : Version) (rules : List CompatRule)
      → Verdict s v target rules
      → (s ≡ compatible ↔ Supported v target rules)
        × (s ≡ incompatible ↔ Unsupported v target rules)
  unfolding Verdict Supported Unsupported
  Verdict-exact compatible v target rules h =
      ((λ _. h, λ _. refl), (λ e. cc, λ (_, n). let (r, (i, t, s)) = h in cc (n r i t, s)))
  Verdict-exact incompatible v target rules (r, n) =
      ((λ e. cc, λ (q, (i, t, s)). cc (n q i t, s)), (λ _. (r, n), λ _. refl))
  Verdict-exact unknown v target rules h =
      ((λ e. cc, λ (q, (i, t, s)). cc (h q i, t)), (λ e. cc, λ ((q, (i, t)), n). cc (h q i, t)))

  module _ (parse_semver : String → Option Version) where
    -- For an add-on whose version can be read: `evaluate_addon` says compatible exactly if some
    -- rule that applies to the version supports the target, and incompatible exactly if some rule
    -- applies and none that applies supports the target.
    pub evaluate_addon_lem :
        (a : DetectedAddon) (v target : Version) (rules : List CompatRule)
        → (a.version == "") ≡ false
        → parse_semver a.version ≡ some v
        → ((evaluate_addon V parse_semver a (some target) rules).status ≡ compatible
            ↔ Supported v target rules)
          × ((evaluate_addon V parse_semver a (some target) rules).status ≡ incompatible
              ↔ Unsupported v target rules)
    evaluate_addon_lem a v target rules e p =
        Verdict-exact _ v target rules (evaluate_addon-Verdict parse_semver a v target rules e p)
