-- ===== src/Examples/UpgradeRuns.antt =====
-- The theorems on the analysis of an upgrade, applied to the small cluster.
use mirops.Prelude.{
  ◌≡◌, ◌↔◌, refl, true, false, ltb, eqb, ◌&&◌, ◌||◌, arith, Option, none, some, List, [], ◌∷◌, All,
  map, select,
}
use mirops.Analysis.Calculate.{level_critical}
use mirops.Analysis.Gate.Exact.{HasBlocker}
use mirops.Controller.Upgrade.{upgrade_impact, AiAnswer, version_is_higher, base_report, analyze}
use mirops.Controller.Upgrade.Versions.{Written, version_text, version_is_higher-text}
use mirops.Controller.Upgrade.Verdict.{analyze-decides}
use mirops.Controller.Upgrade.Impact.{
  broken, broken_key, impact_key, IsRadius, upgrade_impact-lists,
}
use mirops.Graph.Build.{build_from_snapshot}
use mirops.Compat.{AddonCompatibility, incompatible}
use mirops.Analysis.{AddonImpact, Report}
use mirops.Examples.{shop}
use mirops.Examples.CompatRuns.{exact_versions, matrix}

version_order :
    (version_is_higher "1.30" "v1.29.4" ≡ true)
    × (version_is_higher "v1.30.9" "1.30.1" ≡ false)
    × (version_is_higher "1.9" "1.10" ≡ false)
    × (version_is_higher "2.0" "1.31" ≡ true)
unfolding version_is_higher
version_order = (refl, refl, refl, refl)

abbrev with_v : Written
with_v = record { v = true; major = 1; minor = 30; patch = none }

abbrev without_v : Written
without_v = record { v = false; major = 1; minor = 9; patch = some "4" }

version_example :
    version_is_higher (version_text with_v) (version_text without_v)
    ≡ (ltb 1 1 || (eqb 1 1 && ltb 9 30))
version_example =
    version_is_higher-text with_v without_v (omega arith, omega arith) (omega arith, omega arith)

abbrev confident : Report → Option AiAnswer
confident report = some (record { score = 100; reasoning = "all is well"; model = "model" })

verdict_run :
    (before r : Report) × (base_report exact_versions "shop" "2026-01-01T00:00:00Z" shop "1.30"
        "production" matrix
      ≡ some before)
    × (analyze exact_versions confident "shop" "2026-01-01T00:00:00Z" shop "1.30" "production"
          matrix
        ≡ some r)
    × (r.decision.allow ≡ false ↔ HasBlocker before)
    × (r.decision.level ≡ level_critical ↔ HasBlocker before)
    × (r.decision.blockers ≡ [] ↔ r.decision.allow ≡ true)
verdict_run =
    analyze-decides exact_versions "shop" "2026-01-01T00:00:00Z" shop "1.30" "production" matrix
      confident

abbrev broken_addon : AddonCompatibility
broken_addon = record {
  name = "cert-manager";
  version = "1.12.0";
  status = incompatible;
  required_version = "1.13.0";
  note = "";
}

impact_example :
    (out : List AddonImpact) × (upgrade_impact (broken_addon ∷ []) (build_from_snapshot shop)
      ≡ some out)
    × (map impact_key out ≡ map broken_key (select broken (broken_addon ∷ [])))
    × All (IsRadius (build_from_snapshot shop)) out
impact_example = upgrade_impact-lists (broken_addon ∷ []) (build_from_snapshot shop)
