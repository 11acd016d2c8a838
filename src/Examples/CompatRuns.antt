-- ===== src/Examples/CompatRuns.antt =====
-- The theorems on compatibility, applied to one add-on and a package of versions in which a range
-- admits the one version that it names.
use mirops.Prelude.{
  ◌≡◌, ◌↔◌, refl, String, true, false, some, List, [], ◌∷◌, In, map, count_if, ◌==◌, string_dec,
}
use mirops.Prelude.Maps.{empty, insert}
use mirops.Compat.{
  CompatRule, Matrix, compatible, incompatible, Semver, supports, evaluate_addon, evaluate,
}
use mirops.Compat.Version.{parse_semver}
use mirops.Compat.Verdict.{Supported, Unsupported, evaluate_addon_lem}
use mirops.Compat.Required.{evaluate_addon-required_version}
use mirops.Compat.Count.{result_key, addon_key, blocks, evaluate_lem}
use mirops.Examples.{cert_manager}

abbrev pub exact_versions : Semver
exact_versions = record {
  Version = String;
  parse = λ v. some v;
  parse_range = λ range. some (λ v. range == v);
  major = λ v. 1;
  minor = λ v. 30;
}

abbrev old_rule : CompatRule
old_rule = record { addon_range = "1.12.0"; k8s_range = "1.29.0"; note = "" }

abbrev new_rule : CompatRule
new_rule = record { addon_range = "1.13.0"; k8s_range = "1.30.0"; note = "" }

abbrev rules : List CompatRule
rules = old_rule ∷ new_rule ∷ []

-- The detected version supports 1.29 only, so 1.30 calls for the newer add-on.
verdict_of_cert_manager :
    ((evaluate_addon exact_versions
        (parse_semver exact_versions)
        cert_manager
        (some "1.30.0")
        rules).status
      ≡ incompatible)
    × ((evaluate_addon exact_versions
          (parse_semver exact_versions)
          cert_manager
          (some "1.30.0")
          rules).required_version
        ≡ "1.13.0")
unfolding evaluate_addon parse_semver string_dec
verdict_of_cert_manager = (refl, refl)

known_version : ((cert_manager.version == "") ≡ false)
unfolding string_dec
known_version = refl

parsed_version : parse_semver exact_versions cert_manager.version ≡ some "1.12.0"
unfolding parse_semver string_dec
parsed_version = refl

verdict_example :
    ((evaluate_addon exact_versions
          (parse_semver exact_versions)
          cert_manager
          (some "1.30.0")
          rules).status
        ≡ compatible
      ↔ Supported exact_versions "1.12.0" "1.30.0" rules)
    × ((evaluate_addon exact_versions
            (parse_semver exact_versions)
            cert_manager
            (some "1.30.0")
            rules).status
          ≡ incompatible
        ↔ Unsupported exact_versions "1.12.0" "1.30.0" rules)
verdict_example =
    evaluate_addon_lem exact_versions (parse_semver exact_versions) cert_manager "1.12.0" "1.30.0"
      rules known_version parsed_version

demanded :
    ((evaluate_addon exact_versions
        (parse_semver exact_versions)
        cert_manager
        (some "1.30.0")
        rules).required_version
      == "")
    ≡ false
unfolding evaluate_addon parse_semver string_dec
demanded = refl

required_example :
    ((evaluate_addon exact_versions
        (parse_semver exact_versions)
        cert_manager
        (some "1.30.0")
        rules).status
      ≡ incompatible)
    × ((r : CompatRule) × (In r rules
          × (supports exact_versions "1.30.0" r ≡ true)
          × ((evaluate_addon exact_versions
                (parse_semver exact_versions)
                cert_manager
                (some "1.30.0")
                rules).required_version
              ≡ r.addon_range)))
required_example =
    evaluate_addon-required_version exact_versions (parse_semver exact_versions) cert_manager
      "1.30.0" rules demanded

abbrev pub matrix : Matrix
matrix = insert "cert-manager" rules empty

evaluate_example :
    (map result_key
        (evaluate exact_versions (parse_semver exact_versions) (cert_manager ∷ []) "1.30" matrix).0
      ≡ map addon_key (cert_manager ∷ []))
    × ((evaluate exact_versions (parse_semver exact_versions) (cert_manager ∷ []) "1.30" matrix).1
        ≡ count_if blocks
            (evaluate exact_versions
              (parse_semver exact_versions)
              (cert_manager ∷ [])
              "1.30"
              matrix).0)
evaluate_example =
    evaluate_lem exact_versions (parse_semver exact_versions) (cert_manager ∷ []) "1.30" matrix
