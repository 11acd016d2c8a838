-- ===== src/Analysis/Profile.antt =====
-- internal/analysis/profile.go: the thresholds of a scoring profile.
use mirops.Prelude.{ℕ, String, ◌==◌, if◌then◌else◌}
use mirops.Float64.{Float64, of_ratio}

pub record ScoringProfile : Type 0 where
  pub name : String
  pub unstable_warn_pct : Float64
  pub unstable_block_pct : Float64
  pub safe_threshold : ℕ

abbrev pub profile_production : String
profile_production = "production"

abbrev pub profile_non_production : String
profile_non_production = "non-production"

unfoldable pub production : ScoringProfile
unfolding of_ratio
production = record {
  name = profile_production;
  unstable_warn_pct = of_ratio 5 100;
  unstable_block_pct = of_ratio 30 100;
  safe_threshold = 90;
}

unfoldable pub non_production : ScoringProfile
unfolding of_ratio
non_production = record {
  name = profile_non_production;
  unstable_warn_pct = of_ratio 15 100;
  unstable_block_pct = of_ratio 60 100;
  safe_threshold = 85;
}

-- An empty or unknown name is scored as production.
unfoldable pub profile_for : String → ScoringProfile
unfolding production non_production
profile_for name = if name == profile_non_production then non_production else production
