-- ===== src/Analysis/Gate/Levels.antt =====
-- The levels that a decision may have.
use mirops.Prelude.{ℕ, ◌≡◌, ◌≢◌, refl, String, [], ◌∷◌, List, ◌⊎◌, inl, inr, arith}
use mirops.Cluster.{ClusterSnapshot}
use mirops.Analysis.{Report, Conditions}
use mirops.Analysis.Profile.{ScoringProfile, profile_for}
use mirops.Analysis.Calculate.{
  level_safe, level_warning, level_critical, decide, calculate, apply_ai_score,
}
use mirops.Analysis.Gate.{collect_blockers, enforce, apply_graph_decision}

abbrev pub IsLevel : String → Type 0
IsLevel level = (level ≡ level_safe) ⊎ (level ≡ level_warning) ⊎ (level ≡ level_critical)

decide-IsLevel : (total : ℕ) (c : Conditions) (p : ScoringProfile) → IsLevel (decide total c p).0
unfolding decide
decide-IsLevel total c p = ground arith

pub calculate-IsLevel :
    (snap : ClusterSnapshot) (target_version profile_name : String)
    → IsLevel (calculate snap target_version profile_name).decision.level
unfolding calculate
calculate-IsLevel snap target_version profile_name =
    let r = calculate snap target_version profile_name in
    decide-IsLevel r.scores.total r.conditions (profile_for profile_name)

pub apply_ai_score-IsLevel :
    (r : Report) (ai_score : ℕ) (reasoning model profile_name : String)
    → IsLevel (apply_ai_score r ai_score reasoning model profile_name).decision.level
unfolding apply_ai_score
apply_ai_score-IsLevel r ai_score reasoning model profile_name =
    decide-IsLevel (apply_ai_score r ai_score reasoning model profile_name).scores.total
      r.conditions (profile_for profile_name)

pub apply_graph_decision-IsLevel :
    (r : Report) → IsLevel r.decision.level → IsLevel (apply_graph_decision r).decision.level
unfolding apply_graph_decision
apply_graph_decision-IsLevel r h = go (collect_blockers r)
  where
    go : (bs : List String) → IsLevel (enforce r bs).decision.level
    go [] = h
    go (b ∷ bs) = inr (inr refl)

pub IsLevel-not_error : (level : String) → IsLevel level → level ≢ "ERROR"
IsLevel-not_error level (inl safe) e = cc
IsLevel-not_error level (inr (inl warning)) e = cc
IsLevel-not_error level (inr (inr critical)) e = cc
