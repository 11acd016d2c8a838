-- ===== src/Controller/Upgrade/Reconcile/Returns.antt =====
-- Each call of `Reconcile` ends, and what it does to the cache of answers.
use mathlib.Core.Path.{subst}
use mirops.Prelude.{
  ℕ, sym, String, Option, none, some, Result, ok, err, Option-cases, inl, inr, Bool-cases, ltb,
}
use mirops.Cluster.{ClusterSnapshot}
use mirops.Analysis.{Report}
use mirops.Controller.{Outcome}
use mirops.Controller.Ai.Scoring.{AiCache}
use mirops.Controller.Ai.Scoring.Bounded.{IsBounded, score_with_ai-IsSound}
use mirops.Controller.Upgrade.{version_is_higher}
use mirops.Controller.Upgrade.Verdict.{base_report-returns}
use mirops.Controller.Upgrade.Reconcile.{UpgradeAnalysis, Services, next_round, scope_of}
use mirops.Controller.Upgrade.Reconcile.Steps.{
  State, services, consult, conclude, conclude_if, assess, reject, after_collect, round,
  rest_or_round, visit, after_get, reconcile, load_compat_matrix, counted,
}

module _ (S : Services) where
  -- There is an outcome, and the scores in the cache are at most 100.
  abbrev pub Ends : Option (Outcome × AiCache) → Type 0
  Ends none = ⊥
  Ends (some (o, cache)) = IsBounded cache

  module _ (cache : AiCache) (bounded : IsBounded cache) where
    consult-IsBounded :
        (ua : UpgradeAnalysis) (report : Report) (s : State S)
        → IsBounded (consult S ua report cache s).0.2
    unfolding consult
    consult-IsBounded ua report s = elim (Bool-cases ua.spec.ai_enabled) [
      | inl on ↦
          rw (on, consult)
            (score_with_ai-IsSound (services S) ua.spec.ai ua.name report cache s bounded).1
      | inr off ↦ rw (off, consult) bounded
    ]

    conclude-Ends :
        (ua : UpgradeAnalysis) (snap : ClusterSnapshot) (at : ℕ) (report : Report) (s : State S)
        → Ends (conclude S ua cache snap at report s).0
    unfolding conclude
    conclude-Ends ua snap at report s = consult-IsBounded ua report s

    assess-Ends :
        (ua : UpgradeAnalysis) (snap : ClusterSnapshot) (s : State S)
        → Ends (assess S ua cache snap s).0
    unfolding assess
    assess-Ends ua snap s =
        let (matrix, t) = load_compat_matrix S s in
        let (at, u) = S.client.now t in
        let (before, made, follows, known) =
          base_report-returns S.semver ua.name (S.rfc3339 at) snap ua.spec.target_version
            ua.spec.scoring_profile matrix in
        subst (λ r. Ends (conclude_if S (counted S ua snap matrix) cache snap at r u).0) (sym made)
          (conclude-Ends (counted S ua snap matrix) snap at before u)

    after_collect-Ends :
        (ua : UpgradeAnalysis) (found : Result ClusterSnapshot) (s : State S)
        → Ends (after_collect S ua cache found s).0
    unfolding reject
    after_collect-Ends ua (err e) s = bounded
    after_collect-Ends ua (ok snap) s =
        elim (Bool-cases (version_is_higher ua.spec.target_version snap.cluster_version)) [
          | inl higher ↦ rw (higher) (assess-Ends ua _ s)
          | inr lower ↦ rw (lower) bounded
        ]

    round-Ends : (ua : UpgradeAnalysis) (s : State S) → Ends (round S ua cache s).0
    unfolding round
    round-Ends ua s =
        after_collect-Ends ua (S.collect (scope_of ua.spec) s).0 (S.collect (scope_of ua.spec) s).1

    rest_or_round-Ends :
        (ua : UpgradeAnalysis) (next at : ℕ) (s : State S)
        → Ends (rest_or_round S ua cache next at s).0
    unfolding rest_or_round round
    rest_or_round-Ends ua next at s = elim (Bool-cases (ltb at next)) [
      | inl early ↦ rw (early, rest_or_round) bounded
      | inr due ↦ rw (due, rest_or_round) (round-Ends ua s)
    ]

    visit-Ends : (ua : UpgradeAnalysis) (s : State S) → Ends (visit S ua cache s).0
    unfolding visit
    visit-Ends ua s = elim (Option-cases (next_round ua)) [
      | inl now ↦ rw (now, visit) (round-Ends ua s)
      | inr (next, resting) ↦
          rw (resting, visit) (rest_or_round-Ends ua next (S.client.now s).0 (S.client.now s).1)
    ]

    -- Every call of `Reconcile` ends with an outcome, whatever the API server, the provider of the
    -- language model and the destination of the report answer. If the scores in the cache of
    -- answers are at most 100, they are so after it.
    pub reconcile-Ends : (name : String) (s : State S) → Ends (reconcile S name cache s).0
    unfolding reconcile
    reconcile-Ends name s = go (S.get_analysis name s).0 (S.get_analysis name s).1
      where
        go :
            (found : Result (Option UpgradeAnalysis)) (t : State S)
            → Ends (after_get S cache found t).0
        go (err e) t = bounded
        go (ok none) t = bounded
        go (ok (some ua)) t = visit-Ends ua t
