-- ===== src/Controller/Upgrade/Reconcile/Settles.antt =====
-- internal/controller/upgradeanalysis_controller.go, `Reconcile`: how a round ends after its snapshot
-- was collected, with a refused target or with a report.
use mathlib.Core.Path.{subst}
use mirops.Prelude.{
  ◌≡◌, ◌≢◌, ◌⊎◌, inl, inr, String, Bool-cases, refl, sym, ap, true, false, Option, none, some,
  if◌then◌else◌, ok,
}
use mirops.Cluster.{ClusterSnapshot}
use mirops.Analysis.Gate.Levels.{IsLevel, IsLevel-not_error}
use mirops.Controller.{Outcome, done}
use mirops.Controller.Ai.Scoring.{AiCache}
use mirops.Controller.Upgrade.{version_is_higher}
use mirops.Controller.Upgrade.Verdict.{analyze-IsLevel}
use mirops.Controller.Upgrade.Reconcile.{
  UpgradeAnalysis, Services, scope_of, with_previous, rejected, outcome_of,
}
use mirops.Controller.Upgrade.Reconcile.Steps.{
  State, noted, publish, assess, after_collect, reject, round,
}
use mirops.Controller.Upgrade.Reconcile.Decides.{assess-Writes}

module _ (S : Services) (ua : UpgradeAnalysis) (cache : AiCache) (snap : ClusterSnapshot)
    (t : State S) where
  -- The end of a round that has refused the target: nothing but the clock was asked for before the
  -- write, the cache is as it was, and no next round is asked for.
  abbrev pub Refused : UpgradeAnalysis → State S → Option (Outcome × AiCache) → Type 0
  Refused written w result =
      (written.status.decision ≡ "ERROR")
      × (version_is_higher ua.spec.target_version snap.cluster_version ≡ false)
      × (w ≡ (S.client.now t).1)
      × (written.status.last_analysis_time ≡ some (S.client.now t).0)
      × (written.status.observed_generation ≡ ua.status.observed_generation)
      × (result
          ≡ some (record { requeue_after = none; error = (S.update_analysis written w).0 }, cache))

  -- The end of a round with a report.
  abbrev pub Assessed : UpgradeAnalysis → Type 0
  Assessed written =
      IsLevel written.status.decision
      × (written.status.decision ≢ "ERROR")
      × (version_is_higher ua.spec.target_version snap.cluster_version ≡ true)
      × (written.status.observed_generation ≡ ua.generation)

  abbrev pub EndsRound : Option (Outcome × AiCache) × State S → Type 0
  EndsRound end =
      (written : UpgradeAnalysis) × (w : State S) × (end.1 ≡ (S.update_analysis written w).1)
      × (Refused written w end.0 ⊎ Assessed written)

  refusal_outcome :
      (e : Option String) → outcome_of done e ≡ record { requeue_after = none; error = e }
  refusal_outcome none = refl
  refusal_outcome (some e) = refl

  reject-Ends :
      version_is_higher ua.spec.target_version snap.cluster_version ≡ false
      → EndsRound (reject S ua cache (with_previous ua.status snap) t)
  unfolding reject
  reject-Ends lower =
      let (at, u) = S.client.now t in
      let written = rejected ua (with_previous ua.status snap) at in
      (
        written,
        u,
        refl,
        inl (
          refl,
          lower,
          refl,
          refl,
          refl,
          ap (λ o. some (o, cache)) (refusal_outcome (S.update_analysis written u).0),
        ),
      )

  assess-Ends :
      version_is_higher ua.spec.target_version snap.cluster_version ≡ true
      → EndsRound (assess S ua cache (with_previous ua.status snap) t)
  assess-Ends higher =
      let snap' = with_previous ua.status snap in
      let (
        before, r, noted, written, w, made, analyzed, its, state_after, name, spec, last, shows,
        state, error, level,
      ) =
        assess-Writes S ua cache snap' t in
      let known = analyze-IsLevel S.semver _ _ _ _ _ _ _ r analyzed in
      let decided : IsLevel written.status.decision = subst IsLevel (sym shows.0) known in
      (
        written,
        (publish S noted r w).1,
        last,
        inr (decided, IsLevel-not_error _ decided, higher, shows.6),
      )

-- After a collected snapshot a round always ends with a write of the status. Either the target is
-- not higher than the cluster's version: then the decision is ERROR, nothing but the clock was asked
-- for before the write, the cache and the observed generation are as they were, and no next round is
-- asked for, with the error of the write if it failed. Or the target is higher: then the decision is
-- SAFE, WARNING or CRITICAL, and never ERROR, and the generation counts as analysed.
pub round-Ends :
    (S : Services) (ua : UpgradeAnalysis) (cache : AiCache) (snap : ClusterSnapshot) (s t : State S)
    → S.collect (scope_of ua.spec) s ≡ (ok snap, t)
    → EndsRound S ua cache snap t (round S ua cache s)
unfolding round
round-Ends S ua cache snap s t collected =
    let snap' = with_previous ua.status snap in
    subst (EndsRound S ua cache snap t)
      (sym (ap (λ found. after_collect S ua cache found.0 found.1) collected))
      (elim (Bool-cases (version_is_higher ua.spec.target_version snap.cluster_version)) [
        | inl higher ↦
            subst (EndsRound S ua cache snap t)
              (sym (
                ap (λ b. (if b then assess S ua cache snap' else reject S ua cache snap') t)
                  higher))
              (assess-Ends S ua cache snap t higher)
        | inr lower ↦
            subst (EndsRound S ua cache snap t)
              (sym (
                ap (λ b. (if b then assess S ua cache snap' else reject S ua cache snap') t) lower))
              (reject-Ends S ua cache snap t lower)
      ])
