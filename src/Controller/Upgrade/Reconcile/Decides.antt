-- ===== src/Controller/Upgrade/Reconcile/Decides.antt =====
-- What an analysis writes into the status.
use mirops.Prelude.{
  ℕ, Bool, ◌≡◌, ◌↔◌, refl, sym, ap, ◌∙◌, true, false, Option, none, some, if◌then◌else◌, Result, ok,
  err, if_cases,
}
use mirops.Cluster.{ClusterSnapshot}
use mirops.Compat.{Matrix}
use mirops.Analysis.{Report}
use mirops.Analysis.Calculate.{level_critical}
use mirops.Analysis.Gate.{apply_graph_decision}
use mirops.Analysis.Gate.Exact.{HasBlocker}
use mirops.Controller.{Outcome}
use mirops.Controller.Ai.Answers.{AiResult}
use mirops.Controller.Ai.Scoring.{AiCache, score_with_ai}
use mirops.Controller.Upgrade.{AiAnswer, blend, base_report, analyze}
use mirops.Controller.Upgrade.Verdict.{analyze-decides}
use mirops.Controller.Upgrade.Reconcile.{
  UpgradeAnalysis, UpgradeStatus, Services, model_name, concluded,
}
use mirops.Controller.Upgrade.Reconcile.Steps.{
  State, services, noted, consult, publish, conclude, conclude_if, assess, counted,
  load_compat_matrix,
}

some_injective : (q r : Report) → some q ≡ some r → q ≡ r
some_injective q r e = cc

-- The analysis is the same but for its status.
abbrev IsKept : UpgradeAnalysis → UpgradeAnalysis → Type 0
IsKept ua noted =
    (noted.generation ≡ ua.generation) × (noted.name ≡ ua.name) × (noted.spec ≡ ua.spec)

noted-IsKept :
    (S : Services) (ua : UpgradeAnalysis) (result : Result AiResult) → IsKept ua (noted S ua result)
noted-IsKept S ua (err e) = (refl, refl, refl)
noted-IsKept S ua (ok r) = (refl, refl, refl)

abbrev Consulted : Services → Type 0
Consulted S = (UpgradeAnalysis × Option AiAnswer × AiCache) × State S

consult_kept :
    (S : Services) (ua : UpgradeAnalysis) (cache : AiCache) (report : Report) (s : State S)
    → IsKept ua (consult S ua report cache s).0.0
unfolding consult
consult_kept S ua cache report s =
    if_cases {A = Consulted S} (λ p. IsKept ua p.0.0) ua.spec.ai_enabled _ _
      (λ on. noted-IsKept S ua _) (λ off. (refl, refl, refl))

if_answer :
    (S : Services) (b : Bool) (x y : Consulted S)
    → (if b then x else y).0.1 ≡ (if b then x.0.1 else y.0.1)
if_answer S true x y = refl
if_answer S false x y = refl

module _ (S : Services) (ua : UpgradeAnalysis) (cache : AiCache) (snap : ClusterSnapshot)
    (s : State S) where
  abbrev matrix_read : Matrix
  matrix_read = (load_compat_matrix S s).0

  abbrev clock : ℕ
  clock = (S.client.now (load_compat_matrix S s).1).0

  -- The state in which the model is asked.
  abbrev asked_at : State S
  asked_at = (S.client.now (load_compat_matrix S s).1).1

  -- What the model answers on a report, if it is enabled and its score is accepted.
  abbrev spoken : Result AiResult → Option AiAnswer
  spoken (err e) = none
  spoken (ok r) =
      some (record { score = r.score; reasoning = r.reasoning; model = model_name ua.spec.ai })

  abbrev pub ask : Report → Option AiAnswer
  ask report =
      if ua.spec.ai_enabled
      then spoken (score_with_ai (services S) ua.spec.ai ua.name report cache asked_at).0.0
      else none

  -- The status shows the report.
  abbrev pub Shows : UpgradeStatus → Report → Type 0
  Shows status r =
      (status.decision ≡ r.decision.level)
      × (status.total_score ≡ r.scores.total)
      × (status.ai_score ≡ r.scores.ai.score)
      × (status.ai_reasoning ≡ r.ai_reasoning)
      × (status.reason ≡ r.reason)
      × (status.last_analysis_time ≡ some clock)
      × (status.observed_generation ≡ ua.generation)
      × (status.last_total_pods ≡ snap.total_pods)
      × (status.last_total_restarts ≡ snap.total_restarts)

  -- What is noted of the model's answer on a report, and the state after the model was asked.
  abbrev pub consulted : Report → (UpgradeAnalysis × Option AiAnswer × AiCache) × State S
  consulted report = consult S (counted S ua snap matrix_read) report cache asked_at

  -- The report `r` that the analysis makes with the model's answer is published, and then the last
  -- request writes a status that shows the same report.
  abbrev pub Writes : Option (Outcome × AiCache) × State S → Type 0
  Writes end =
      (before r : Report) × (noted written : UpgradeAnalysis) × (w : State S) × (base_report
          S.semver ua.name (S.rfc3339 clock) snap ua.spec.target_version ua.spec.scoring_profile
          matrix_read
        ≡ some before)
      × (analyze S.semver ask ua.name (S.rfc3339 clock) snap ua.spec.target_version
            ua.spec.scoring_profile matrix_read
          ≡ some r)
      × (noted ≡ (consulted before).0.0)
      × (w ≡ (consulted before).1)
      × (noted.name ≡ ua.name)
      × (noted.spec ≡ ua.spec)
      × (end.1 ≡ (S.update_analysis written (publish S noted r w).1).1)
      × Shows written.status r
      × (written.status.report_state ≡ (publish S noted r w).0.report_state)
      × (written.status.report_error ≡ (publish S noted r w).0.report_error)
      × (written.status.decision ≡ level_critical ↔ HasBlocker before)

  analyzed_from :
      (before : Report) (ask : Report → Option AiAnswer)
      → base_report S.semver ua.name
          (S.rfc3339 clock)
          snap
          ua.spec.target_version
          ua.spec.scoring_profile
          matrix_read
        ≡ some before
      → analyze S.semver ask ua.name
          (S.rfc3339 clock)
          snap
          ua.spec.target_version
          ua.spec.scoring_profile
          matrix_read
        ≡ some (apply_graph_decision (blend (ask before) ua.spec.scoring_profile before))
  unfolding analyze
  analyzed_from before ask made = rw (made) refl

  consult-ask :
      (report : Report)
      → (consult S (counted S ua snap matrix_read) report cache asked_at).0.1 ≡ ask report
  unfolding consult
  consult-ask report = if_answer S ua.spec.ai_enabled _ _

  pub assess-Writes : Writes (assess S ua cache snap s)
  unfolding assess conclude
  assess-Writes =
      let start = counted S ua snap matrix_read in
      let (before, r, made, analyzed, allow, level, cleared) =
        analyze-decides S.semver ua.name (S.rfc3339 clock) snap ua.spec.target_version
          ua.spec.scoring_profile matrix_read ask in
      let ((ua', answer, cache'), w) = consult S start before cache asked_at in
      let final = apply_graph_decision (blend answer ua.spec.scoring_profile before) in
      let same : r ≡ final =
        some_injective r _ (sym analyzed ∙ analyzed_from before ask made)
        ∙ ap (λ a. apply_graph_decision (blend a ua.spec.scoring_profile before))
            (sym (consult-ask before)) in
      let (generation, name, spec) = consult_kept S start cache before asked_at in
      let written : UpgradeAnalysis =
        concluded (record ua' { status = (publish S ua' r w).0 }) r snap clock in
      (
        before,
        r,
        ua',
        written,
        w,
        made,
        analyzed,
        refl,
        refl,
        name,
        spec,
        ap (λ b. (conclude_if S start cache snap clock b asked_at).1) made
            ∙ ap
                (λ q.
                  (S.update_analysis
                    (concluded (record ua' { status = (publish S ua' q w).0 }) q snap clock)
                    (publish S ua' q w).1).1)
                (sym same),
        (refl, refl, refl, refl, refl, refl, generation, refl, refl),
        refl,
        refl,
        level,
      )
