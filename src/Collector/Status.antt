-- ===== src/Collector/Status.antt =====
-- The collector's status texts, as the risk engine reads them.
use text.Mathlib.Text.{starts_with}
use mathlib.Core.Path.{subst}
use text.Mathlib.TextLemmas.{append_assoc}
use text.Mathlib.TextPositions.{starts_with-append}
use mirops.Prelude.{
  ℕ, ◌≡◌, refl, sym, ap, ◌∙◌, String, ◌<>◌, Bool, true, false, List, [], ◌∷◌, ltb, leb, eqb, ◌==◌,
  eq_of_==, string_dec, if◌then◌else◌, Bool-cases, inl, inr, count_if, arith,
}
use mirops.Prelude.Text.{decimal}
use mirops.Prelude.Maps.{Map}
use mirops.Graph.{Component, workload}
use mirops.Graph.Risk.{base_risk, workload_risk}
use mirops.Collector.{Job, JobCondition, replica_status, is_failure, job_failed_reason, job_status}

abbrev pub with_status : Component → String → Component
with_status c status = record c { type = workload; status = status }

degraded : (rest : String) → starts_with ("Degraded (" <> rest) "Degraded" ≡ true
degraded rest =
    subst (λ text. starts_with text "Degraded" ≡ true) (sym (append_assoc "Degraded" " (" rest))
      (starts_with-append "Degraded" (" (" <> rest))

other_text :
    (s t : String)
    → starts_with s "Degraded" ≡ true
    → starts_with t "Degraded" ≡ false
    → (s == t) ≡ false
other_text s t h k = elim (Bool-cases (s == t)) [ inl e ↦ cc (h, k, eq_of_== s t e) | inr e ↦ e ]

degraded_risk : (s : String) → starts_with s "Degraded" ≡ true → workload_risk s ≡ 40
unfolding workload_risk
degraded_risk s h =
    rw (other_text s "Down" h refl, other_text s "Failed" h refl, h, workload_risk) refl

known_risks :
    (workload_risk "Scaled to zero" ≡ 10)
    × (workload_risk "Healthy" ≡ 0)
    × (workload_risk "Down" ≡ 70)
unfolding workload_risk string_dec
known_risks = (refl, refl, refl)

risk_of_choice :
    (none_wanted all_ready none_ready : Bool) (some_ready : String)
    → workload_risk some_ready ≡ 40
    → workload_risk (
        if none_wanted
        then "Scaled to zero"
        else if all_ready
        then "Healthy"
        else if none_ready
        then "Down"
        else some_ready)
      ≡ (if none_wanted then 10 else if all_ready then 0 else if none_ready then 70 else 40)
risk_of_choice true a n s h = known_risks.0
risk_of_choice false true n s h = known_risks.1
risk_of_choice false false true s h = known_risks.2
risk_of_choice false false false s h = h

-- The status that the collector writes for a workload's replicas is one that the risk engine
-- understands: the workload's own risk is 10 if no replicas are wanted, 0 if all are ready, 70 if
-- none is ready and 40 if some are.
pub replica_status-base_risk :
    (c : Component) (addon_status : Map String) (ready desired : ℕ)
    → base_risk (with_status c (replica_status ready desired)) addon_status ≡ (
        if eqb desired 0
        then 10
        else if leb desired ready
        then 0
        else if eqb ready 0
        then 70
        else 40)
unfolding base_risk replica_status
replica_status-base_risk c addon_status ready desired =
    risk_of_choice (eqb desired 0) (leb desired ready) (eqb ready 0) _
      (degraded_risk _ (degraded (decimal ready <> ("/" <> (decimal desired <> ")")))))

job_risks :
    (workload_risk "Failed" ≡ 70)
    × (workload_risk "Active" ≡ 0)
    × (workload_risk "Completed" ≡ 0)
    × (workload_risk "Pending" ≡ 0)
unfolding workload_risk string_dec
job_risks = (refl, refl, refl, refl)

job_failed_reason_lem :
    (cs : List JobCondition) → (job_failed_reason cs).0 ≡ ltb 0 (count_if is_failure cs)
unfolding job_failed_reason
job_failed_reason_lem [] = refl
job_failed_reason_lem (c ∷ cs) = elim (Bool-cases (is_failure c)) [
  | inl e ↦ rw (e, job_failed_reason, count_if) (ground arith)
  | inr e ↦ rw (e, job_failed_reason, count_if) (job_failed_reason_lem cs)
]

risk_of_job :
    (failed active succeeded : Bool)
    → workload_risk (
        if failed
        then "Failed"
        else if active
        then "Active"
        else if succeeded
        then "Completed"
        else "Pending")
      ≡ (if failed then 70 else 0)
risk_of_job true a s = job_risks.0
risk_of_job false true s = job_risks.1
risk_of_job false false true = job_risks.2
risk_of_job false false false = job_risks.3

-- The risk engine gives a job an own risk of 70 if one of its conditions says that it failed, and
-- of 0 otherwise: a job that is running, done or waiting is no risk.
pub job_status-base_risk :
    (c : Component) (addon_status : Map String) (j : Job)
    → base_risk (with_status c (job_status j)) addon_status
      ≡ (if ltb 0 (count_if is_failure j.conditions) then 70 else 0)
unfolding base_risk job_status
job_status-base_risk c addon_status j =
    risk_of_job (job_failed_reason j.conditions).0 (ltb 0 j.active) (ltb 0 j.succeeded)
    ∙ ap (λ b. if b then 70 else 0) (job_failed_reason_lem j.conditions)
