-- ===== src/Controller/Upgrade/Reconcile/Rests.antt =====
-- The wait between two analyses.
use mirops.Prelude.{
  ℕ, ◌+◌, ◌<◌, ◌≡◌, ◌≢◌, refl, ap, ◌∙◌, String, Bool, true, false, ◌&&◌, Option, none, some, ltb,
  leb, ◌-◌, Bool-cases, eqb, ◌==◌, if◌then◌else◌, ok, arith, ◌⊎◌, inl, inr,
}
use mirops.Prelude.Int.{ℤ, pos, negsuc, sub_ℕ}
use mirops.Prelude.Maps.{get_or}
use mirops.Cluster.{ClusterSnapshot}
use mirops.Analysis.{Report}
use mirops.Controller.{Outcome}
use mirops.Controller.Ai.Scoring.{AiCache}
use mirops.Controller.Upgrade.Reconcile.{
  UpgradeAnalysis, Services, refresh_annotation, is_current, due, next_round, wait, concluded,
}
use mirops.Controller.Upgrade.Reconcile.Steps.{State, rest_or_round, round, visit, reconcile}

same_test : (g : ℕ) (x : String) → (eqb g g && (x == x)) ≡ true
same_test g x = ground arith

-- An analysis that has just been concluded is due again after the interval.
concluded-next_round :
    (ua : UpgradeAnalysis) (report : Report) (snap : ClusterSnapshot) (at n : ℕ)
    → ua.spec.resync_interval ≡ pos n
    → 0 < n
    → next_round (concluded ua report snap at) ≡ some (at + n)
unfolding next_round
concluded-next_round ua report snap at n interval positive =
    let up : ltb 0 n ≡ true = ground arith in
    let current : is_current (concluded ua report snap at) ≡ true =
      same_test ua.generation (get_or ua.annotations refresh_annotation "") in
    ap (λ z. due z (some at) (is_current (concluded ua report snap at))) interval
    ∙ ap (λ b. if ltb 0 n && b then some (at + n) else none) current
    ∙ ap (λ b. if b && true then some (at + n) else none) up

-- A change of the generation, or of the annotation that asks for a refresh, makes it due at once.
abbrev IsChanged : UpgradeAnalysis → Type 0
IsChanged ua =
    (ua.generation ≢ ua.status.observed_generation)
    ⊎ (get_or ua.annotations refresh_annotation "" ≢ ua.status.last_refresh)

differs : (ua : UpgradeAnalysis) → IsChanged ua → is_current ua ≡ false
differs ua (inl generation) = ground arith
differs ua (inr refresh) = ground arith

never-if : (n t : ℕ) (b : Bool) → (if b && false then some (t + n) else none) ≡ none
never-if n t true = refl
never-if n t false = refl

never : (z : ℤ) (last : Option ℕ) → due z last false ≡ none
never (negsuc n) last = refl
never (pos n) none = refl
never (pos n) (some t) = never-if n t (ltb 0 n)

changed-next_round : (ua : UpgradeAnalysis) → IsChanged ua → next_round ua ≡ none
unfolding next_round
changed-next_round ua changed =
    let late : is_current ua ≡ false = differs ua changed in
    ap (due ua.spec.resync_interval ua.status.last_analysis_time) late
    ∙ never ua.spec.resync_interval ua.status.last_analysis_time

-- A call after a time, or none.
abbrev after_if : Bool → ℕ → Outcome
after_if b n = record { requeue_after = if b then some n else none; error = none }

wait_lem : (next later : ℕ) → wait (sub_ℕ next later) ≡ after_if (ltb later next) (next - later)
wait_lem next later = elim (Bool-cases (leb later next)) [
  | inl down ↦
      let same : ltb 0 (next - later) ≡ ltb later next = ground arith in
      rw (down) (ap (λ b. after_if b (next - later)) same)
  | inr up ↦ let over : ltb later next ≡ false = ground arith in rw (up, over) refl
]

module _ (S : Services) (name : String) (cache : AiCache) (s t : State S) where
  -- An analysis that has been concluded is left alone until its interval has passed: if the object
  -- that is read is as the last analysis wrote it, and the clock is before the time of that analysis
  -- and the interval, then `Reconcile` makes no request but a second look at the clock and keeps the
  -- cache. If the interval has not passed at the second look either, it asks to be called again
  -- when the rest of the interval has passed; if it has, it asks for no further call.
  pub reconcile-rests :
      (ua : UpgradeAnalysis) (report : Report) (snap : ClusterSnapshot) (at n when later : ℕ)
      (u v : State S)
      → ua.spec.resync_interval ≡ pos n
      → 0 < n
      → S.get_analysis name s ≡ (ok (some (concluded ua report snap at)), t)
      → S.client.now t ≡ (when, u)
      → when < at + n
      → S.client.now u ≡ (later, v)
      → reconcile S name cache s ≡ (
        some (
          record {
            requeue_after = if ltb later (at + n) then some (at + n - later) else none;
            error = none;
          },
          cache,
        ),
        v,
      )
  unfolding reconcile visit rest_or_round
  reconcile-rests ua report snap at n when later u v interval positive got clock early clock' =
      let soon : ltb when (at + n) ≡ true = ground arith in
      rw
        (
          got,
          visit,
          concluded-next_round ua report snap at n interval positive,
          clock,
          rest_or_round,
          soon,
          clock',
          wait_lem (at + n) later,
        )
        refl

  -- A changed specification, and a changed annotation for a refresh, lead to an analysis at once,
  -- whatever is left of the interval.
  reconcile-refreshes :
      (ua : UpgradeAnalysis)
      → IsChanged ua
      → S.get_analysis name s ≡ (ok (some ua), t)
      → reconcile S name cache s ≡ round S ua cache t
  unfolding reconcile visit
  reconcile-refreshes ua changed got = rw (got, visit, changed-next_round ua changed) refl
