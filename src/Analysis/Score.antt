-- ===== src/Analysis/Score.antt =====
-- internal/analysis/score.go: the metrics and conditions of a snapshot, and the four dimensions of
-- its score. A multiplication and the addition after it are rounded one after the other, as Go does
-- where the processor does not fuse them.

pub mod Budget
use mirops.Prelude.{ℕ, ◌+◌, ◌*◌, Bool, true, false, ◌&&◌, ltb, eqb, if◌then◌else◌}
use mirops.Prelude.Int.{ℤ, pos, negsuc, sub_ℕ}
use mirops.Float64.{Float64, of_ℕ, of_ℤ, of_ratio, ◌-F◌, ◌*F◌, ◌/F◌, ltb_F, is_zero, truncate, pow}
use mirops.Cluster.{ClusterSnapshot}
use mirops.Analysis.{Metrics, Conditions}
use mirops.Analysis.Profile.{ScoringProfile}

unfoldable pub non_zero : Float64 → Float64
unfolding of_ℕ is_zero
non_zero v = if is_zero v then of_ℕ 1 else v

unfoldable pub non_zero_int : ℕ → ℕ
non_zero_int v = if eqb v 0 then 1 else v

unfoldable pub pod_drop_ratio : ClusterSnapshot → Float64
unfolding non_zero_int of_ℕ ◌/F◌
pod_drop_ratio snap = elim (sub_ℕ snap.previous_total_pods snap.total_pods) [
  | negsuc _ ↦ of_ℕ 0
  | pos dropped ↦ of_ℕ dropped /F of_ℕ (non_zero_int snap.total_pods)
]

unfoldable pub build_metrics : ClusterSnapshot → Metrics
unfolding pod_drop_ratio non_zero ◌/F◌
build_metrics snap = record {
  pods = record {
    total = snap.total_pods;
    not_ready = snap.not_ready_pods;
    restarts = snap.total_restarts;
    restarting = snap.restarting_pods;
  };
  resources = record {
    cpu_pressure = snap.cpu_requests /F non_zero snap.cpu_capacity;
    memory_pressure = snap.mem_requests /F non_zero snap.mem_capacity;
  };
  stability = record {
    pod_drop_ratio = pod_drop_ratio snap;
    restart_delta = sub_ℕ snap.total_restarts snap.previous_restarts;
  };
  compatibility = record {
    deprecated_apis = snap.deprecated_apis;
    addon_issues = snap.addon_issues;
  };
}

unfoldable pub build_conditions : ClusterSnapshot → Metrics → ScoringProfile → Conditions
unfolding non_zero_int of_ℕ of_ratio ◌/F◌
build_conditions snap m p =
    let not_ready_ratio = of_ℕ m.pods.not_ready /F of_ℕ (non_zero_int m.pods.total) in
    record {
      pdb_blocking = snap.pdb_blocking;
      high_cpu_pressure = ltb_F (of_ratio 9 10) m.resources.cpu_pressure;
      high_memory_pressure = ltb_F (of_ratio 9 10) m.resources.memory_pressure;
      unstable_cluster = ltb 0 m.pods.total && ltb_F p.unstable_warn_pct not_ready_ratio;
      severely_unstable = ltb 0 m.pods.total && ltb_F p.unstable_block_pct not_ready_ratio;
    }

-- The result is not negative.
unfoldable pub clamp : ℤ → ℕ → ℕ
clamp (negsuc _) limit = 0
clamp (pos v) limit = if ltb limit v then limit else v

unfoldable pub cap_penalty : Float64 → Float64 → Float64
unfolding of_ℕ
cap_penalty v limit = if ltb_F v (of_ℕ 0) then of_ℕ 0 else if ltb_F limit v then limit else v

unfoldable pub calc_health : Metrics → ℕ
unfolding clamp non_zero_int of_ℕ ◌-F◌ ◌*F◌ ◌/F◌ truncate
calc_health m =
    let total = of_ℕ (non_zero_int m.pods.total) in
    let not_ready_penalty = of_ℕ m.pods.not_ready /F total *F of_ℕ 15 in
    let restart_penalty = of_ℕ m.pods.restarting /F total *F of_ℕ 10 in
    clamp (truncate (of_ℕ 25 -F not_ready_penalty -F restart_penalty)) 25

unfoldable pub calc_capacity : Metrics → ℕ
unfolding clamp of_ℕ ◌-F◌ ◌*F◌ truncate
calc_capacity m =
    let score =
      of_ℕ 30
      -F (m.resources.cpu_pressure *F of_ℕ 15)
      -F (m.resources.memory_pressure *F of_ℕ 15) in
    clamp (truncate score) 30

unfoldable pub calc_stability : Metrics → ℕ
unfolding clamp cap_penalty non_zero_int of_ℕ of_ℤ of_ratio ◌-F◌ ◌*F◌ ◌/F◌ truncate
calc_stability m =
    let restarting_ratio = of_ℕ m.pods.restarting /F of_ℕ (non_zero_int m.pods.total) in
    let crash_penalty = cap_penalty (restarting_ratio *F of_ℕ 10) (of_ℕ 10) in
    let restart_penalty = cap_penalty (of_ℤ m.stability.restart_delta *F of_ratio 1 2) (of_ℕ 6) in
    let pod_penalty = cap_penalty (m.stability.pod_drop_ratio *F of_ℕ 10) (of_ℕ 4) in
    clamp (truncate (of_ℕ 20 -F crash_penalty -F restart_penalty -F pod_penalty)) 20

-- The number of issues is a whole number, which a float64 holds exactly.
unfoldable pub calc_compatibility : Metrics → ℕ
unfolding clamp of_ℕ of_ratio ◌-F◌ ◌*F◌ pow truncate
calc_compatibility m =
    let issues = m.compatibility.deprecated_apis + 2 * m.compatibility.addon_issues in
    let penalty = of_ℕ 25 *F (of_ℕ 1 -F pow (of_ratio 6 10) issues) in
    clamp (truncate (of_ℕ 25 -F penalty)) 25
