-- ===== src/Collector/Pods.antt =====
-- internal/collector/cluster_collector.go, restart.go and workload_inventory.go: what the collector
-- finds out about one pod.
use mathlib.Core.List.{foldl}
use mirops.Prelude.{
  ℕ, ◌+◌, ◌-◌, ◌*◌, ◌/◌, ◌%◌, ◌^◌, ◌≡◌, refl, String, ◌<>◌, Bool, false, not, ◌||◌, Option, none,
  some, List, [], ◌∷◌, ltb, eqb, min, ◌==◌, string_dec, if◌then◌else◌,
}
use mirops.Prelude.Int.{ℤ, pos, negsuc, sub_ℕ}
use mirops.Prelude.Maps.{Map}
use mirops.Float64.{Float64, of_ℕ, of_ℤ, ◌+F◌, ◌*F◌, ◌/F◌, ltb_F}
use mirops.Collector.Objects.{OwnerReference, Condition, ContainerStatus, Pod}

-- The first condition of the type `Ready` decides.
unfoldable pub ready_condition : List Condition → Bool
ready_condition [] = false
ready_condition (c ∷ rest) =
    let more = ready_condition rest in if c.type == "Ready" then c.status == "True" else more

unfoldable pub is_pod_ready : Pod → Bool
unfolding ready_condition
is_pod_ready pod = ready_condition pod.conditions

-- A reason that is given and not empty.
abbrev pub reason_of : Option String → Option String
reason_of none = none
reason_of (some r) = if r == "" then none else some r

-- Why a container waits, or how it ended: one that was restarted before is crashing.
unfoldable pub container_reason : ContainerStatus → Option String
container_reason cs = elim (reason_of cs.waiting) [
  | some r ↦ some r
  | none ↦ elim (reason_of cs.terminated) [
    | none ↦ none
    | some r ↦ some (if ltb 0 cs.restart_count then "CrashLoopBackOff" else r)
  ]
]

-- The first container that gives a reason.
unfoldable pub first_reason : List ContainerStatus → Option String
unfolding container_reason
first_reason [] = none
first_reason (cs ∷ rest) =
    let more = first_reason rest in elim (container_reason cs) [ some r ↦ some r | none ↦ more ]

unfoldable pub pod_not_ready_reason : Pod → String
unfolding first_reason
pod_not_ready_reason pod = elim (first_reason pod.container_statuses) [
  | some r ↦ r
  | none ↦
      if pod.phase == "Running"
      then "ReadinessProbeFailed"
      else if not (pod.phase == "")
      then pod.phase
      else "NotReady"
]

unfoldable pub total_restarts : List ContainerStatus → ℕ
total_restarts = foldl (λ n cs. n + cs.restart_count) 0

-- internal/collector/restart.go

abbrev pub abnormal_restart_rate_24h : ℕ
abnormal_restart_rate_24h = 10

abbrev is_crash : Option String → Bool
is_crash none = false
is_crash (some r) =
    (r == "CrashLoopBackOff") || ((r == "ImagePullBackOff") || (r == "ErrImagePull"))

abbrev any_crash : List ContainerStatus → Bool
any_crash [] = false
any_crash (cs ∷ rest) = is_crash cs.waiting || any_crash rest

unfoldable pub is_currently_crashing : Pod → Bool
is_currently_crashing pod =
    if not (pod.spec.restart_policy == "Always") then false else any_crash pod.container_statuses

-- A sum in 32 bits with a sign.
unfoldable pub wrap_int32 : ℕ → ℤ
wrap_int32 n = let m = n % 2 ^ 32 in if ltb m (2 ^ 31) then pos m else sub_ℕ m (2 ^ 32)

abbrev hour : ℕ
hour = 3600 * 1000000000

-- `d.Hours()` of a duration, whose nanoseconds are a 64-bit number.
unfoldable pub hours : ℕ → Float64
unfolding of_ℕ ◌+F◌ ◌/F◌
hours d = of_ℕ (d / hour) +F (of_ℕ (d % hour) /F of_ℕ hour)

-- A pod from the future has no age; an age is at most 2^63 - 1 nanoseconds.
abbrev pub age : Pod → ℕ → ℕ
age pod now = min (now - pod.created) (2 ^ 63 - 1)

abbrev is_zero_ℤ : ℤ → Bool
is_zero_ℤ (pos n) = eqb n 0
is_zero_ℤ (negsuc n) = false

unfoldable pub pod_restart_rate_24h : Pod → ℕ → Float64
unfolding is_currently_crashing wrap_int32 hours total_restarts of_ℕ of_ℤ ◌*F◌ ◌/F◌
pod_restart_rate_24h pod now =
    let restarts = wrap_int32 (total_restarts pod.container_statuses) in
    let age_hours = hours (age pod now) in
    let at_least_one = if ltb_F age_hours (of_ℕ 1) then of_ℕ 1 else age_hours in
    if not (is_currently_crashing pod)
    then of_ℕ 0
    else if is_zero_ℤ restarts
    then of_ℕ 0
    else (of_ℤ restarts /F at_least_one) *F of_ℕ 24

unfoldable pub is_restarting_abnormally : Pod → ℕ → Bool
unfolding pod_restart_rate_24h of_ℕ
is_restarting_abnormally pod now =
    not (ltb_F (pod_restart_rate_24h pod now) (of_ℕ abnormal_restart_rate_24h))

-- internal/collector/workload_inventory.go

abbrev pub key2 : String → String → String
key2 namespace name = namespace <> ("/" <> name)

abbrev pub is_direct : String → Bool
is_direct kind = (kind == "StatefulSet") || ((kind == "DaemonSet") || (kind == "Job"))

-- The workload that stands behind a pod: a ReplicaSet's is its Deployment.
unfoldable pub resolve_owners : Map String → String → List OwnerReference → Option (String × String)
resolve_owners rs_to_deploy namespace [] = none
resolve_owners rs_to_deploy namespace (ref ∷ rest) =
    let more = resolve_owners rs_to_deploy namespace rest in
    if ref.kind == "ReplicaSet"
    then elim (rs_to_deploy (key2 namespace ref.name)) [
      | some d ↦ some ("Deployment", d)
      | none ↦ more
    ]
    else if is_direct ref.kind
    then some (ref.kind, ref.name)
    else more

unfoldable pub resolve_workload : Pod → Map String → Option (String × String)
unfolding resolve_owners
resolve_workload pod rs_to_deploy = resolve_owners rs_to_deploy pod.namespace pod.owners

abbrev crashing : List ContainerStatus
crashing =
    record { restart_count = 4; waiting = none; terminated = some "Error" }
    ∷ record { restart_count = 0; waiting = some "ImagePullBackOff"; terminated = none }
    ∷ []

reasons : (first_reason crashing ≡ some "CrashLoopBackOff") × (total_restarts crashing ≡ 4)
unfolding first_reason total_restarts string_dec
reasons = (refl, refl)

wraps : wrap_int32 (2 ^ 32 - 3) ≡ negsuc 2
unfolding wrap_int32
wraps = refl
