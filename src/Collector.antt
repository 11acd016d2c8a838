-- ===== src/Collector.antt =====
-- internal/collector/workload_inventory.go: the texts in which the collector states how a workload
-- is doing. Of a job the code reads its counts and conditions, which Kubernetes declares.
pub mod Status
pub mod Objects
pub mod Pods
pub mod Specs
pub mod Addons
pub mod Walk
pub mod Inventory
pub mod Fill
pub mod Collect
pub mod Outcomes
pub mod Kept
pub mod Consistent
pub mod Grouped
pub mod Scoped
use mirops.Prelude.{
  ℕ, String, ◌<>◌, Bool, true, false, ◌&&◌, List, [], ◌∷◌, ltb, leb, eqb, ◌==◌, if◌then◌else◌,
}
use mirops.Prelude.Text.{decimal}
use mirops.Cluster.{job_status_active, job_status_failed, job_status_completed, job_status_pending}

unfoldable pub replica_status : ℕ → ℕ → String
unfolding decimal
replica_status ready desired =
    if eqb desired 0
    then "Scaled to zero"
    else if leb desired ready
    then "Healthy"
    else if eqb ready 0
    then "Down"
    else "Degraded (" <> (decimal ready <> ("/" <> (decimal desired <> ")")))

pub record JobCondition : Type 0 where
  pub type : String
  pub status : String
  pub reason : String

pub record Job : Type 0 where
  pub active : ℕ
  pub succeeded : ℕ
  pub conditions : List JobCondition

abbrev pub is_failure : JobCondition → Bool
is_failure c = (c.type == "Failed") && (c.status == "True")

unfoldable pub job_failed_reason : List JobCondition → Bool × String
job_failed_reason [] = (false, "")
job_failed_reason (c ∷ rest) =
    let more = job_failed_reason rest in
    if is_failure c then (true, if c.reason == "" then "Failed" else c.reason) else more

unfoldable pub job_status : Job → String
unfolding job_failed_reason
job_status j =
    if (job_failed_reason j.conditions).0
    then job_status_failed
    else if ltb 0 j.active
    then job_status_active
    else if ltb 0 j.succeeded
    then job_status_completed
    else job_status_pending
