-- ===== src/Lib.antt =====
-- Verification of the mirops operator: what it makes of a cluster snapshot, and what it does to
-- the cluster.
--
-- The program. A collector fills a snapshot of a Kubernetes cluster (internal/collector/model.go).
-- The graph package turns it into components and dependencies, propagates risk along them and lists
-- what is at risk. The compat package says which detected add-ons support the target version. The
-- analysis package scores the snapshot, takes the decision and assembles two reports: that of an
-- upgrade and that of the mirror. The controllers run these steps, ask a language model for a
-- second score, publish the reports, and run the remediation plans that a user approves.
--
-- The files.
--   Prelude and its children: Boolean tests, results, loops, lists, text, signed integers, Go's
--     maps and sorts.
--   Float64: float64 arithmetic, rounded as IEEE 754 prescribes, on finite values.
--   Cluster: internal/collector/model.go.
--   Collector: the status texts of internal/collector/workload_inventory.go. Collector.Objects: the
--     objects of the Kubernetes API that the collector reads, and its requests; Collector.Pods:
--     isPodReady, podNotReadyReason and restart.go; Collector.Specs: what is read of pod templates;
--     Collector.Addons: addon_detector.go; Collector.Walk: the walk over the pods in Collect of
--     cluster_collector.go; Collector.Inventory, its children and Collector.Fill: what the collections of
--     cluster_collector.go, network_collector.go and workload_inventory.go add to the snapshot;
--     Collector.Collect: Collect and its requests in their order. Proofs: Collector.Kept (a
--     property that each step keeps holds of the snapshot), Consistent, Scoped and Grouped.
--   Graph: internal/graph/component.go; Graph.Build: build.go (BuildFromSnapshot); Graph.Risk:
--     risk.go (ApplyRisk, baseRisk, aggregateByNamespace); Graph.AtRisk: atrisk.go (AtRisk,
--     Dependents). Their children hold the proofs.
--   Compat: internal/compat/matrix.go and evaluate.go (LoadMatrix, Evaluate); Compat.Version:
--     parseSemver.
--   Analysis: internal/analysis/report.go; Analysis.Profile: profile.go; Analysis.Score,
--     Analysis.Issues, Analysis.Reason, Analysis.Workloads, Analysis.Calculate and Analysis.Gate:
--     score.go (the metrics and dimensions, buildIssues, buildReason, buildWorkloads, Calculate and
--     ApplyAIScore, ApplyGraphDecision); Analysis.Mirror: mirror_report.go.
--   Controller.Remediation: api/v1/remediationplan_types.go and the client; its children Actions,
--     Plans and Proposals: internal/controller/remediationplan_controller.go (executeAction and
--     what it calls, Reconcile, createRemediationPlan).
--   Controller.Ai: internal/controller/ai_scorer.go. Its children are Context (writeGraphContext),
--     Prompt (buildAIPrompt), Answers (parseAIResponse, formatAPIError), Scoring (scoreWithAI, its
--     calls and the cache of answers) and Errors (classifyAIError).
--   Controller.Upgrade: upgradeanalysis_controller.go (majorMinor, versionIsHigher, upgradeImpact,
--     and the steps from the snapshot to the finished report); Controller.Upgrade.Reconcile and its
--     child Steps: api/v1/upgradeanalysis_types.go and Reconcile, request by request.
--   Controller.Paths: what is used of path/filepath. Controller.Reports: reportdest.go and the
--     locations of internal/exporter; Controller.Reports.Server: reportserver.go.
--   Controller.Mirror: api/v1/clustermirror_types.go; Controller.Mirror.Rebuild:
--     clustermirror_controller.go.
--   Examples: a small cluster, API servers with one plan, one analysis or one mirror, and each
--     theorem applied to them.
--
-- How the code is read. A Go map is a function into Option; a Go method that changes its receiver
-- returns the new one. Counts are natural numbers; what may be negative is an integer. Loops over a
-- slice are recursion on the list. Two loops run on fuel: `compute` calls itself on components that
-- are not being visited, so it needs one round more than the graph has nodes and edge ends
-- (`risk_fuel`), and the walk to the dependents takes a component off its queue in each round, so it
-- needs one round for each edge and two more (`walk_fuel`). That this is enough is part of the
-- theorems: they say that a result is returned.
--
-- Parameters. The packages blang/semver, sigs.k8s.io/yaml, encoding/json and crypto/sha256 are
-- arguments of the definitions that use them. The requests to the API server, to the providers of
-- language models and to the providers of storage are fields of records over a state that they may
-- change: `Api` of the collector, `Client` of the plans, `AiServices` of the score, `Services` of
-- the analyses, `MirrorServices` of the mirrors and `Reads` of the server of reports. What is
-- assumed of the API server for the plans are the records `PlanStore` and `SpecUpdates`, and for
-- the reports of mirrors `KeepsReports`. The collector is an interface of the controllers, and so
-- it is a field of their records. The text of a time is a parameter too.
--
-- Not modelled: the transfers of the exporters (input and output), the installation of the resource
-- definitions, the registration of the controllers, the entry points, and the generated copies.
-- Where `sort.Slice` leaves the order of equal elements open, they keep their order.
-- `unicode.ToLower` is followed as far as its result can be a letter from a to z. A quoted name
-- (`%q`) is taken to need no escapes. A wait of a negative time asks for no next round. The
-- arithmetic of float64 leaves out infinities, NaN and fused multiplication and addition.
pub mod Prelude
pub mod Float64
pub mod Cluster
pub mod Collector
pub mod Graph
pub mod Compat
pub mod Analysis
pub mod Controller
pub mod Examples
