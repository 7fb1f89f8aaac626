-- ===== src/Lib.antt =====
-- A model of the k8sgpt operator, which runs the K8sGPT analysis in a cluster, stores its findings
-- as Results and repairs what it finds through Mutations.
--
-- For each K8sGPT resource K8sGPTReconciler creates a Deployment with its Service and access
-- rights, connects to the server in it, configures and asks it, stores the findings of an analysis
-- as Results, sends them to a chat service, and creates a Mutation for each finding whose object may
-- be repaired: the object itself or the workload that owns it, as ResultsToEligibleResources finds
-- it and Deduplicate merges it.
--
-- A Mutation starts as a snapshot of a Kubernetes object and a reference to a finding.
-- MutationReconciler.Reconcile asks the K8sGPT server for an image to use, stores the proposed
-- manifest, and gives it to ResourceToExecution. That reads the object again, lets
-- policy.Evaluate decide, and sends the gate's patch: first as a dry run, then for good.
-- Afterwards it waits until the rollout is complete and the finding is gone.
--
-- Text, Json, Kube, Maps: Go's strings over code points, JSON values, what is used of
--   apimachinery, and maps of strings. Built, Effect: code that fails or panics, and code that
--   calls services; Effect/Lift puts code with fewer calls into code with more.
-- Api: api/v1alpha1/*_types.go. Shared: internal/controller/shared/client.go and the goroutine of
--   cmd/main.go that fills it.
-- Policy: internal/controller/remediation/policy/gate.go. Policy/Paths has imagePath and
--   isHighRisk, Policy/Diff has normalized and diff, Policy/Gate has Evaluate.
-- Mutation: internal/controller/mutation, internal/controller/conversions/object_to_execution.go
--   and util.FromConfig. Mutation/Proposal has image_proposal.go, Mutation/Execution has
--   ResourceToExecution, Mutation/Rollout has FromConfig and the readiness of a target,
--   Mutation/Reconcile has Reconcile. Mutation/Progress says what a cluster that takes a repair
--   answers.
-- Remediation: internal/controller/conversions/to_eligible_resource.go and
--   internal/controller/util/deduplicate.go. The rounds of the walk over the owners are its fuel,
--   as in the code.
-- Resources: pkg/resources/k8sgpt.go. Resources/Rights has the Service and the access rights,
--   Resources/Start, Resources/Draft and Resources/Build have GetDeployment, Resources/Sync has
--   Sync and doSync.
-- Client: the requests of pkg/client/config.go, integration.go and analysis.go.
-- Controller: internal/controller/k8sgpt, pkg/resources/results.go and BackstageLabel of
--   pkg/integrations. Controller/Lifecycle has the steps InitStep, FinalizerStep and ConfigureStep,
--   Controller/Finish has FinishReconcile, Controller/Watch has findK8sGPTsForSecret,
--   Controller/Connections has clientFor and closeClientFor, Controller/Image has parseImageURI,
--   Controller/Results has MapResults and CreateOrUpdateResult, Controller/Analysis has
--   handleAIFailureBackoff, cleanUpStaleResults and processRawResults, Controller/Sinks has
--   initSinkType and processLatestResults, Controller/Remediate has mutationName and the loop that
--   creates mutations. Controller/Directory says what the connections promise.
-- Steps: the later steps of internal/controller/k8sgpt as one chain. Steps/Address has
--   GenerateAddress of pkg/client/client.go, Steps/Connect has PreAnalysisStep, AddConfig,
--   RemoveConfig and AddIntegration, Steps/Analyze has AnalysisStep and ProcessAnalysis, Steps/Report has
--   ResultStatusStep, Steps/Repair has calculateRemediationStep. Controller/Lifecycle has this chain
--   as its one call `later`.
-- Sinks: pkg/sinks, in Sinks/Messages. Metrics: pkg/metrics/metrics.go and the count of results of
--   internal/controller/k8sgpt/analysis_step.go.
-- Fixtures and the modules Tests: runs on concrete inputs.
--
-- Code outside the repository is a parameter. What computes is the records Machinery of Kube,
-- Toolkit of Controller/Server and Digest of Resources/Objects: accessors of objects, codecs, %q and
-- digests. What is called is the records Cluster of Mutation/Cluster, Server of Controller/Server,
-- Store of Resources/Objects, Network of Sinks/Messages, Environment of Steps/Events and Manager of
-- Controller/Lifecycle: an answer is a function of all calls made so far, so it may change between
-- two calls and any call may fail. A computation returns its value and the list of its calls.
--
-- The retries of CreateOrUpdateResult and of doSync are the five steps of client-go's default. A Go
-- map is a list of its entries in the order of their insertion, a pointer is an Option, following a
-- nil pointer is a value of its own, a duration is a number of seconds. No loop has fuel except
-- `decimal`, where one round more than the number is enough, and the walk over the owners, whose
-- rounds are those of the code.
--
-- Not modelled: logs, the count of failed reconciliations and the gauge of results by type, the
-- registration of metrics, the set-up of the manager, the gRPC stubs and generated code. A number of
-- a JSON object is its literal, and what a float64 makes of it is a parameter; tolerations and
-- security contexts are JSON that is passed on.
pub mod Common
pub mod Text
pub mod Json
pub mod Kube
pub mod Maps
pub mod Built
pub mod Effect
pub mod Api
pub mod Shared
pub mod Policy
pub mod Mutation
pub mod Resources
pub mod Client
pub mod Sinks
pub mod Metrics
pub mod Fixtures
pub mod Remediation
pub mod Controller
pub mod Steps
