-- ===== src/Controller.antt =====
-- internal/controller/k8sgpt with pkg/resources/results.go and pkg/integrations: the controller of
-- the K8sGPT resources, from its connections to the Results and Mutations that it stores.
pub mod Server
pub mod Connections
pub mod Entries
pub mod Tidy
pub mod Directory
pub mod Image
pub mod Settled
pub mod Results
pub mod Upsert
pub mod Analysis
pub mod Breaker
pub mod Remediate
pub mod Names
pub mod Created
pub mod Sinks
pub mod Emission
pub mod Watch
pub mod Finish
pub mod Lifecycle
pub mod Guarded
pub mod Order
pub mod Cleanup
pub mod Tests
pub mod StepTests
pub mod WatchTests
