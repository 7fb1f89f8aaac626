-- ===== src/Resources.antt =====
-- pkg/resources/k8sgpt.go: the Deployment, the Service and the access rights of a K8sGPT server.
pub mod Objects
pub mod Rights
pub mod Start
pub mod Draft
pub mod Build
pub mod Sync
pub mod Tests
