-- ===== src/Mutation.antt =====
-- internal/controller/mutation and the part of internal/controller/conversions that applies a
-- remediation: the controller that takes a Mutation from its proposal to its patch.
pub mod Cluster
pub mod Proposal
pub mod Execution
pub mod Rollout
pub mod Reconcile
pub mod Phases
pub mod Authorized
pub mod Order
pub mod Steps
pub mod Progress
pub mod Queries
pub mod Tests
pub mod ProgressTests
pub mod Image
