-- ===== src/Policy.antt =====
-- internal/controller/remediation/policy/gate.go: the gate that every remediation passes.
pub mod Types
pub mod Paths
pub mod Diff
pub mod Gate
pub mod Tests
