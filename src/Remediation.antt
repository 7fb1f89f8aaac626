-- ===== src/Remediation.antt =====
-- internal/controller/conversions/to_eligible_resource.go, internal/controller/util/deduplicate.go
-- and internal/controller/types/eligible_resource.go: from the findings to what may be repaired.
pub mod Target
pub mod Eligible
pub mod Dedup
pub mod Enabled
pub mod Walk
pub mod Subset
pub mod Reads
pub mod Covered
pub mod Tests
