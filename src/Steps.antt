-- ===== src/Steps.antt =====
-- The steps of internal/controller/k8sgpt behind ConfigureStep, from the connection to the server
-- to the mutations, with the calls of pkg/client.
pub mod Events
pub mod Address
pub mod Repair
pub mod Report
pub mod Analyze
pub mod Connect
pub mod Plain
pub mod Served
pub mod Version
pub mod Failed
pub mod Tests
