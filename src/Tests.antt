-- ===== src/Tests.antt =====
-- The theorems at concrete inputs: a table with its service, a scenario, and the instances.
pub mod Scenario
pub mod Service
pub mod Instances
pub mod Refusals
pub mod Postings
pub mod Builds
pub mod Resources
pub mod Requests
pub mod Late
pub mod Limits
