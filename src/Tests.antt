-- ===== src/Tests.antt =====
-- The theorems of the development applied to concrete stores, clusters and requests.
pub mod Stores
pub mod Sessions
pub mod Launches
pub mod Routes
pub mod Checks
pub mod Reports
pub mod Costs
pub mod Maintenance
pub mod Workspaces
pub mod Agents
