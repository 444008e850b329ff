-- ===== src/Tests.antt =====
-- Runs of the models on concrete data, with a use of each theorem that has hypotheses.
pub mod Shop
pub mod UpRuns
pub mod LifecycleRuns
pub mod Requests
pub mod Operations
pub mod Events
pub mod Sorting
pub mod Audits
pub mod Scan
pub mod Compose
pub mod Disk
pub mod Grants
pub mod Starts
pub mod Panics
pub mod Numbers
pub mod Logs
pub mod Logins
pub mod Registry
pub mod Accounts
pub mod Routes
pub mod Upgrades
pub mod Overlaps
pub mod Bindings
pub mod Members
