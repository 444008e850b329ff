-- ===== src/Domain.antt =====
-- The data of internal/domain: errors, operations, projects, users. Times and durations that the
-- code only records (StartedAt, FinishedAt, Duration, DiscoveredAt, UpdatedAt) are left out.
pub mod Errors
pub mod Operation
pub mod Project
pub mod User
