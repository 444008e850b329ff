-- ===== src/Discovery.antt =====
-- internal/discovery: finding compose projects and reading their files.
pub mod Value
pub mod Readers
pub mod Ports
pub mod EnvFile
pub mod Expand
pub mod Compose
pub mod Scanner
pub mod Parser
