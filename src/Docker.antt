-- ===== src/Docker.antt =====
-- internal/docker: the client interface and the compose operations built on it.
pub mod Client
pub mod History
pub mod Resolve
pub mod Conflicts
pub mod Rollback
pub mod Sort
pub mod Up
pub mod Lifecycle
pub mod Streamer
pub mod Sdk
