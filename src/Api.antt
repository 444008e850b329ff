-- ===== src/Api.antt =====
-- internal/api/handlers: the handlers of requests, by what they answer and change.
pub mod Health
pub mod AuditLists
pub mod Streams
pub mod Router
pub mod Reply
pub mod Projects
pub mod Operations
pub mod Pages
pub mod Accounts
pub mod Users
