-- ===== src/Store.antt =====
-- internal/store: what stands between the code and its database.
pub mod Migrations
pub mod Audits
pub mod Users
pub mod Grants
