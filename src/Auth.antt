-- ===== src/Auth.antt =====
-- internal/auth: the middleware, permissions and roles, with
-- internal/api/handlers/acl_middleware.go.
pub mod Permissions
pub mod Access
pub mod Tokens
